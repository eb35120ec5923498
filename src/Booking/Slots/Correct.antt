-- ===== src/Booking/Slots/Correct.antt =====
-- The rows of the table of `_calculate_slots`, and what each of them counts.
use booking_api_service.Common.{
  In, In-select, In-map_inv, ℕ, ◌-◌, ◌≤◌, ◌<◌, ◌≡◌, refl, ap, ◌∙◌, inl, inr, some, List, [], ◌∷◌,
  map, Bool, true, ◌&&◌, ◌||◌, ◌==◌, leb, contains, range, any, IsUnique, arith, Option-cases,
  length, find, lt→ltb,
}
use booking_api_service.Common.Int.{pos, ◌+ℤ◌, ltb_ℤ, sub_ℕ-+ℤ}
use booking_api_service.Exceptions.{ok}
use booking_api_service.Settings.{Settings}
use booking_api_service.Datetime.{IsDatetime, instant, combine}
use booking_api_service.Model.{Hall, Booking, Db, is_confirmed}
use booking_api_service.Schemas.{TimeSlotResponse}
use booking_api_service.Booking.Slots.{
  Hours, no_seats, day_bookings, active_seats, slot_of, make_slots, calculate_slots,
}
use booking_api_service.Booking.Slots.Tally.{
  seats_at, is_key, Adds, is_taking, add_bookings-Adds, contains-range_from,
}

-- The times of a stored booking: proper datetimes, the end after the start.
pub record IsTimed (b : Booking) : Type 0 where
  pub start_valid : IsDatetime b.start_time
  pub end_valid : IsDatetime b.end_time
  pub ordered : instant b.start_time < instant b.end_time

-- A booking within the day has its hours within the opening hours.
hours_of_day :
    (opening closing date : ℕ) (b : Booking) (h : ℕ)
    → IsTimed b
    → closing < 24
    → instant (combine date opening) ≤ instant b.start_time
    → instant b.end_time ≤ instant (combine date closing)
    → b.start_time.hour ≤ h
    → h < b.end_time.hour
    → (opening ≤ h) × (h < closing)
hours_of_day opening closing date b h t c lo hi from to =
    let sv = t.start_valid in
    let ev = t.end_valid in
    let same_day : b.start_time.date ≡ date = omega arith in
    let same_day' : b.end_time.date ≡ date = omega arith in (omega arith, omega arith)

make_slots-ok :
    (total : ℕ) (m : Hours) (hours : List ℕ)
    → ((h : ℕ) → contains h hours ≡ true → is_key (m h) ≡ true)
    → make_slots total m hours ≡ ok (map (λ h. slot_of total h (seats_at (m h))) hours)
unfolding make_slots
make_slots-ok total m [] k = refl
make_slots-ok total m (hour ∷ hours) k = elim (Option-cases (m hour)) [
  | inl e ↦ cc (k hour (ground arith), ap is_key e)
  | inr (seats, e) ↦ rw (e, make_slots-ok total m hours (λ h c. k h (rw c (ground arith)))) refl
]

hours-make_slots :
    (total : ℕ) (m : Hours) (hours : List ℕ)
    → map (λ (s : TimeSlotResponse). s.hour) (map (λ h. slot_of total h (seats_at (m h))) hours)
      ≡ hours
hours-make_slots total m [] = refl
hours-make_slots total m (h ∷ hours) = ap (◌∷◌ h) (hours-make_slots total m hours)

pub in_range : (h a b : ℕ) → contains h (range a b) ≡ true → (a ≤ h) × (h < b)
in_range h a b m = ground (arith, contains-range_from h a (b - a))

pub range_in : (h a b : ℕ) → a ≤ h → h < b → contains h (range a b) ≡ true
range_in h a b p q = ground (arith, contains-range_from h a (b - a))

no_seats_empty : (settings : Settings) (h : ℕ) → seats_at (no_seats settings h) ≡ []
unfolding no_seats
no_seats_empty settings h = ground arith

module _ (settings : Settings) (db : Db) (hall_id date : ℕ) where
  abbrev in_day : Booking → Bool
  in_day b =
      b.hall_id == hall_id
      && is_confirmed b.status
      && leb (instant (combine date settings.session_start_hour)) (instant b.start_time)
      && leb (instant b.end_time) (instant (combine date settings.session_end_hour))

  -- What a row of the table counts, by the tests of the code.
  pub record IsTallied (slot : TimeSlotResponse) : Type 0 where
    pub seats : List ℕ
    pub seats_unique : IsUnique seats
    pub seats_taken :
        (x : ℕ)
        → contains x seats ≡ any (is_taking db slot.hour x) (day_bookings settings db hall_id date)
    pub booked : slot.booked_seats ≡ length seats
    pub total : slot.total_seats ≡ active_seats db hall_id
    pub difference : slot.free_seats +ℤ pos slot.booked_seats ≡ pos slot.total_seats
    pub available : slot.available ≡ ltb_ℤ (pos 0) slot.free_seats

  within :
      (b : Booking)
      → in_day b ≡ true
      → (instant (combine date settings.session_start_hour) ≤ instant b.start_time)
        × (instant b.end_time ≤ instant (combine date settings.session_end_hour))
  within b q = ground arith

  day_hours :
      settings.session_end_hour < 24
      → ((b : Booking) → In b db.bookings → IsTimed b)
      → (b : Booking) → In b (day_bookings settings db hall_id date)
      → (h : ℕ) → contains h (range b.start_time.hour b.end_time.hour) ≡ true
      → is_key (no_seats settings h) ≡ true
  unfolding no_seats
  day_hours c timed b i h m =
      let (from, to) = in_range h b.start_time.hour b.end_time.hour m in
      let (j, q) = In-select _ b db.bookings i in
      let r =
        hours_of_day settings.session_start_hour settings.session_end_hour date b h (timed b j) c
          (within b q).0 (within b q).1 from to in
      ground arith

  abbrev taken_at : ℕ → ℕ → Bool
  taken_at h x = any (is_taking db h x) (day_bookings settings db hall_id date)

  slot_of-IsTallied :
      (m : Hours) (h : ℕ)
      → Adds
          (no_seats settings)
          m
          (λ h x. any (is_taking db h x) (day_bookings settings db hall_id date))
      → IsTallied (slot_of (active_seats db hall_id) h (seats_at (m h)))
  slot_of-IsTallied m h a = record {
    seats = seats_at (m h);
    seats_unique = a.unique h (rw (no_seats_empty settings h) tt);
    seats_taken =
        λ x. a.members h x ∙ ap (λ s. contains x s || taken_at h x) (no_seats_empty settings h);
    booked = refl;
    total = refl;
    difference = sub_ℕ-+ℤ (active_seats db hall_id) (length (seats_at (m h)));
    available = refl;
  }

  abbrev opening_hours : List ℕ
  opening_hours = range settings.session_start_hour settings.session_end_hour

  is_opening_hour : (h : ℕ) → contains h opening_hours ≡ true → is_key (no_seats settings h) ≡ true
  unfolding no_seats
  is_opening_hour h c =
      let (from, to) = in_range h settings.session_start_hour settings.session_end_hour c in
      ground arith

  -- No `KeyError` is raised, and the table has one row for each opening hour, each with its counts.
  pub calculate_slots-IsTallied :
      (hall : Hall)
      → find (λ h. h.id == hall_id && h.is_active) db.halls ≡ some hall
      → settings.session_start_hour < 24
      → settings.session_end_hour < 24
      → ((b : Booking) → In b db.bookings → IsTimed b)
      → (slots : List TimeSlotResponse) × (calculate_slots settings db hall_id date ≡ ok slots)
        × (map (λ (s : TimeSlotResponse). s.hour) slots ≡ opening_hours)
        × ((slot : TimeSlotResponse) → In slot slots → IsTallied slot)
  unfolding calculate_slots
  calculate_slots-IsTallied hall e o c timed =
      let (m, q, a) =
        add_bookings-Adds db (day_bookings settings db hall_id date) (no_seats settings)
          (day_hours c timed) in
      let total = active_seats db hall_id in
      let made = make_slots-ok total m opening_hours (λ h k. a.keys h ∙ is_opening_hour h k) in
      (
        map (λ h. slot_of total h (seats_at (m h))) opening_hours,
        rw e (rw (lt→ltb _ _ o) (rw (lt→ltb _ _ c) (rw q made))),
        hours-make_slots total m opening_hours,
        λ slot i.
            let (h, j, z) =
              In-map_inv (λ h. slot_of total h (seats_at (m h))) slot opening_hours i in
            rw z (slot_of-IsTallied m h a),
      )
