-- ===== src/Booking/Slots/Described.antt =====
-- The table of `_calculate_slots` against a description of what it should say, in terms of the rows of
-- the database.
use booking_api_service.Common.{
  ℕ, ◌+◌, ◌≤◌, ◌<◌, ◌≡◌, ◌↔◌, refl, ap, sym, ◌∙◌, inl, inr, some, List, [], ◌∷◌, map, Bool, true,
  ◌&&◌, ◌==◌, leb, ==_iff, &&_true, &&_intro, contains, contains-In, In-contains, range, any,
  select, find, length, length-le_of_subset, length-map, IsUnique, In, In-map, In-map_inv,
  In-select, In-select_intro, arith, Bool-cases, subst, Counts, select-Counts,
}
use booking_api_service.Common.Int.{ℤ, pos, negsuc, ◌+ℤ◌, ltb_ℤ, pos_of_sum}
use booking_api_service.Exceptions.{ok}
use booking_api_service.Settings.{Settings}
use booking_api_service.Datetime.{instant, combine}
use booking_api_service.Model.{
  Hall, Seat, Booking, BookingSeat, BookingStatus, Db, confirmed, cancelled, is_confirmed,
}
use booking_api_service.Schemas.{TimeSlotResponse}
use booking_api_service.Booking.Slots.{
  day_bookings, active_seats, seats_of_booking, calculate_slots,
}
use booking_api_service.Booking.Slots.Tally.{is_taking}
use booking_api_service.Booking.Slots.Correct.{
  IsTimed, IsTallied, in_range, range_in, calculate_slots-IsTallied,
}

positive_iff : (z : ℤ) (b t : ℕ) → z +ℤ pos b ≡ pos t → (ltb_ℤ (pos 0) z ≡ true) ↔ (b < t)
unfolding ◌+ℤ◌
positive_iff (pos n) b t e = ground arith
positive_iff (negsuc n) b t e = ground arith

any_iff :
    {A : Type 0} (p : A → Bool) (xs : List A)
    → (any p xs ≡ true) ↔ ((x : A) × In x xs × (p x ≡ true))
any_iff p [] = (λ h. cc, λ (x, m, e). elim m [ ])
any_iff p (y ∷ xs) =
    let (f, g) = any_iff p xs in
    (
      λ h. elim (Bool-cases (p y)) [
        | inl e ↦ (y, inl refl, e)
        | inr e ↦ let k : any p xs ≡ true = rw e at h in let (x, m, q) = f k in (x, inr m, q)
      ],
      λ (x, m, e). elim m [
        | inl q ↦ let k : p y ≡ true = ap p (sym q) ∙ e in ground arith
        | inr i ↦ let k = g (x, i, e) in ground arith
      ],
    )

sold : (status : BookingStatus) → is_confirmed status ≡ true → status ≡ confirmed
sold confirmed h = refl
sold cancelled h = cc

module _ (settings : Settings) (db : Db) (hall_id date : ℕ) where
  -- A confirmed booking of the hall, which lies between the opening and the closing of the day, has the
  -- hour and holds the seat.
  pub record IsHeld (hour seat_id : ℕ) : Type 0 where
    pub booking : Booking
    pub stored : In booking db.bookings
    pub in_hall : booking.hall_id ≡ hall_id
    pub is_sold : booking.status ≡ confirmed
    pub opens : instant (combine date settings.session_start_hour) ≤ instant booking.start_time
    pub closes : instant booking.end_time ≤ instant (combine date settings.session_end_hour)
    pub starts : booking.start_time.hour ≤ hour
    pub ends : hour < booking.end_time.hour
    pub row : BookingSeat
    pub row_stored : In row db.booking_seats
    pub row_of : row.booking_id ≡ booking.id
    pub row_seat : row.seat_id ≡ seat_id

  abbrev pub IsActiveSeat : Seat → Type 0
  IsActiveSeat s = (s.hall_id ≡ hall_id) × (s.is_active ≡ true)

  -- What a row of the table should say: how many distinct seats are held in its hour, how many active
  -- seats the hall has, and the difference, which may be negative.
  pub record IsSlot (slot : TimeSlotResponse) : Type 0 where
    pub seats : List ℕ
    pub seats_unique : IsUnique seats
    pub seats_held : (x : ℕ) → (contains x seats ≡ true) ↔ IsHeld slot.hour x
    pub booked : slot.booked_seats ≡ length seats
    pub total : Counts IsActiveSeat db.seats slot.total_seats
    pub difference : slot.free_seats +ℤ pos slot.booked_seats ≡ pos slot.total_seats
    pub available : (slot.available ≡ true) ↔ (slot.booked_seats < slot.total_seats)

  abbrev in_day : Booking → Bool
  in_day b =
      b.hall_id == hall_id
      && is_confirmed b.status
      && leb (instant (combine date settings.session_start_hour)) (instant b.start_time)
      && leb (instant b.end_time) (instant (combine date settings.session_end_hour))

  abbrev taken : ℕ → ℕ → Bool
  taken hour x = any (is_taking db hour x) (day_bookings settings db hall_id date)

  abbrev seat_of : BookingSeat → ℕ
  seat_of r = r.seat_id

  abbrev of_booking : Booking → BookingSeat → Bool
  of_booking b r = r.booking_id == b.id

  within_day :
      (b : Booking)
      → in_day b ≡ true
      → (b.hall_id ≡ hall_id)
        × (is_confirmed b.status ≡ true)
        × (instant (combine date settings.session_start_hour) ≤ instant b.start_time)
        × (instant b.end_time ≤ instant (combine date settings.session_end_hour))
  within_day b h = ground arith

  taken→held : (hour x : ℕ) → taken hour x ≡ true → IsHeld hour x
  taken→held hour x h =
      let (b, i, t) = (any_iff (is_taking db hour x) (day_bookings settings db hall_id date)).0 h in
      let (stored, day) = In-select in_day b db.bookings i in
      let (hall, is_sold, from, to) = within_day b day in
      let (hours, seat) = &&_true _ (contains x (seats_of_booking db b)) t in
      let (lo, hi) = in_range hour b.start_time.hour b.end_time.hour hours in
      let (r, m, e) =
        In-map_inv seat_of x (select (of_booking b) db.booking_seats) (contains-In x _ seat) in
      let (row_stored, of) = In-select (of_booking b) r db.booking_seats m in
      record {
        booking = b;
        stored = stored;
        in_hall = hall;
        is_sold = sold b.status is_sold;
        opens = from;
        closes = to;
        starts = lo;
        ends = hi;
        row = r;
        row_stored = row_stored;
        row_of = (==_iff _ _).0 of;
        row_seat = sym e;
      }

  held-in_day : (hour x : ℕ) (k : IsHeld hour x) → in_day k.booking ≡ true
  held-in_day hour x k = ground (arith, k.in_hall, ap is_confirmed k.is_sold, k.opens, k.closes)

  held→taken : (hour x : ℕ) → IsHeld hour x → taken hour x ≡ true
  held→taken hour x k =
      let b = k.booking in
      let i = In-select_intro in_day b db.bookings k.stored (held-in_day hour x k) in
      let m =
        In-select_intro (of_booking b) k.row db.booking_seats k.row_stored
          ((==_iff _ _).1 k.row_of) in
      let seat : contains x (seats_of_booking db b) ≡ true = In-contains x _ (
        subst (λ y. In y (seats_of_booking db b)) k.row_seat
          (In-map seat_of k.row (select (of_booking b) db.booking_seats) m)) in
      (any_iff (is_taking db hour x) (day_bookings settings db hall_id date)).1
        (b, i, &&_intro (range_in hour b.start_time.hour b.end_time.hour k.starts k.ends) seat)

  active-Counts : Counts IsActiveSeat db.seats (active_seats db hall_id)
  active-Counts =
      select-Counts IsActiveSeat (λ s. s.hall_id == hall_id && s.is_active) (λ s. ground arith)
        db.seats

  is_available :
      (slot : TimeSlotResponse)
      → slot.free_seats +ℤ pos slot.booked_seats ≡ pos slot.total_seats
      → slot.available ≡ ltb_ℤ (pos 0) slot.free_seats
      → (slot.available ≡ true) ↔ (slot.booked_seats < slot.total_seats)
  is_available slot d a = rw a (positive_iff slot.free_seats slot.booked_seats slot.total_seats d)

  IsTallied-IsSlot :
      (slot : TimeSlotResponse) → IsTallied settings db hall_id date slot → IsSlot slot
  IsTallied-IsSlot slot k = record {
    seats = k.seats;
    seats_unique = k.seats_unique;
    seats_held = λ x. (
      λ m. taken→held slot.hour x (sym (k.seats_taken x) ∙ m),
      λ h. k.seats_taken x ∙ held→taken slot.hour x h,
    );
    booked = k.booked;
    total = subst (Counts IsActiveSeat db.seats) (sym k.total) active-Counts;
    difference = k.difference;
    available = is_available slot k.difference k.available;
  }

  -- The held seats are among the active ones.
  at_most :
      ((b : Booking) (r : BookingSeat)
        → In b db.bookings
        → b.hall_id ≡ hall_id
        → b.status ≡ confirmed
        → In r db.booking_seats
        → r.booking_id ≡ b.id
        → (s : Seat) × In s db.seats × (s.id ≡ r.seat_id) × IsActiveSeat s)
      → (slot : TimeSlotResponse) → IsTallied settings db hall_id date slot
      → slot.booked_seats ≤ slot.total_seats
  at_most active slot k =
      let p : Seat → Bool = λ s. s.hall_id == hall_id && s.is_active in
      let ids = map (λ (s : Seat). s.id) (select p db.seats) in
      let known : (x : ℕ) → contains x k.seats ≡ true → contains x ids ≡ true = λ x m.
        let h = taken→held slot.hour x (sym (k.seats_taken x) ∙ m) in
        let (s, i, e, (q, a)) =
          active h.booking h.row h.stored h.in_hall h.is_sold h.row_stored h.row_of in
        let j = In-select_intro p s db.seats i (&&_intro ((==_iff _ _).1 q) a) in
        In-contains x ids
          (subst (λ y. In y ids) (e ∙ h.row_seat) (In-map (λ (s : Seat). s.id) s _ j)) in
      let fits = length-le_of_subset k.seats ids k.seats_unique known in
      omega (arith, k.booked, k.total, length-map (λ (s : Seat). s.id) (select p db.seats))

  module _ (hall : Hall) (is_open : find (λ h. h.id == hall_id && h.is_active) db.halls ≡ some hall)
      (opening : settings.session_start_hour < 24) (closing : settings.session_end_hour < 24)
      (timed : (b : Booking) → In b db.bookings → IsTimed b) where
    -- For an active hall, with opening hours that are hours of a day, and when every stored booking
    -- has valid times and ends after it starts: `_calculate_slots` raises nothing, and gives one row
    -- for each opening hour, in order. Each row has the number of the distinct seats that some
    -- confirmed booking of the hall within the day holds in that hour, the number of the active seats
    -- of the hall, and their difference, and is available exactly if fewer are held than there are.
    pub calculate_slots_table :
        (slots : List TimeSlotResponse) × (calculate_slots settings db hall_id date ≡ ok slots)
        × (map (λ (s : TimeSlotResponse). s.hour) slots
            ≡ range settings.session_start_hour settings.session_end_hour)
        × ((slot : TimeSlotResponse) → In slot slots → IsSlot slot)
    calculate_slots_table =
        let (slots, e, hours, k) =
          calculate_slots-IsTallied settings db hall_id date hall is_open opening closing timed in
        (slots, e, hours, λ slot i. IsTallied-IsSlot slot (k slot i))

    -- Under the same conditions, and if every seat of a confirmed booking of the hall is an active
    -- seat of the hall: no row of the table that `_calculate_slots` gives has a negative number of
    -- free seats, and free and booked seats add up to the total. (A seat that is deleted after it was
    -- booked breaks the condition.)
    pub free_seats_nonneg :
        ((b : Booking) (r : BookingSeat)
          → In b db.bookings
          → b.hall_id ≡ hall_id
          → b.status ≡ confirmed
          → In r db.booking_seats
          → r.booking_id ≡ b.id
          → (s : Seat) × In s db.seats × (s.id ≡ r.seat_id) × IsActiveSeat s)
        → (slots : List TimeSlotResponse) × (calculate_slots settings db hall_id date ≡ ok slots)
          × ((slot : TimeSlotResponse)
              → In slot slots
              → (free : ℕ) × (slot.free_seats ≡ pos free)
                × (free + slot.booked_seats ≡ slot.total_seats))
    free_seats_nonneg active =
        let (slots, e, hours, tallied) =
          calculate_slots-IsTallied settings db hall_id date hall is_open opening closing timed in
        (
          slots,
          e,
          λ slot i.
              let k = tallied slot i in
              pos_of_sum slot.free_seats slot.booked_seats slot.total_seats k.difference
                (at_most active slot k),
        )
