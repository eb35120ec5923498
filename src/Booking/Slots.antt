-- ===== src/Booking/Slots.antt =====
-- `get_available_slots` and `_calculate_slots` of app/services/booking_service.py.
pub mod Tally
pub mod Correct
pub mod Described
pub mod Cache
use booking_api_service.Common.{
  ℕ, Option, none, some, List, [], ◌∷◌, ◌++◌, map, Bool, not, ◌&&◌, ◌==◌, ltb, leb, find, select,
  length, contains, range, if◌then◌else◌,
}
use booking_api_service.Common.Int.{pos, sub_ℕ, ltb_ℤ}
use booking_api_service.Exceptions.{
  Result, ok, err, text, value_error, key_error, default_hall_not_found,
}
use booking_api_service.Exceptions.Results.{◌>>=◌, ◌>>◌, raise_if, or_raise}
use booking_api_service.Settings.{Settings}
use booking_api_service.Datetime.{instant, combine}
use booking_api_service.Model.{Booking, Db, is_confirmed}
use booking_api_service.Schemas.{TimeSlotResponse}
use booking_api_service.Action.{Action, pure, raise}
use booking_api_service.Redis.{Redis, Key, Value, slots, json, token}
use booking_api_service.Booking.Create.{World}

-- `booked_seats_by_hour`: a dictionary from hours to sets of seat ids.
abbrev pub Hours : Type 0
Hours = ℕ → Option (List ℕ)

unfoldable pub no_seats : Settings → Hours
no_seats settings h =
    if leb settings.session_start_hour h && ltb h settings.session_end_hour then some [] else none

-- `set.add`
abbrev pub add_member : ℕ → List ℕ → List ℕ
add_member x xs = if contains x xs then xs else x ∷ xs

-- `booked_seats_by_hour[hour].add(seat_id)`
unfoldable pub add_seat : ℕ → ℕ → Hours → Result Hours
add_seat hour seat_id m = elim (m hour) [
  | none ↦ err key_error
  | some seats ↦ ok (λ h. if h == hour then some (add_member seat_id seats) else m h)
]

unfoldable pub add_seats : ℕ → List ℕ → Hours → Result Hours
add_seats hour [] m = ok m
add_seats hour (id ∷ ids) m = add_seat hour id m >>= λ m'. add_seats hour ids m'

unfoldable pub add_hours : List ℕ → List ℕ → Hours → Result Hours
add_hours ids [] m = ok m
add_hours ids (hour ∷ hours) m = add_seats hour ids m >>= λ m'. add_hours ids hours m'

abbrev pub seats_of_booking : Db → Booking → List ℕ
seats_of_booking db b =
    map (λ bs. bs.seat_id) (select (λ bs. bs.booking_id == b.id) db.booking_seats)

unfoldable pub add_bookings : Db → List Booking → Hours → Result Hours
add_bookings db [] m = ok m
add_bookings db (b ∷ bs) m =
    add_hours (seats_of_booking db b) (range b.start_time.hour b.end_time.hour) m >>= λ m'.
    add_bookings db bs m'

-- The confirmed bookings of the hall between the opening and the closing of the day.
abbrev pub day_bookings : Settings → Db → ℕ → ℕ → List Booking
day_bookings settings db hall_id date =
    select
      (λ b.
        b.hall_id == hall_id
        && is_confirmed b.status
        && leb (instant (combine date settings.session_start_hour)) (instant b.start_time)
        && leb (instant b.end_time) (instant (combine date settings.session_end_hour)))
      db.bookings

abbrev pub slot_of : ℕ → ℕ → List ℕ → TimeSlotResponse
slot_of total_seats hour seats =
    let free = sub_ℕ total_seats (length seats) in
    record {
      hour = hour;
      available = ltb_ℤ (pos 0) free;
      total_seats = total_seats;
      free_seats = free;
      booked_seats = length seats;
    }

unfoldable pub make_slots : ℕ → Hours → List ℕ → Result (List TimeSlotResponse)
make_slots total_seats m [] = ok []
make_slots total_seats m (hour ∷ hours) = do
  seats ← or_raise (m hour) key_error
  rest ← make_slots total_seats m hours
  ok (slot_of total_seats hour seats ∷ rest)

abbrev pub active_seats : Db → ℕ → ℕ
active_seats db hall_id = length (select (λ s. s.hall_id == hall_id && s.is_active) db.seats)

-- `time.replace(hour=...)` refuses an hour past 23.
unfoldable pub calculate_slots : Settings → Db → ℕ → ℕ → Result (List TimeSlotResponse)
calculate_slots settings db hall_id date = do
  or_raise (find (λ h. h.id == hall_id && h.is_active) db.halls) default_hall_not_found
  raise_if (not (ltb settings.session_start_hour 24 && ltb settings.session_end_hour 24))
      (value_error (text "hour must be in 0..23"))
  booked ← add_bookings db (day_bookings settings db hall_id date) (no_seats settings)
  make_slots (active_seats db hall_id) booked
      (range settings.session_start_hour settings.session_end_hour)

abbrev pub cache_ttl : ℕ
cache_ttl = 300

module _ {R : Redis} where
  -- `setex` of a table that was calculated; an exception passes by it.
  unfoldable pub store_slots :
      ℕ → ℕ → Result (List TimeSlotResponse) → Action (World R) (List TimeSlotResponse)
  store_slots hall_id date (err e) w = (err e, w)
  store_slots hall_id date (ok xs) w =
      (ok xs, record w { redis = R.set w.redis (slots hall_id date) (json xs) cache_ttl })

  -- What lies under the key is a list, which as JSON is never an empty text; anything else does not
  -- decode.
  unfoldable pub answer_cached :
      Option Value
      → Action (World R) (List TimeSlotResponse)
      → Action (World R) (List TimeSlotResponse)
  answer_cached none fresh = fresh
  answer_cached (some (json xs)) fresh = pure xs
  answer_cached (some (token t)) fresh = raise (value_error (text "Expecting value"))

  unfoldable pub get_available_slots : Settings → ℕ → ℕ → Action (World R) (List TimeSlotResponse)
  unfolding answer_cached
  get_available_slots settings hall_id date w =
      answer_cached (R.get w.redis (slots hall_id date))
        (λ w'. store_slots hall_id date (calculate_slots settings w'.current hall_id date) w') w
