-- ===== src/Examples/Bookings.antt =====
-- Bookings that are made and cancelled in the small library.
use booking_api_service.Common.{
  ℕ, ◌*◌, ◌↔◌, some, map, contains, ◌≡◌, ◌<◌, refl, List, [], ◌∷◌, none, true, ◌+◌, arith, IsUnique,
}
use booking_api_service.Exceptions.{
  Result, ok, err, booking_conflict, seat_not_found, seats_not_found, seats_booked,
}
use booking_api_service.Settings.{default_settings}
use booking_api_service.Datetime.{combine, instant, hour_length}
use booking_api_service.Model.{Booking, Seat, confirmed, cancelled}
use booking_api_service.Redis.{table_redis, lock}
use booking_api_service.Redis.Lock.{acquire_lock, release_lock}
use booking_api_service.Kafka.{send_booking_event}
use booking_api_service.Booking.Slot.{validate_time_slot, booked_hours, calculate_price}
use booking_api_service.Booking.Slot.Accepted.{
  IsAccepted, validate_time_slot_iff, overnight_is_accepted, partial_hour_is_free,
}
use booking_api_service.Booking.Seats.{validate_seats_exist}
use booking_api_service.Booking.Seats.Exist.{IsBookable, validate_seats_exist_iff}
use booking_api_service.Booking.Conflicts.{check_seat_conflicts, conflicting_seats}
use booking_api_service.Booking.Conflicts.Free.{IsFree, check_seat_conflicts_iff}
use booking_api_service.Booking.Create.{
  World, with_world, admit, create_booking, insert_booking, new_booking, add_booking_seats, publish,
}
use booking_api_service.Booking.Create.Outcome.{redis-create_booking}
use booking_api_service.Booking.Create.Safe.{create_booking-IsConsistent}
use booking_api_service.Booking.Create.Succeeds.{IsServable, create_booking_iff}
use booking_api_service.Booking.Exclusive.{IsConsistent}
use booking_api_service.Booking.Calendar.{Follows}
use booking_api_service.Booking.Calendar.Held.{Holds}
use booking_api_service.Booking.Calendar.Refines.{serve_refines}
use booking_api_service.Booking.Cancel.{cancel_booking, as_cancelled, mark_cancelled}
use booking_api_service.Booking.Cancel.Outcome.{IsCancelled, cancel_booking-IsCancelled}
use booking_api_service.Booking.Create.Effects.{IsBooked, create_booking-IsBooked}
use booking_api_service.Booking.History.{Call, create, cancel, perform, serve}
use booking_api_service.Booking.History.Exclusive.{IsQuiet}
use booking_api_service.Booking.Cancel.Frees.{check_seat_conflicts-mark_cancelled}
use booking_api_service.Examples.{
  small_database, open_broker, booking, request, empty_db, booked_db, world_of,
}

abbrev outcome : Result Booking × World table_redis
outcome =
    create_booking default_settings small_database table_redis open_broker "t" 1
      (request (1 ∷ 2 ∷ []) 10 12) (world_of empty_db)

outcome_is : outcome ≡ (ok booking, outcome.1)
unfolding create_booking admit validate_time_slot validate_seats_exist check_seat_conflicts
    conflicting_seats new_booking booked_hours calculate_price publish acquire_lock
    send_booking_event
outcome_is = refl

tables_after : outcome.1.current ≡ booked_db
unfolding create_booking admit validate_time_slot validate_seats_exist check_seat_conflicts
    conflicting_seats new_booking booked_hours calculate_price publish acquire_lock
    send_booking_event insert_booking add_booking_seats
tables_after = refl

pub nothing_booked : IsConsistent empty_db
nothing_booked = record {
  ids_unique = tt;
  rows_refer = λ r m. elim m [ ];
  exclusive = λ a b r s i. elim i [ ];
}

create_booking-IsBooked_example :
    IsBooked default_settings small_database table_redis open_broker "t" 1
      (request (1 ∷ 2 ∷ []) 10 12)
      (world_of empty_db)
      booking
      outcome.1
create_booking-IsBooked_example =
    create_booking-IsBooked default_settings small_database table_redis open_broker "t" 1
      (request (1 ∷ 2 ∷ []) 10 12) (world_of empty_db) booking outcome.1 outcome_is

create_booking-IsConsistent_example : IsConsistent outcome.1.current
create_booking-IsConsistent_example =
    create_booking-IsConsistent default_settings small_database table_redis open_broker "t" 1
      (request (1 ∷ 2 ∷ []) 10 12) (world_of empty_db) booking outcome.1 nothing_booked
      (refl, (refl, (refl, tt))) outcome_is

redis-create_booking_example :
    table_redis.get outcome.1.redis (lock 1 700000 10)
    ≡ table_redis.get (world_of empty_db).redis (lock 1 700000 10)
redis-create_booking_example =
    redis-create_booking default_settings small_database table_redis open_broker "t" 1
      (request (1 ∷ 2 ∷ []) 10 12) (world_of empty_db) (lock 1 700000 10)

-- Bob is refused the seats 2 and 3 from eleven to thirteen, then Alice cancels, then he gets them.
abbrev history : List Call
history =
    create small_database open_broker "t" 1 (request (1 ∷ 2 ∷ []) 10 12)
    ∷ create small_database open_broker "u" 2 (request (2 ∷ 3 ∷ []) 11 13)
    ∷ cancel open_broker 1 1
    ∷ create small_database open_broker "v" 2 (request (2 ∷ 3 ∷ []) 11 13)
    ∷ []

start_is_settled : IsQuiet (world_of empty_db)
start_is_settled = record {
  settled = refl;
  consistent = nothing_booked;
  seat_ids_unique = (refl, (refl, (refl, tt)));
}

statuses_after :
    map (λ b. b.status) (serve default_settings history (world_of empty_db)).committed.bookings
    ≡ cancelled ∷ confirmed ∷ []
unfolding serve with_world perform create_booking admit cancel_booking validate_time_slot
    validate_seats_exist check_seat_conflicts acquire_lock calculate_price booked_hours
    send_booking_event insert_booking add_booking_seats mark_cancelled release_lock
statuses_after = refl

abbrev cancelled_world : World table_redis
cancelled_world = (cancel_booking open_broker 1 1 (world_of booked_db)).1

cancel_booking-IsCancelled_example :
    IsCancelled open_broker 1 1 (world_of booked_db) (as_cancelled booking) cancelled_world
unfolding cancel_booking publish send_booking_event
cancel_booking-IsCancelled_example =
    cancel_booking-IsCancelled open_broker 1 1 (world_of booked_db) (as_cancelled booking)
      cancelled_world refl

check_seat_conflicts-mark_cancelled_example :
    (check_seat_conflicts
        (mark_cancelled 1 booked_db)
        1
        (2 ∷ 3 ∷ [])
        (combine 700000 11)
        (combine 700000 13)
        none
      ≡ ok [])
    ↔ (check_seat_conflicts booked_db 1
          (2 ∷ 3 ∷ [])
          (combine 700000 11)
          (combine 700000 13)
          (some 1)
        ≡ ok [])
check_seat_conflicts-mark_cancelled_example =
    check_seat_conflicts-mark_cancelled booked_db 1 1 (2 ∷ 3 ∷ []) (combine 700000 11)
      (combine 700000 13) (λ e. omega arith)

check_seat_conflicts_iff_example :
    (check_seat_conflicts booked_db 1 (2 ∷ []) (combine 700000 12) (combine 700000 13) none ≡ ok [])
    ↔ IsFree booked_db 1 (2 ∷ []) (combine 700000 12) (combine 700000 13) none
check_seat_conflicts_iff_example =
    check_seat_conflicts_iff booked_db 1 (2 ∷ []) (combine 700000 12) (combine 700000 13) none

-- Seat 2 is taken at eleven, and free from twelve on.
taken_and_free :
    (check_seat_conflicts booked_db 1 (2 ∷ []) (combine 700000 11) (combine 700000 13) none
      ≡ err (booking_conflict (seats_booked ((1, 2) ∷ []))))
    × (check_seat_conflicts booked_db 1 (2 ∷ []) (combine 700000 12) (combine 700000 13) none
        ≡ ok [])
unfolding check_seat_conflicts
taken_and_free = (refl, refl)

validate_seats_exist_iff_example :
    ((seats : List Seat) × (validate_seats_exist empty_db 1 (1 ∷ 3 ∷ []) ≡ ok seats))
    ↔ (IsUnique (1 ∷ 3 ∷ []) × ((a : ℕ) → contains a (1 ∷ 3 ∷ []) ≡ true → IsBookable empty_db 1 a))
validate_seats_exist_iff_example =
    validate_seats_exist_iff empty_db 1 (1 ∷ 3 ∷ []) (refl, (refl, (refl, tt)))

-- A seat that is asked for twice is refused, though it exists.
asked_twice :
    validate_seats_exist empty_db 1 (1 ∷ 1 ∷ []) ≡ err (seat_not_found (seats_not_found []))
unfolding validate_seats_exist booking_api_service.Booking.Seats.missing_ids
asked_twice = refl

validate_time_slot_iff_example :
    (validate_time_slot default_settings (combine 700000 10) (combine 700000 12) ≡ ok tt)
    ↔ IsAccepted default_settings (combine 700000 10) (combine 700000 12)
validate_time_slot_iff_example =
    validate_time_slot_iff default_settings (combine 700000 10) (combine 700000 12)

overnight_is_accepted_example :
    (validate_time_slot default_settings (combine 700000 22) (combine 700001 5) ≡ ok tt)
    × (instant (combine 700000 23) < instant (combine 700001 5))
overnight_is_accepted_example =
    overnight_is_accepted 700000 22 5 (omega arith) (omega arith) (omega arith)

partial_hour_is_free_example :
    let start_time = record (combine 700000 10) { second = 59 } in
    let end_time = combine 700000 12 in
    (validate_time_slot default_settings start_time end_time ≡ ok tt)
    × (booked_hours start_time end_time ≡ 1)
    × (instant start_time + 2 * hour_length ≡ instant end_time + 59 * 1000000)
partial_hour_is_free_example =
    partial_hour_is_free 700000 10 59 1 (omega arith) (omega arith) (omega arith) (omega arith)
      (omega arith) (omega arith)

serve_refines_example :
    Follows history
      (Holds empty_db)
      (Holds (serve default_settings history (world_of empty_db)).committed)
serve_refines_example = serve_refines default_settings history (world_of empty_db) start_is_settled

create_booking_iff_example :
    ((b : Booking) × (w' : World table_redis) × (outcome ≡ (ok b, w')))
    ↔ IsServable default_settings small_database table_redis open_broker "t" 1
        (request (1 ∷ 2 ∷ []) 10 12)
        (world_of empty_db)
create_booking_iff_example =
    create_booking_iff default_settings small_database table_redis open_broker "t" 1
      (request (1 ∷ 2 ∷ []) 10 12) (world_of empty_db) (refl, (refl, (refl, tt)))
