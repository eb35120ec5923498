-- ===== src/Api/Table/BookingStatuses.antt =====
-- The statuses of the errors that create_booking and cancel_booking of
-- app/services/booking_service.py raise.
use booking_api_service.Common.{ℕ, String, none, List, [], ◌∷◌, Bool, true, false, not, refl, arith}
use booking_api_service.Exceptions.{status_code, Detail, booking_conflict}
use booking_api_service.Action.{Action, ◌>>◌, raise_if}
use booking_api_service.Settings.{Settings}
use booking_api_service.Datetime.{Datetime}
use booking_api_service.Model.{User, Hall, Seat, Booking, Db}
use booking_api_service.Schemas.{BookingCreate}
use booking_api_service.Session.{Database}
use booking_api_service.Kafka.{Broker, Event, send_booking_event}
use booking_api_service.Redis.{Redis}
use booking_api_service.Redis.Lock.{acquire_lock}
use booking_api_service.Booking.Slot.{validate_time_slot}
use booking_api_service.Booking.Seats.{validate_seats_exist}
use booking_api_service.Booking.Conflicts.{check_seat_conflicts, refuse_conflicts}
use booking_api_service.Booking.Create
use booking_api_service.Booking.Create.{
  World, admit, book, flush_booking, publish, acquire, release,
}
use booking_api_service.Booking.Cancel
use booking_api_service.Api.Table.Statuses.{Allows, Raises, continue-Allows}

-- What a booking asks for is checked before the lock is taken.
abbrev refusals : List ℕ
refusals = 500 ∷ 404 ∷ 400 ∷ 409 ∷ []

check_seat_conflicts-Allows :
    (db : Db) (hall_id : ℕ) (seat_ids : List ℕ) (start_time end_time : Datetime)
    → Allows refusals (check_seat_conflicts db hall_id seat_ids start_time end_time none)
unfolding check_seat_conflicts
check_seat_conflicts-Allows db hall_id seat_ids start_time end_time = refused _
  where
    refused : (xs : List Seat) → Allows refusals (refuse_conflicts xs)
    refused [] = tt
    refused (s ∷ xs) = unfold status_code in refl

validate_time_slot-Allows :
    (settings : Settings) (start_time end_time : Datetime)
    → Allows refusals (validate_time_slot settings start_time end_time)
unfolding validate_time_slot status_code
validate_time_slot-Allows settings start_time end_time = ground arith

validate_seats_exist-Allows :
    (db : Db) (hall_id : ℕ) (seat_ids : List ℕ)
    → Allows refusals (validate_seats_exist db hall_id seat_ids)
unfolding validate_seats_exist status_code
validate_seats_exist-Allows db hall_id seat_ids = ground arith

admit-Allows :
    (settings : Settings) (user_id : ℕ) (rq : BookingCreate) (db : Db)
    → Allows refusals (admit settings user_id rq db)
unfolding admit status_code
admit-Allows settings user_id rq db = ground (
  arith,
  validate_time_slot-Allows settings rq.start_time rq.end_time,
  validate_seats_exist-Allows db rq.hall_id rq.seat_ids,
  check_seat_conflicts-Allows db rq.hall_id rq.seat_ids rq.start_time rq.end_time,
)

module _ {R : Redis} (broker : Broker) where
  publish-Allows :
      (event : Event) (rest : List ℕ) (w : World R)
      → Allows (500 ∷ rest) (publish {R = R} broker event w).0
  unfolding publish send_booking_event status_code
  publish-Allows event rest w = ground arith

  pub cancel_booking-Raises :
      (booking_id user_id : ℕ)
      → Raises (500 ∷ 404 ∷ 409 ∷ []) (Cancel.cancel_booking {R = R} broker booking_id user_id)
  unfolding Cancel.cancel_booking publish send_booking_event status_code
  cancel_booking-Raises booking_id user_id w = ground arith

module _ (settings : Settings) (D : Database) (R : Redis) (broker : Broker) where
  book-Raises :
      (user_id : ℕ) (hall : Hall) (user : User) (rq : BookingCreate)
      → Raises refusals (book settings D R broker user_id hall user rq)
  unfolding book flush_booking publish send_booking_event status_code
  book-Raises user_id hall user rq w =
      continue-Allows refusals
        (check_seat_conflicts w.current rq.hall_id rq.seat_ids rq.start_time rq.end_time none) _ w
        (check_seat_conflicts-Allows w.current rq.hall_id rq.seat_ids rq.start_time rq.end_time)
        (λ seats v. ground arith)

  refused-Allows :
      (got : Bool) (d : Detail) (m : Action (World R) Booking) (w : World R)
      → Allows refusals (m w).0
      → Allows refusals ((raise_if (not got) (booking_conflict d) >> m) w).0
  unfolding status_code
  refused-Allows true d m w h = h
  refused-Allows false d m w h = refl

  pub create_booking-Raises :
      (uuid : String) (user_id : ℕ) (rq : BookingCreate)
      → Raises refusals (Create.create_booking settings D R broker uuid user_id rq)
  unfolding Create.create_booking acquire
  create_booking-Raises uuid user_id rq w =
      continue-Allows refusals (admit settings user_id rq w.current) _ w
        (admit-Allows settings user_id rq w.current)
        (λ (hall, user) v.
          refused-Allows
            (acquire_lock R v.redis (Create.lock_key rq) uuid settings.redis_lock_timeout).1 _ _ _
            (book-Raises user_id hall user rq _))
