-- ===== src/Booking/Create/Succeeds.antt =====
-- When `create_booking` returns a booking.
use booking_api_service.Common.{
  ℕ, String, [], none, some, true, ◌≤◌, ◌≡◌, ◌↔◌, refl, ap, ◌∙◌, find, ◌==◌, ◌&&◌, contains,
  IsUnique, arith,
}
use booking_api_service.Exceptions.{Result, ok}
use booking_api_service.Settings.{Settings}
use booking_api_service.Model.{User, Hall, Booking, max_money}
use booking_api_service.Schemas.{BookingCreate}
use booking_api_service.Session.{Database}
use booking_api_service.Kafka.{Broker, send_booking_event}
use booking_api_service.Redis.{Redis}
use booking_api_service.Redis.Lock.{acquire_lock, acquire_lock-free}
use booking_api_service.Booking.Slot.Accepted.{IsAccepted, validate_time_slot_iff}
use booking_api_service.Booking.Seats.Exist.{IsBookable, seat_ids_of, validate_seats_exist_iff}
use booking_api_service.Booking.Conflicts.{check_seat_conflicts}
use booking_api_service.Booking.Conflicts.Free.{IsFree, check_seat_conflicts_iff}
use booking_api_service.Booking.Create.{
  World, admit, new_booking, lock_key, created_event, book, create_booking,
}
use booking_api_service.Booking.Create.Outcome.{create_booking-Inserts, create_booking-locked}
use booking_api_service.Booking.Create.Safe.{admit-IsAdmitted}

module _ (settings : Settings) (D : Database) (R : Redis) (broker : Broker) (token : String)
    (user_id : ℕ) (rq : BookingCreate) (w : World R) where
  abbrev call : Result Booking × World R
  call = create_booking settings D R broker token user_id rq w

  -- Everything that a request needs to be served.
  pub record IsServable : Type 0 where
    pub hall : Hall
    pub user : User
    pub hall_is_active : find (λ h. h.id == rq.hall_id && h.is_active) w.current.halls ≡ some hall
    pub user_exists : find (λ u. u.id == user_id) w.current.users ≡ some user
    pub slot_accepted : IsAccepted settings rq.start_time rq.end_time
    pub seats_distinct : IsUnique rq.seat_ids
    pub seats_bookable : (a : ℕ) → contains a rq.seat_ids ≡ true → IsBookable w.current rq.hall_id a
    pub seats_free : IsFree w.current rq.hall_id rq.seat_ids rq.start_time rq.end_time none
    pub lock_free : R.get w.redis (lock_key rq) ≡ none
    pub price_fits : (new_booking D user_id hall rq w.current).total_price ≤ max_money
    pub announced :
        broker (created_event user_id hall user (new_booking D user_id hall rq w.current)) ≡ true

  module _ (unique : IsUnique (seat_ids_of w.current.seats)) where
    needed : (b : Booking) (w' : World R) → call ≡ (ok b, w') → IsServable
    needed b w' done =
        let k = create_booking-Inserts settings D R broker token user_id rq w b w' done in
        let a = admit-IsAdmitted settings user_id rq w.current k.hall k.user k.was_admitted in
        let seats =
          (validate_seats_exist_iff w.current rq.hall_id rq.seat_ids unique).0 a.seats_found in
        record {
          hall = k.hall;
          user = k.user;
          hall_is_active = a.hall_found;
          user_exists = a.user_found;
          slot_accepted =
              (validate_time_slot_iff settings rq.start_time rq.end_time).0 a.slot_accepted;
          seats_distinct = seats.0;
          seats_bookable = seats.1;
          seats_free =
              (check_seat_conflicts_iff w.current rq.hall_id rq.seat_ids rq.start_time rq.end_time
                  none).0
                a.no_conflict;
          lock_free = k.lock_was_free;
          price_fits = rw (← k.row) k.price_fits;
          announced = rw (← k.row) k.announced;
        }

    module _ (s : IsServable) where
      checked :
          check_seat_conflicts w.current rq.hall_id rq.seat_ids rq.start_time rq.end_time none
          ≡ ok []
      checked =
          (check_seat_conflicts_iff w.current rq.hall_id rq.seat_ids rq.start_time rq.end_time
              none).1
            s.seats_free

      admitted : admit settings user_id rq w.current ≡ ok (s.hall, s.user)
      unfolding admit
      admitted =
          let (seats, found) =
            (validate_seats_exist_iff w.current rq.hall_id rq.seat_ids unique).1
              (s.seats_distinct, s.seats_bookable) in
          let accepted =
            (validate_time_slot_iff settings rq.start_time rq.end_time).1 s.slot_accepted in
          rw s.hall_is_active (rw s.user_exists (rw accepted (rw found (rw checked refl))))

      abbrev locked : World R
      locked = record w {
        redis = (acquire_lock R w.redis (lock_key rq) token settings.redis_lock_timeout).0;
      }

      booked :
          (book settings D R broker user_id s.hall s.user rq locked).0
          ≡ ok (new_booking D user_id s.hall rq w.current)
      unfolding book send_booking_event
      booked = ground (arith, checked, s.price_fits, s.announced)

      served : (b : Booking) × (w' : World R) × (call ≡ (ok b, w'))
      served =
          let got =
            ap (λ p. p.1)
              (acquire_lock-free R w.redis (lock_key rq) token settings.redis_lock_timeout
                s.lock_free) in
          let run =
            create_booking-locked settings D R broker token user_id rq w s.hall s.user admitted
              got in
          (
            new_booking D user_id s.hall rq w.current,
            call.1,
            λ i. ((ap (λ p. p.0) run ∙ booked) i, call.1),
          )

    -- The answer depends on nothing else: with distinct seat ids in the table, a request is served
    -- with a booking exactly when the hall is active, the user exists, the slot is accepted, the
    -- seats are distinct active seats of the hall, no overlapping booking holds one of them, the
    -- lock is free, the price fits its column, and the broker takes the event.
    pub create_booking_iff : ((b : Booking) × (w' : World R) × (call ≡ (ok b, w'))) ↔ IsServable
    create_booking_iff = (λ (b, w', done). needed b w' done, served)
