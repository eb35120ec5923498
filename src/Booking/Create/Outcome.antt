-- ===== src/Booking/Create/Outcome.antt =====
-- How a call of `create_booking` can end, and what it has done then.
use booking_api_service.Common.{
  ℕ, String, List, [], ◌∷◌, ◌++◌, none, Bool, true, false, ◌≤◌, ◌≡◌, ap, sym, ◌∙◌, inl, inr, arith,
  Bool-cases,
}
use booking_api_service.Exceptions.{Error, Result, ok, err, text, booking_conflict}
use booking_api_service.Exceptions.Results.{Result-cases}
use booking_api_service.Settings.{Settings}
use booking_api_service.Model.{User, Hall, Seat, Booking, max_money}
use booking_api_service.Schemas.{BookingCreate}
use booking_api_service.Session.{Database, Session}
use booking_api_service.Kafka.{Broker, send_booking_event}
use booking_api_service.Redis.{Redis, Key}
use booking_api_service.Redis.Lock.{
  acquire_lock, release_lock, acquired, not_acquired, get-release_lock-acquire_lock,
}
use booking_api_service.Booking.Conflicts.{check_seat_conflicts}
use booking_api_service.Booking.Conflicts.Free.{check_seat_conflicts-ok}
use booking_api_service.Booking.Create.{
  World, admit, new_booking, insert_booking, lock_key, created_event, book, release, create_booking,
}

module _ (settings : Settings) (D : Database) (R : Redis) (broker : Broker) where
  module _ (user_id : ℕ) (hall : Hall) (user : User) (rq : BookingCreate) (w : World R) where
    book-redis : (book settings D R broker user_id hall user rq w).1.redis ≡ w.redis
    unfolding book send_booking_event
    book-redis = ground arith

    book-committed : (book settings D R broker user_id hall user rq w).1.committed ≡ w.committed
    unfolding book send_booking_event
    book-committed = ground arith

    abbrev draft : Booking
    draft = new_booking D user_id hall rq w.current

    -- What the body of the `try` has done when it returns.
    record Books (b : Booking) (w' : World R) : Type 0 where
      pub row : b ≡ draft
      pub price_fits : draft.total_price ≤ max_money
      pub no_conflict :
          check_seat_conflicts w.current rq.hall_id rq.seat_ids rq.start_time rq.end_time none
          ≡ ok []
      pub announced : broker (created_event user_id hall user draft) ≡ true
      pub current : w'.current ≡ insert_booking D draft rq.seat_ids w.current
      pub committed : w'.committed ≡ w.committed
      pub topic : w'.topic ≡ w.topic ++ created_event user_id hall user draft ∷ []

    abbrev checked : Result (List Seat)
    checked = check_seat_conflicts w.current rq.hall_id rq.seat_ids rq.start_time rq.end_time none

    book-Books :
        (b : Booking) (w' : World R)
        → book settings D R broker user_id hall user rq w ≡ (ok b, w')
        → Books b w'
    unfolding book send_booking_event
    book-Books b w' h = elim (Result-cases checked) [
      | inr (e, c) ↦ ground arith
      | inl (xs, c) ↦ ground (
        arith,
        check_seat_conflicts-ok w.current rq.hall_id rq.seat_ids rq.start_time rq.end_time none xs
            c,
      )
    ]

  module _ (token : String) (user_id : ℕ) (rq : BookingCreate) (w : World R) where
    abbrev admitted : Result (Hall × User)
    admitted = admit settings user_id rq w.current

    abbrev lock_call : R.Store × Bool
    lock_call = acquire_lock R w.redis (lock_key rq) token settings.redis_lock_timeout

    -- The state in which the body of the `try` runs.
    abbrev locked : World R
    locked = record w { redis = lock_call.0 }

    create_booking-refused :
        (e : Error)
        → admitted ≡ err e
        → create_booking settings D R broker token user_id rq w ≡ (err e, w)
    unfolding create_booking
    create_booking-refused e h = rw h

    create_booking-busy :
        (hall : Hall) (user : User)
        → admitted ≡ ok (hall, user)
        → lock_call.1 ≡ false
        → create_booking settings D R broker token user_id rq w
          ≡ (err (booking_conflict (text "Another booking in progress for this time slot")), locked)
    unfolding create_booking
    create_booking-busy hall user h busy = rw h (rw busy)

    pub create_booking-locked :
        (hall : Hall) (user : User)
        → admitted ≡ ok (hall, user)
        → lock_call.1 ≡ true
        → create_booking settings D R broker token user_id rq w ≡ (
            let (r, w') = book settings D R broker user_id hall user rq locked in
            (r, release settings D R broker (lock_key rq) token w'))
    unfolding create_booking
    create_booking-locked hall user h got = rw h (rw got)

    -- Whatever the outcome, an exception included, every key of Redis reads after the call as it
    -- did before it: the lock is released, and nothing else was touched. (No key expires meanwhile.)
    pub redis-create_booking :
        (key : Key)
        → R.get (create_booking settings D R broker token user_id rq w).1.redis key
          ≡ R.get w.redis key
    redis-create_booking key = elim (Result-cases admitted) [
      | inr (e, h) ↦ rw (create_booking-refused e h)
      | inl ((hall, user), h) ↦ elim (Bool-cases lock_call.1) [
        | inr busy ↦ rw (create_booking-busy hall user h busy) (
            ap (λ s. R.get s key)
              (not_acquired R w.redis lock_call.0 (lock_key rq) token settings.redis_lock_timeout
                (λ i. (lock_call.0, busy i))))
        | inl got ↦ rw (create_booking-locked hall user h got) (
            unfold release in
            ap (λ s. R.get (release_lock R s (lock_key rq) token).0 key)
              (book-redis user_id hall user rq locked)
            ∙ get-release_lock-acquire_lock R w.redis lock_call.0 (lock_key rq) key token
                settings.redis_lock_timeout (λ i. (lock_call.0, got i)))
      ]
    ]

    -- The call commits nothing, whatever the outcome.
    pub committed-create_booking :
        (create_booking settings D R broker token user_id rq w).1.committed ≡ w.committed
    committed-create_booking = elim (Result-cases admitted) [
      | inr (e, h) ↦ rw (create_booking-refused e h)
      | inl ((hall, user), h) ↦ elim (Bool-cases lock_call.1) [
        | inr busy ↦ rw (create_booking-busy hall user h busy)
        | inl got ↦
            rw (create_booking-locked hall user h got)
              (unfold release in book-committed user_id hall user rq locked)
      ]
    ]

    -- What a successful call has done.
    pub record Inserts (b : Booking) (w' : World R) : Type 0 where
      pub hall : Hall
      pub user : User
      pub was_admitted : admit settings user_id rq w.current ≡ ok (hall, user)
      pub lock_was_free : R.get w.redis (lock_key rq) ≡ none
      pub row : b ≡ new_booking D user_id hall rq w.current
      pub price_fits : b.total_price ≤ max_money
      pub announced : broker (created_event user_id hall user b) ≡ true
      pub current : w'.current ≡ insert_booking D b rq.seat_ids w.current
      pub committed : w'.committed ≡ w.committed
      pub topic : w'.topic ≡ w.topic ++ created_event user_id hall user b ∷ []

    abbrev under_lock : Hall → User → Result Booking × World R
    under_lock hall user = book settings D R broker user_id hall user rq locked

    locked-Inserts :
        (hall : Hall) (user : User) (b : Booking) (w' : World R)
        → admitted ≡ ok (hall, user)
        → R.get w.redis (lock_key rq) ≡ none
        → Books user_id hall user rq locked b (under_lock hall user).1
        → w'.session ≡ (under_lock hall user).1.session
        → w'.topic ≡ (under_lock hall user).1.topic
        → Inserts b w'
    locked-Inserts hall user b w' h free k same_session same_topic = record {
      hall = hall;
      user = user;
      was_admitted = h;
      lock_was_free = free;
      row = k.row;
      price_fits = rw k.row k.price_fits;
      announced = rw k.row k.announced;
      current =
          ap (λ (s : Session). s.current) same_session
          ∙ k.current
          ∙ ap (λ x. insert_booking D x rq.seat_ids w.current) (sym k.row);
      committed = ap (λ (s : Session). s.committed) same_session ∙ k.committed;
      topic =
          same_topic
          ∙ k.topic
          ∙ ap (λ x. w.topic ++ created_event user_id hall user x ∷ []) (sym k.row);
    }

    -- A call that returns a booking was admitted and got the lock, and then ran `insert_booking`.
    pub create_booking-Inserts :
        (b : Booking) (w' : World R)
        → create_booking settings D R broker token user_id rq w ≡ (ok b, w')
        → Inserts b w'
    create_booking-Inserts b w' done = elim (Result-cases admitted) [
      | inr (e, h) ↦ cc (done, create_booking-refused e h)
      | inl ((hall, user), h) ↦ elim (Bool-cases lock_call.1) [
        | inr busy ↦ cc (done, create_booking-busy hall user h busy)
        | inl got ↦
            let e = sym (create_booking-locked hall user h got) ∙ done in
            locked-Inserts hall user b w' h
              (acquired R w.redis lock_call.0 (lock_key rq) token settings.redis_lock_timeout
                (λ i. (lock_call.0, got i))).0
              (book-Books user_id hall user rq locked b (under_lock hall user).1
                (λ i. ((e i).0, (under_lock hall user).1)))
              (unfold release in λ i. (sym e i).1.session)
              (unfold release in λ i. (sym e i).1.topic)
      ]
    ]
