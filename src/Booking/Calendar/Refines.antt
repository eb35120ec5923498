-- ===== src/Booking/Calendar/Refines.antt =====
-- The service does what the calendar promises.
use booking_api_service.Common.{
  ℕ, String, List, [], ◌∷◌, ◌≡◌, none, refl, subst, inl, inr, IsUnique,
}
use booking_api_service.Exceptions.{ok}
use booking_api_service.Exceptions.Results.{Result-cases}
use booking_api_service.Settings.{Settings}
use booking_api_service.Datetime.{instant}
use booking_api_service.Model.{Booking}
use booking_api_service.Schemas.{BookingCreate}
use booking_api_service.Session.{Database}
use booking_api_service.Kafka.{Broker}
use booking_api_service.Redis.{Redis}
use booking_api_service.Booking.Seats.Exist.{seat_ids_of, validate_seats_exist_iff}
use booking_api_service.Booking.Conflicts.Free.{check_seat_conflicts_iff}
use booking_api_service.Booking.Create.{World, with_world, new_booking, create_booking}
use booking_api_service.Booking.Create.Outcome.{create_booking-Inserts}
use booking_api_service.Booking.Create.Safe.{admit-IsAdmitted}
use booking_api_service.Booking.Cancel.Effects.{cancel_booking-Marks}
use booking_api_service.Booking.Exclusive.{IsConsistent, booking_ids}
use booking_api_service.Booking.History.{Call, create, cancel, perform, serve}
use booking_api_service.Booking.History.Exclusive.{IsQuiet, with_world_failed, with_world-IsQuiet}
use booking_api_service.Booking.Calendar.{
  Reserved, Answers, refused, reserved, released, Follows, done, next, IsExclusive,
  Follows-IsExclusive,
}
use booking_api_service.Booking.Calendar.Held.{
  Holds, insert_booking-Reserved, mark_cancelled-Released,
}

module _ (settings : Settings) {R : Redis} where
  create-Reserved :
      (D : Database) (broker : Broker) (token : String) (user_id : ℕ) (rq : BookingCreate)
      (w : World R)
      → IsConsistent w.current
      → IsUnique (seat_ids_of w.current.seats)
      → (b : Booking) (w' : World R)
      → create_booking settings D R broker token user_id rq w ≡ (ok b, w')
      → (id : ℕ) × Reserved
          (Holds w.current)
          (Holds w'.current)
          rq.hall_id
          rq.seat_ids
          (instant rq.start_time)
          (instant rq.end_time)
          id
  create-Reserved D broker token user_id rq w valid unique b w' d =
      let k = create_booking-Inserts settings D R broker token user_id rq w b w' d in
      let a = admit-IsAdmitted settings user_id rq w.current k.hall k.user k.was_admitted in
      let seats =
        ((validate_seats_exist_iff w.current rq.hall_id rq.seat_ids unique).0 a.seats_found).1 in
      let new = new_booking D user_id k.hall rq w.current in
      (
        new.id,
        rw (k.current, k.row)
            (unfold new_booking in
              insert_booking-Reserved D w.current new rq.seat_ids valid
                (D.next_id-fresh (booking_ids w.current))
                (λ id m. let (s, i, e, h, act) = seats id m in (s, i, e))
                ((check_seat_conflicts_iff w.current rq.hall_id rq.seat_ids rq.start_time
                    rq.end_time none).0
                  a.no_conflict)
                refl),
      )

  perform-Answers :
      (call : Call) (w : World R)
      → IsConsistent w.current
      → IsUnique (seat_ids_of w.current.seats)
      → (b : Booking) (w' : World R) → perform settings call w ≡ (ok b, w')
      → Answers call (Holds w.current) (Holds w'.current)
  unfolding perform
  perform-Answers (create D broker token user_id rq) w valid unique b w' d =
      let (id, r) = create-Reserved D broker token user_id rq w valid unique b w' d in reserved id r
  perform-Answers (cancel broker booking_id user_id) w valid unique b w' d =
      let k = cancel_booking-Marks broker booking_id user_id w b w' d in
      released (rw k.current (mark_cancelled-Released booking_id w.current))

  with_world-Answers :
      (call : Call) (w : World R)
      → IsQuiet w
      → Answers call (Holds w.committed) (Holds (with_world (perform settings call) w).1.committed)
  with_world-Answers call w q = elim (Result-cases (perform settings call w).0) [
    | inr (e, failed) ↦
        let same = (with_world_failed settings call w e failed).0 in
        refused (λ h seat time i. rw same (λ k. k, λ k. k))
    | inl (b, d) ↦
        let w' = (perform settings call w).1 in
        let a =
          perform-Answers call w (rw q.settled q.consistent) (rw q.settled q.seat_ids_unique) b w'
            (λ i. (d i, w')) in
        unfold with_world in
        rw d (subst (λ db. Answers call (Holds db) (Holds w'.current)) q.settled a)
  ]

  -- However many requests are served one after another from tables in good order: the calendar that
  -- the committed tables stand for changes only as it was asked to. A request to book either fills
  -- its own cells, all of which were nobody's, under an id that the calendar did not know, or changes
  -- nothing; a request to cancel either clears the cells of its booking and no others, or changes
  -- nothing.
  pub serve_refines :
      (calls : List Call) (w : World R)
      → IsQuiet w
      → Follows calls (Holds w.committed) (Holds (serve settings calls w).committed)
  unfolding serve
  serve_refines [] w q = done
  serve_refines (call ∷ calls) w q = next (with_world-Answers call w q) (
      serve_refines calls (with_world (perform settings call) w).1
        (with_world-IsQuiet settings call w q))

  -- If no seat has two holders at one instant, then none has after the requests.
  pub serve-IsExclusive :
      (calls : List Call) (w : World R)
      → IsQuiet w
      → IsExclusive (Holds w.committed)
      → IsExclusive (Holds (serve settings calls w).committed)
  serve-IsExclusive calls w q = Follows-IsExclusive (serve_refines calls w q)
