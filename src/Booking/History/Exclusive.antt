-- ===== src/Booking/History/Exclusive.antt =====
-- No history of requests served one after another sells a seat twice.
use booking_api_service.Common.{List, [], ◌∷◌, ◌≡◌, refl, ap, sym, ◌∙◌, inl, inr, IsUnique}
use booking_api_service.Exceptions.{Error, ok, err}
use booking_api_service.Exceptions.Results.{Result-cases}
use booking_api_service.Settings.{Settings}
use booking_api_service.Model.{Booking, Db}
use booking_api_service.Redis.{Redis}
use booking_api_service.Booking.Seats.Exist.{seat_ids_of}
use booking_api_service.Booking.Create.{World, with_world, insert_booking}
use booking_api_service.Booking.Create.Outcome.{create_booking-Inserts, committed-create_booking}
use booking_api_service.Booking.Create.Safe.{create_booking-IsConsistent}
use booking_api_service.Booking.Cancel.{mark_cancelled}
use booking_api_service.Booking.Cancel.Effects.{
  cancel_booking-Marks, committed-cancel_booking, mark_cancelled-IsConsistent,
}
use booking_api_service.Booking.Exclusive.{IsConsistent}
use booking_api_service.Booking.History.{Call, create, cancel, perform, serve}

-- Between requests: nothing is uncommitted, the bookings are consistent, the seat ids distinct.
pub record IsQuiet {R : Redis} (w : World R) : Type 0 where
  pub settled : w.current ≡ w.committed
  pub consistent : IsConsistent w.committed
  pub seat_ids_unique : IsUnique (seat_ids_of w.committed.seats)

module _ (settings : Settings) {R : Redis} where
  -- What a call that returns leaves in its session.
  record Keeps (w w' : World R) : Type 0 where
    pub consistent : IsConsistent w'.current
    pub seats : w'.current.seats ≡ w.current.seats

  perform-Keeps :
      (call : Call) (w : World R)
      → IsConsistent w.current
      → IsUnique (seat_ids_of w.current.seats)
      → (b : Booking) (w' : World R) → perform settings call w ≡ (ok b, w')
      → Keeps w w'
  unfolding perform
  perform-Keeps (create D broker token user_id rq) w valid unique b w' done = record {
    consistent =
        create_booking-IsConsistent settings D R broker token user_id rq w b w' valid unique done;
    seats =
        unfold insert_booking in
        ap (λ (db : Db). db.seats)
          (create_booking-Inserts settings D R broker token user_id rq w b w' done).current;
  }
  perform-Keeps (cancel broker booking_id user_id) w valid unique b w' done =
      let k = cancel_booking-Marks broker booking_id user_id w b w' done in
      record {
        consistent = rw k.current (mark_cancelled-IsConsistent booking_id w.current valid);
        seats = unfold mark_cancelled in ap (λ (db : Db). db.seats) k.current;
      }

  perform-committed :
      (call : Call) (w : World R) → (perform settings call w).1.committed ≡ w.committed
  unfolding perform
  perform-committed (create D broker token user_id rq) w =
      committed-create_booking settings D R broker token user_id rq w
  perform-committed (cancel broker booking_id user_id) w =
      committed-cancel_booking broker booking_id user_id w

  -- A request that fails leaves the tables as they were before it, with nothing uncommitted.
  pub with_world_failed :
      (call : Call) (w : World R) (e : Error)
      → (perform settings call w).0 ≡ err e
      → ((with_world (perform settings call) w).1.committed ≡ w.committed)
        × ((with_world (perform settings call) w).1.current ≡ w.committed)
  unfolding with_world
  with_world_failed call w e failed = rw failed (perform-committed call w, perform-committed call w)

  pub with_world-IsQuiet :
      (call : Call) (w : World R) → IsQuiet w → IsQuiet (with_world (perform settings call) w).1
  with_world-IsQuiet call w q = elim (Result-cases (perform settings call w).0) [
    | inr (e, failed) ↦
        let (same, back) = with_world_failed call w e failed in
        record {
          settled = back ∙ sym same;
          consistent = rw same q.consistent;
          seat_ids_unique = rw same q.seat_ids_unique;
        }
    | inl (b, done) ↦
        let w' = (perform settings call w).1 in
        let k =
          perform-Keeps call w (rw q.settled q.consistent) (rw q.settled q.seat_ids_unique) b w'
            (λ i. (done i, w')) in
        unfold with_world in
        rw done (record {
          settled = refl;
          consistent = k.consistent;
          seat_ids_unique = rw (k.seats ∙ ap (λ (db : Db). db.seats) q.settled) q.seat_ids_unique;
        })
  ]

  -- However many requests are served one after another, successful or not: if it was so at the
  -- start, then at the end nothing is uncommitted and no two confirmed bookings of one hall that
  -- overlap hold the same seat.
  pub serve-IsQuiet :
      (calls : List Call) (w : World R) → IsQuiet w → IsQuiet (serve settings calls w)
  unfolding serve
  serve-IsQuiet [] w q = q
  serve-IsQuiet (call ∷ calls) w q =
      serve-IsQuiet calls (with_world (perform settings call) w).1 (with_world-IsQuiet call w q)
