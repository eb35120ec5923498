-- ===== src/Booking/Cancel/Effects.antt =====
-- How a call of `cancel_booking` can end, and what it has done then.
use booking_api_service.Common.{
  ℕ, List, [], ◌∷◌, ◌++◌, map, some, ◌≡◌, ◌≢◌, refl, ap, sym, ◌∙◌, inl, inr, arith, ◌==◌, ==_ne, In,
  In-update_where, Bool-cases, Option-cases, update_where, subst,
}
use booking_api_service.Exceptions.{ok, err, default_booking_not_found}
use booking_api_service.Model.{Booking, Db, confirmed}
use booking_api_service.Kafka.{Broker, send_booking_event}
use booking_api_service.Redis.{Redis}
use booking_api_service.Booking.Create.{World, publish}
use booking_api_service.Booking.Cancel.{
  booking_with, cancelled_event, as_cancelled, mark_cancelled, cancel_booking,
}
use booking_api_service.Booking.Exclusive.{IsConsistent, booking_ids}

pub ids-mark_cancelled : (id : ℕ) (db : Db) → booking_ids (mark_cancelled id db) ≡ booking_ids db
unfolding mark_cancelled
ids-mark_cancelled id db = go db.bookings
  where
    go :
        (bs : List Booking)
        → map (λ (b : Booking). b.id) (update_where (λ b. b.id == id) as_cancelled bs)
          ≡ map (λ (b : Booking). b.id) bs
    go [] = refl
    go (b ∷ bs) = ground (arith, go bs)

-- A confirmed booking of the table after the cancellation was there before it.
pub confirmed_before :
    (id : ℕ) (db : Db) (b : Booking)
    → In b (mark_cancelled id db).bookings
    → b.status ≡ confirmed
    → In b db.bookings × (b.id ≢ id)
unfolding mark_cancelled
confirmed_before id db b m c =
    let (y, i, e) = In-update_where (λ b. b.id == id) as_cancelled b db.bookings m in
    elim (Bool-cases (y.id == id)) [
      | inl q ↦
          let k : b ≡ as_cancelled y = rw q at e in
          absurd (cc (sym c ∙ ap (λ (x : Booking). x.status) k))
      | inr q ↦
          let k : b ≡ y = rw q at e in (subst (λ x. In x db.bookings) (sym k) i, λ z. ground arith)
    ]

-- Marking a booking as cancelled keeps the invariant.
pub mark_cancelled-IsConsistent :
    (id : ℕ) (db : Db) → IsConsistent db → IsConsistent (mark_cancelled id db)
mark_cancelled-IsConsistent id db valid = record {
  ids_unique = rw ids-mark_cancelled valid.ids_unique;
  rows_refer = λ r m. rw ids-mark_cancelled (valid.rows_refer r (unfold mark_cancelled in m));
  exclusive = λ a b r s i j k l ca cb h o e f same.
      valid.exclusive a b r s (confirmed_before id db a i ca).0 (confirmed_before id db b j cb).0
        (unfold mark_cancelled in k) (unfold mark_cancelled in l) ca cb h o e f same;
}

module _ {R : Redis} (broker : Broker) (booking_id user_id : ℕ) (w : World R) where
  -- What a successful call has done.
  pub record Marks (b : Booking) (w' : World R) : Type 0 where
    pub booking : Booking
    pub found : booking_with booking_id w.current ≡ some booking
    pub owned : booking.user_id ≡ user_id
    pub was_confirmed : booking.status ≡ confirmed
    pub returned : b ≡ as_cancelled booking
    pub current : w'.current ≡ mark_cancelled booking_id w.current
    pub committed : w'.committed ≡ w.committed
    pub redis : w'.redis ≡ w.redis
    pub topic : w'.topic ≡ w.topic ++ cancelled_event user_id booking w.current ∷ []

  -- A call that returns a booking found it, confirmed and of the caller, and ran `mark_cancelled`.
  pub cancel_booking-Marks :
      (b : Booking) (w' : World R)
      → cancel_booking broker booking_id user_id w ≡ (ok b, w')
      → Marks b w'
  unfolding cancel_booking publish send_booking_event
  cancel_booking-Marks b w' done = elim (Option-cases (booking_with booking_id w.current)) [
    | inl missing ↦ ground arith
    | inr (booking, e) ↦ record {
      booking = booking;
      found = e;
      owned = ground arith;
      was_confirmed = ground arith;
      returned = ground arith;
      current = ground arith;
      committed = ground arith;
      redis = ground arith;
      topic = ground arith;
    }
  ]

  -- The call commits nothing, whatever the outcome.
  pub committed-cancel_booking :
      (cancel_booking broker booking_id user_id w).1.committed ≡ w.committed
  unfolding cancel_booking publish send_booking_event
  committed-cancel_booking = ground arith

  -- If there is no booking of that id, or it is another user's, the call answers "Booking not
  -- found" in the same words and changes nothing: the two cannot be told apart.
  pub cancel_booking_hides_foreign :
      ((b : Booking) → booking_with booking_id w.current ≡ some b → b.user_id ≢ user_id)
      → cancel_booking broker booking_id user_id w ≡ (err default_booking_not_found, w)
  unfolding cancel_booking
  cancel_booking_hides_foreign foreign = elim (Option-cases (booking_with booking_id w.current)) [
    | inl missing ↦ rw missing
    | inr (b, e) ↦ rw (e, ==_ne b.user_id user_id (foreign b e))
  ]
