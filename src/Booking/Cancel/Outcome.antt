-- ===== src/Booking/Cancel/Outcome.antt =====
-- What a call of `cancel_booking` that returns a booking has done, row by row.
use booking_api_service.Common.{
  ℕ, List, [], ◌∷◌, ◌++◌, some, ◌≡◌, ◌≢◌, ◌↔◌, ◌⊎◌, refl, ap, sym, ◌∙◌, subst, inl, inr, arith,
  ◌==◌, ==_iff, find, find_updated, update_where, In, In-update_where, Bool-cases,
}
use booking_api_service.Exceptions.{ok}
use booking_api_service.Model.{User, Hall, Booking, Db, confirmed, cancelled}
use booking_api_service.Kafka.{Cancelled, Broker, booking_cancelled}
use booking_api_service.Redis.{Redis}
use booking_api_service.Booking.Create.{World}
use booking_api_service.Booking.Cancel.{
  booking_with, as_cancelled, mark_cancelled, cancelled_event, cancel_booking,
}
use booking_api_service.Booking.Cancel.Effects.{ids-mark_cancelled, cancel_booking-Marks}
use booking_api_service.Booking.Cancel.Frees.{In-update_where_other}
use booking_api_service.Booking.Exclusive.{booking_ids}

-- The bookings of an id have the status "cancelled", and nothing else has changed.
pub record IsMarked (id : ℕ) (db db' : Db) : Type 0 where
  pub users : db'.users ≡ db.users
  pub halls : db'.halls ≡ db.halls
  pub seats : db'.seats ≡ db.seats
  pub booking_seats : db'.booking_seats ≡ db.booking_seats
  pub ids : booking_ids db' ≡ booking_ids db
  pub bookings :
      (b : Booking)
      → In b db'.bookings ↔ (
          (In b db.bookings × (b.id ≢ id))
          ⊎ ((x : Booking) × In x db.bookings
              × (x.id ≡ id)
              × (b ≡ record x { status = cancelled })))

In-updated :
    (id : ℕ) (x : Booking) (bs : List Booking)
    → In x bs
    → x.id ≡ id
    → In (record x { status = cancelled }) (update_where (λ b. b.id == id) as_cancelled bs)
In-updated id x [] m e = elim m [ ]
In-updated id x (y ∷ bs) (inl q) e = inl (
    ap (λ (z : Booking). record z { status = cancelled }) q
    ∙ rw ((==_iff y.id id).1 (ap (λ (z : Booking). z.id) (sym q) ∙ e)) refl)
In-updated id x (y ∷ bs) (inr i) e = inr (In-updated id x bs i e)

mark_cancelled-IsMarked : (id : ℕ) (db : Db) → IsMarked id db (mark_cancelled id db)
unfolding mark_cancelled
mark_cancelled-IsMarked id db = record {
  users = refl;
  halls = refl;
  seats = refl;
  booking_seats = refl;
  ids = ids-mark_cancelled id db;
  bookings = λ b. (
    λ m.
        let (y, i, e) = In-update_where (λ b. b.id == id) as_cancelled b db.bookings m in
        elim (Bool-cases (y.id == id)) [
          | inl q ↦ let k : b ≡ as_cancelled y = rw q at e in inr (y, i, (==_iff _ _).0 q, k)
          | inr q ↦
              let k : b ≡ y = rw q at e in
              inl (subst (λ z. In z db.bookings) (sym k) i, λ z. ground arith)
        ],
    λ m. elim m [
      | inl (i, ne) ↦ In-update_where_other id b db.bookings i ne
      | inr (x, i, e, k) ↦
          subst (λ z. In z (update_where (λ b. b.id == id) as_cancelled db.bookings)) (sym k)
            (In-updated id x db.bookings i e)
    ],
  );
}

-- The event names the booking, its user and its hall.
pub record IsAnnounced (booking : Booking) (db : Db) (e : Cancelled) : Type 0 where
  pub booking_id : e.booking_id ≡ booking.id
  pub user_id : e.user_id ≡ booking.user_id
  pub user_email :
      (u : User) → find (λ x. x.id == booking.user_id) db.users ≡ some u → e.user_email ≡ u.email
  pub hall_name :
      (h : Hall) → find (λ x. x.id == booking.hall_id) db.halls ≡ some h → e.hall_name ≡ h.name

cancelled_event-IsAnnounced :
    (booking : Booking) (db : Db) (user_id : ℕ)
    → booking.user_id ≡ user_id
    → (e : Cancelled) × (cancelled_event user_id booking db ≡ booking_cancelled e)
      × IsAnnounced booking db e
unfolding cancelled_event
cancelled_event-IsAnnounced booking db user_id own = (
  _,
  refl,
  record {
    booking_id = refl;
    user_id = sym own;
    user_email = λ u f. rw f refl;
    hall_name = λ h f. rw f refl;
  },
)

module _ {R : Redis} (broker : Broker) (booking_id user_id : ℕ) (w : World R) where
  pub record IsCancelled (b : Booking) (w' : World R) : Type 0 where
    pub booking : Booking
    pub found : booking_with booking_id w.current ≡ some booking
    pub owned : booking.user_id ≡ user_id
    pub was_confirmed : booking.status ≡ confirmed
    pub returned : b ≡ record booking { status = cancelled }
    pub reads_so : booking_with booking_id w'.current ≡ some (record booking { status = cancelled })
    pub current : IsMarked booking_id w.current w'.current
    pub committed : w'.committed ≡ w.committed
    pub redis : w'.redis ≡ w.redis
    pub event : Cancelled
    pub announced : IsAnnounced booking w.current event
    pub topic : w'.topic ≡ w.topic ++ booking_cancelled event ∷ []

  -- A call of `cancel_booking` that returns a booking found it, confirmed and of the caller. It has
  -- changed the status of that id to "cancelled" in the session, and no other row or field; it has
  -- committed nothing, left Redis alone, and published one event, which names the booking, its user
  -- and its hall.
  pub cancel_booking-IsCancelled :
      (b : Booking) (w' : World R)
      → cancel_booking broker booking_id user_id w ≡ (ok b, w')
      → IsCancelled b w'
  cancel_booking-IsCancelled b w' done =
      let k = cancel_booking-Marks broker booking_id user_id w b w' done in
      let (e, is_event, told) = cancelled_event-IsAnnounced k.booking w.current user_id k.owned in
      record {
        booking = k.booking;
        found = k.found;
        owned = k.owned;
        was_confirmed = k.was_confirmed;
        returned = k.returned;
        reads_so = rw k.current (
            unfold mark_cancelled in
            find_updated (λ (x : Booking). x.id) as_cancelled (λ x. refl) booking_id
              w.current.bookings k.found);
        current = rw k.current (mark_cancelled-IsMarked booking_id w.current);
        committed = k.committed;
        redis = k.redis;
        event = e;
        announced = told;
        topic = k.topic ∙ ap (λ x. w.topic ++ x ∷ []) is_event;
      }
