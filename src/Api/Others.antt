-- ===== src/Api/Others.antt =====
-- Changes of the tables that leave the bookings of other users alone.
use booking_api_service.Common.{
  ℕ, some, List, [], ◌∷◌, map, ◌==◌, ==_iff, ◌≡◌, ◌≢◌, refl, ap, sym, ◌∙◌, inl, inr, subst, find,
  contains, IsUnique, In, In-append, In-append_left, In-append_right, ◌⊎◌, In-map, In-contains,
  In-update_where, arith, Bool-cases,
}
use booking_api_service.Model.{Booking, BookingSeat, Db}
use booking_api_service.Session.{Database}
use booking_api_service.Booking.Create.{insert_booking}
use booking_api_service.Booking.Cancel.{booking_with, as_cancelled, mark_cancelled}
use booking_api_service.Booking.Cancel.Frees.{In-update_where_other}
use booking_api_service.Booking.Exclusive.{
  booking_ids, In-add_booking_seats, In-add_booking_seats_old,
}

-- Between the two states of the tables, nothing has changed but bookings of the user: the other
-- tables are the same, no booking of another user came, went or was changed, and no seat of a
-- booking was given up.
pub record KeepsOthers (user_id : ℕ) (db db' : Db) : Type 0 where
  pub users : db'.users ≡ db.users
  pub halls : db'.halls ≡ db.halls
  pub seats : db'.seats ≡ db.seats
  pub others_stay : (b : Booking) → In b db.bookings → b.user_id ≢ user_id → In b db'.bookings
  pub others_were : (b : Booking) → In b db'.bookings → b.user_id ≢ user_id → In b db.bookings
  pub rows_stay : (r : BookingSeat) → In r db.booking_seats → In r db'.booking_seats
  -- A seat is added to a booking of the user only.
  pub rows_are_own :
      (r : BookingSeat)
      → In r db'.booking_seats
      → In r db.booking_seats
        ⊎ ((b : Booking) × In b db'.bookings × (r.booking_id ≡ b.id) × (b.user_id ≡ user_id))

pub unchanged : (user_id : ℕ) (db : Db) → KeepsOthers user_id db db
unchanged user_id db = record {
  users = refl;
  halls = refl;
  seats = refl;
  others_stay = λ b m ne. m;
  others_were = λ b m ne. m;
  rows_stay = λ r m. m;
  rows_are_own = λ r m. inl m;
}

pub insertion-KeepsOthers :
    (D : Database) (b : Booking) (seat_ids : List ℕ) (db : Db)
    → KeepsOthers b.user_id db (insert_booking D b seat_ids db)
unfolding insert_booking
insertion-KeepsOthers D b seat_ids db = record {
  users = refl;
  halls = refl;
  seats = refl;
  others_stay = λ x m ne. In-append_left x db.bookings (b ∷ []) m;
  others_were = λ x m ne. elim (In-append x db.bookings (b ∷ []) m) [
    | inl old ↦ old
    | inr (inl e) ↦ absurd (ne (ap (λ (y : Booking). y.user_id) e))
    | inr (inr z) ↦ elim z [ ]
  ];
  rows_stay = λ r m. In-add_booking_seats_old D b.id r seat_ids db.booking_seats m;
  rows_are_own = λ r m. elim (In-add_booking_seats D b.id r seat_ids db.booking_seats m) [
    | inl old ↦ inl old
    | inr (e, c) ↦ inr (b, In-append_right b db.bookings (b ∷ []) (inl refl), e, refl)
  ];
}

-- Where ids are unique, the row that is found under an id is the only one.
only_one :
    (id : ℕ) (bs : List Booking) (x b : Booking)
    → IsUnique (map (λ (y : Booking). y.id) bs)
    → find (λ y. y.id == id) bs ≡ some x
    → In b bs
    → b.id ≡ id
    → b ≡ x
only_one id [] x b u f m e = elim m [ ]
only_one id (y ∷ bs) x b u f m e = elim (Bool-cases (y.id == id)) [
  | inl q ↦
      let first : y ≡ x = ground arith in
      elim m [
        | inl h ↦ h ∙ first
        | inr n ↦
            let again = In-contains b.id _ (In-map (λ (z : Booking). z.id) b bs n) in
            let same : b.id ≡ y.id = e ∙ sym ((==_iff y.id id).0 q) in
            let twice = ap (λ i. contains i (map (λ (z : Booking). z.id) bs)) (sym same) ∙ again in
            let once = u.0 in absurd (cc (twice, once))
      ]
  | inr q ↦ elim m [
    | inl h ↦ let same : y.id ≡ id = ap (λ (z : Booking). z.id) (sym h) ∙ e in absurd (ground arith)
    | inr n ↦ only_one id bs x b u.1 (ground arith) n e
  ]
]

pub cancellation-KeepsOthers :
    (id : ℕ) (x : Booking) (db : Db)
    → IsUnique (booking_ids db)
    → booking_with id db ≡ some x
    → KeepsOthers x.user_id db (mark_cancelled id db)
unfolding mark_cancelled
cancellation-KeepsOthers id x db unique found = record {
  users = refl;
  halls = refl;
  seats = refl;
  others_stay = λ b m ne.
      In-update_where_other id b db.bookings m
        (λ e. ne (ap (λ (y : Booking). y.user_id) (only_one id db.bookings x b unique found m e)));
  others_were = λ b m ne.
      let (y, i, e) = In-update_where (λ b. b.id == id) as_cancelled b db.bookings m in
      elim (Bool-cases (y.id == id)) [
        | inl q ↦
            let k : b ≡ as_cancelled y = rw q at e in
            absurd (
              ne (
                ap (λ (z : Booking). z.user_id) k
                ∙ ap (λ (z : Booking). z.user_id)
                    (only_one id db.bookings x y unique found i ((==_iff _ _).0 q))))
        | inr q ↦ let k : b ≡ y = rw q at e in subst (λ z. In z db.bookings) (sym k) i
      ];
  rows_stay = λ r m. m;
  rows_are_own = λ r m. inl m;
}
