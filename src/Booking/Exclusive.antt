-- ===== src/Booking/Exclusive.antt =====
-- The invariant of the bookings: no seat is sold twice for the same time.
use booking_api_service.Common.{
  ℕ, ◌<◌, ◌≡◌, refl, ap, sym, ◌∙◌, inl, inr, none, List, [], ◌∷◌, ◌++◌, map, true, false, arith,
  contains, In, In-append, IsUnique, IsUnique-snoc, Bool-cases, ==_iff, ◌==◌, In-append_left,
  In-append_right, contains-append, subst, In-map, In-contains, ◌⊎◌,
}
use mathlib.Core.List.{map-append}
use booking_api_service.Datetime.{instant}
use booking_api_service.Model.{Seat, Booking, BookingSeat, Db, confirmed}
use booking_api_service.Session.{Database}
use booking_api_service.Booking.Conflicts.Free.{IsFree}
use booking_api_service.Booking.Create.{add_booking_seats, insert_booking}

abbrev pub booking_ids : Db → List ℕ
booking_ids db = map (λ b. b.id) db.bookings

pub record IsOverlapping (a b : Booking) : Type 0 where
  pub starts_before_end : instant a.start_time < instant b.end_time
  pub ends_after_start : instant b.start_time < instant a.end_time

pub record IsConsistent (db : Db) : Type 0 where
  pub ids_unique : IsUnique (booking_ids db)
  pub rows_refer :
      (r : BookingSeat) → In r db.booking_seats → contains r.booking_id (booking_ids db) ≡ true
  -- Two confirmed bookings of one hall that overlap and hold the same seat are the same booking.
  pub exclusive :
      (a b : Booking) (r s : BookingSeat)
      → In a db.bookings
      → In b db.bookings
      → In r db.booking_seats
      → In s db.booking_seats
      → a.status ≡ confirmed
      → b.status ≡ confirmed
      → a.hall_id ≡ b.hall_id
      → IsOverlapping a b
      → r.booking_id ≡ a.id
      → s.booking_id ≡ b.id
      → r.seat_id ≡ s.seat_id
      → a.id ≡ b.id

module _ (D : Database) (booking_id : ℕ) where
  -- A row is an old one, or one of the new booking for a requested seat.
  pub In-add_booking_seats :
      (r : BookingSeat) (seat_ids : List ℕ) (rows : List BookingSeat)
      → In r (add_booking_seats D booking_id seat_ids rows)
      → In r rows ⊎ ((r.booking_id ≡ booking_id) × (contains r.seat_id seat_ids ≡ true))
  unfolding add_booking_seats
  In-add_booking_seats r [] rows m = inl m
  In-add_booking_seats r (id ∷ ids) rows m = elim (In-add_booking_seats r ids _ m) [
    | inr (e, c) ↦ inr (e, ground arith)
    | inl k ↦ elim (In-append r rows _ k) [
      | inl old ↦ inl old
      | inr (inl e) ↦ inr (
        ap (λ (x : BookingSeat). x.booking_id) e,
        let q : r.seat_id ≡ id = ap (λ (x : BookingSeat). x.seat_id) e in ground arith,
      )
      | inr (inr z) ↦ elim z [ ]
    ]
  ]

  -- The old rows stay, and each requested seat gets a row.
  pub In-add_booking_seats_old :
      (r : BookingSeat) (seat_ids : List ℕ) (rows : List BookingSeat)
      → In r rows
      → In r (add_booking_seats D booking_id seat_ids rows)
  unfolding add_booking_seats
  In-add_booking_seats_old r [] rows m = m
  In-add_booking_seats_old r (id ∷ ids) rows m =
      In-add_booking_seats_old r ids _ (In-append_left r rows _ m)

  pub In-add_booking_seats_new :
      (x : ℕ) (seat_ids : List ℕ) (rows : List BookingSeat)
      → contains x seat_ids ≡ true
      → (r : BookingSeat) × In r (add_booking_seats D booking_id seat_ids rows)
        × (r.booking_id ≡ booking_id)
        × (r.seat_id ≡ x)
  unfolding add_booking_seats
  In-add_booking_seats_new x [] rows m = cc
  In-add_booking_seats_new x (id ∷ ids) rows m = elim (Bool-cases (x == id)) [
    | inl e ↦ (
      record { id = D.next_id (map (λ r. r.id) rows); booking_id = booking_id; seat_id = id },
      In-add_booking_seats_old _ ids _ (In-append_right _ rows _ (inl refl)),
      refl,
      sym ((==_iff x id).0 e),
    )
    | inr e ↦ In-add_booking_seats_new x ids _ (ground arith)
  ]

module _ (D : Database) (db : Db) (new : Booking) (seat_ids : List ℕ) (valid : IsConsistent db)
    (fresh : contains new.id (booking_ids db) ≡ false)
    (known : (id : ℕ) → contains id seat_ids ≡ true → (s : Seat) × In s db.seats × (s.id ≡ id))
    (free : IsFree db new.hall_id seat_ids new.start_time new.end_time none) where
  abbrev pub after : Db
  after = insert_booking D new seat_ids db

  -- An old booking that holds a requested seat at the time of the new one is the rival that the
  -- check would have found.
  pub no_rival :
      (b : Booking) (r : BookingSeat)
      → In b db.bookings
      → In r db.booking_seats
      → b.status ≡ confirmed
      → b.hall_id ≡ new.hall_id
      → IsOverlapping b new
      → r.booking_id ≡ b.id
      → contains r.seat_id seat_ids ≡ true
      → ⊥
  no_rival b r i j c h o e m =
      let (s, k, q) = known r.seat_id m in
      free s r b k j i (ap (λ x. contains x seat_ids) q ∙ m) (sym q) (sym e) (record {
        same_hall = h;
        still_confirmed = c;
        starts_before_end = o.starts_before_end;
        ends_after_start = o.ends_after_start;
        not_excluded = refl;
      })

  pub old_id : (a : Booking) → In a db.bookings → contains a.id (booking_ids db) ≡ true
  old_id a i = In-contains a.id (booking_ids db) (In-map (λ (b : Booking). b.id) a db.bookings i)

  pub row_of_old :
      (a : Booking) (r : BookingSeat)
      → In a db.bookings
      → In r after.booking_seats
      → r.booking_id ≡ a.id
      → In r db.booking_seats
  unfolding insert_booking
  row_of_old a r i m e = elim (In-add_booking_seats D new.id r seat_ids db.booking_seats m) [
    | inl old ↦ old
    | inr (q, c) ↦ cc (old_id a i, fresh, ap (λ x. contains x (booking_ids db)) (sym e ∙ q))
  ]

  pub row_of_new :
      (r : BookingSeat)
      → In r after.booking_seats
      → r.booking_id ≡ new.id
      → contains r.seat_id seat_ids ≡ true
  unfolding insert_booking
  row_of_new r m e = elim (In-add_booking_seats D new.id r seat_ids db.booking_seats m) [
    | inr (q, c) ↦ c
    | inl old ↦ cc (valid.rows_refer r old, fresh, ap (λ x. contains x (booking_ids db)) e)
  ]

  pub old_or_new : (b : Booking) → In b after.bookings → In b db.bookings ⊎ (b ≡ new)
  unfolding insert_booking
  old_or_new b m = elim (In-append b db.bookings (new ∷ []) m) [
    | inl old ↦ inl old
    | inr (inl e) ↦ inr e
    | inr (inr z) ↦ elim z [ ]
  ]

  -- The case of an old booking and the new one.
  never_shared :
      (a b : Booking) (r s : BookingSeat)
      → In a db.bookings
      → b ≡ new
      → In r after.booking_seats
      → In s after.booking_seats
      → a.status ≡ confirmed
      → a.hall_id ≡ b.hall_id
      → IsOverlapping a b
      → r.booking_id ≡ a.id
      → s.booking_id ≡ b.id
      → r.seat_id ≡ s.seat_id
      → ⊥
  never_shared a b r s i is_new j k c h o e f same =
      no_rival a r i (row_of_old a r i j e) c (h ∙ ap (λ (x : Booking). x.hall_id) is_new)
        (subst (IsOverlapping a) is_new o) e
        (ap (λ x. contains x seat_ids) same
          ∙ row_of_new s k (f ∙ ap (λ (x : Booking). x.id) is_new))

  ids-insert_booking : booking_ids after ≡ booking_ids db ++ new.id ∷ []
  unfolding insert_booking
  ids-insert_booking = map-append (λ (b : Booking). b.id) db.bookings (new ∷ [])

  rows_refer_after :
      (r : BookingSeat)
      → In r after.booking_seats
      → contains r.booking_id (booking_ids db ++ new.id ∷ []) ≡ true
  unfolding insert_booking
  rows_refer_after r m =
      contains-append r.booking_id (booking_ids db) (new.id ∷ [])
      ∙ elim (In-add_booking_seats D new.id r seat_ids db.booking_seats m) [
        | inl old ↦ rw (valid.rows_refer r old)
        | inr (e, c) ↦ ground arith
      ]

  -- Adding the booking of a free slot keeps the invariant.
  pub insert_booking-IsConsistent : IsConsistent after
  insert_booking-IsConsistent = record {
    ids_unique =
        rw ids-insert_booking (IsUnique-snoc new.id (booking_ids db) valid.ids_unique fresh);
    rows_refer = λ r m. rw ids-insert_booking (rows_refer_after r m);
    exclusive = λ a b r s i j k l ca cb h o e f same. elim (old_or_new a i) [
      | inl old_a ↦ elim (old_or_new b j) [
        | inl old_b ↦
            valid.exclusive a b r s old_a old_b (row_of_old a r old_a k e)
              (row_of_old b s old_b l f) ca cb h o e f same
        | inr new_b ↦ absurd (never_shared a b r s old_a new_b k l ca h o e f same)
      ]
      | inr new_a ↦ elim (old_or_new b j) [
        | inl old_b ↦ absurd (
            never_shared b a s r old_b new_a l k cb (sym h)
              (record {
                starts_before_end = o.ends_after_start;
                ends_after_start = o.starts_before_end;
              })
              f e (sym same))
        | inr new_b ↦ ap (λ (x : Booking). x.id) (new_a ∙ sym new_b)
      ]
    ];
  }
