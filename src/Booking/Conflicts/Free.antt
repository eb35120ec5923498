-- ===== src/Booking/Conflicts/Free.antt =====
-- What it means that `check_seat_conflicts` finds no conflict.
use booking_api_service.Common.{
  ℕ, ◌<◌, ◌≡◌, refl, ap, sym, ◌↔◌, Option, List, [], ◌∷◌, true, false, arith, contains, In,
  In-select, In-select_intro, In-map, In-map_inv, In-flat_map, In-flat_map_intro, not-In-nil,
  ==_iff, subst,
}
use booking_api_service.Exceptions.{ok}
use booking_api_service.Datetime.{Datetime, instant}
use booking_api_service.Model.{Seat, Booking, BookingSeat, Db, confirmed}
use booking_api_service.Booking.Conflicts.{
  is_excluded, is_conflicting, conflicting_seats, refuse_conflicts, check_seat_conflicts,
}

-- A confirmed booking of the hall that overlaps the slot and is not the excluded one.
pub record IsRival (hall_id : ℕ) (start_time end_time : Datetime) (exclude : Option ℕ) (b : Booking)
    : Type 0 where
  pub same_hall : b.hall_id ≡ hall_id
  pub still_confirmed : b.status ≡ confirmed
  pub starts_before_end : instant b.start_time < instant end_time
  pub ends_after_start : instant start_time < instant b.end_time
  pub not_excluded : is_excluded exclude b.id ≡ false

conflicting_parts :
    (hall_id : ℕ) (start_time end_time : Datetime) (exclude : Option ℕ) (bs : BookingSeat)
    (b : Booking)
    → is_conflicting hall_id start_time end_time exclude bs b ≡ true
    → (b.id ≡ bs.booking_id) × IsRival hall_id start_time end_time exclude b
conflicting_parts hall_id start_time end_time exclude bs b h = ground arith

conflicting_intro :
    (hall_id : ℕ) (start_time end_time : Datetime) (exclude : Option ℕ) (bs : BookingSeat)
    (b : Booking)
    → b.id ≡ bs.booking_id
    → IsRival hall_id start_time end_time exclude b
    → is_conflicting hall_id start_time end_time exclude bs b ≡ true
conflicting_intro hall_id start_time end_time exclude bs b e r = ground arith

module _ (db : Db) (hall_id : ℕ) (seat_ids : List ℕ) (start_time end_time : Datetime)
    (exclude : Option ℕ) where
  -- No row of `booking_seats` joins a requested seat to a rival booking.
  abbrev pub IsFree : Type 0
  IsFree =
      (s : Seat) (bs : BookingSeat) (b : Booking)
      → In s db.seats
      → In bs db.booking_seats
      → In b db.bookings
      → contains s.id seat_ids ≡ true
      → bs.seat_id ≡ s.id
      → b.id ≡ bs.booking_id
      → IsRival hall_id start_time end_time exclude b
      → ⊥

  conflicts : List Seat
  unfolding conflicting_seats
  conflicts = conflicting_seats db hall_id seat_ids start_time end_time exclude

  free→no_conflict : IsFree → (x : Seat) → ¬ In x conflicts
  unfolding conflicts
  free→no_conflict free x m =
      let (s, i, k) = In-flat_map _ x _ m in
      let (bs, j, l) = In-flat_map _ x _ k in
      let (b, n, e) = In-map_inv _ x _ l in
      let p = In-select _ s db.seats i in
      let q = In-select _ bs db.booking_seats j in
      let r = In-select _ b db.bookings n in
      let c = conflicting_parts hall_id start_time end_time exclude bs b r.1 in
      free s bs b p.0 q.0 r.0 p.1 ((==_iff _ _).0 q.1) c.0 c.1

  conflict_found :
      (s : Seat) (bs : BookingSeat) (b : Booking)
      → In s db.seats
      → In bs db.booking_seats
      → In b db.bookings
      → contains s.id seat_ids ≡ true
      → bs.seat_id ≡ s.id
      → b.id ≡ bs.booking_id
      → IsRival hall_id start_time end_time exclude b
      → In s conflicts
  unfolding conflicts
  conflict_found s bs b i j n c e f r =
      In-flat_map_intro _ s s _ (In-select_intro _ s db.seats i c) (
        In-flat_map_intro _ s bs _ (In-select_intro _ bs db.booking_seats j ((==_iff _ _).1 e)) (
          In-map _ b _ (
            In-select_intro _ b db.bookings n
              (conflicting_intro hall_id start_time end_time exclude bs b f r))))

  no_refusal : (xs : List Seat) → refuse_conflicts xs ≡ ok [] → xs ≡ []
  no_refusal [] h = refl
  no_refusal (x ∷ xs) h = cc

  refused_or_empty : (xs ys : List Seat) → refuse_conflicts xs ≡ ok ys → ys ≡ []
  refused_or_empty [] ys h = cc
  refused_or_empty (x ∷ xs) ys h = cc

  -- The list that the check returns is empty.
  pub check_seat_conflicts-ok :
      (ys : List Seat)
      → check_seat_conflicts db hall_id seat_ids start_time end_time exclude ≡ ok ys
      → ys ≡ []
  unfolding check_seat_conflicts
  check_seat_conflicts-ok ys h = refused_or_empty _ ys h

  -- The check passes exactly when no confirmed booking of the hall that overlaps the slot, other
  -- than the excluded one, holds a requested seat.
  pub check_seat_conflicts_iff :
      (check_seat_conflicts db hall_id seat_ids start_time end_time exclude ≡ ok []) ↔ IsFree
  unfolding check_seat_conflicts conflicts
  check_seat_conflicts_iff = (
    λ h s bs b i j n c e f r.
        subst (λ xs. In s xs → ⊥) (sym (no_refusal conflicts h)) (λ z. elim z [ ])
          (conflict_found s bs b i j n c e f r),
    λ free. ap refuse_conflicts (not-In-nil conflicts (free→no_conflict free)),
  )
