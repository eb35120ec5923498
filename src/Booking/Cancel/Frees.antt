-- ===== src/Booking/Cancel/Frees.antt =====
-- A cancellation gives back the seats of its booking, and no others.
use booking_api_service.Common.{
  ℕ, zero, suc, List, [], ◌∷◌, none, some, false, ◌≡◌, ◌≢◌, ◌↔◌, refl, ap, ◌∙◌, inl, inr, arith,
  ◌==◌, In, update_where, ==_ne,
}
use booking_api_service.Exceptions.{ok}
use booking_api_service.Datetime.{Datetime}
use booking_api_service.Model.{Booking, Db}
use booking_api_service.Booking.Conflicts.{check_seat_conflicts, is_excluded}
use booking_api_service.Booking.Conflicts.Free.{IsFree, check_seat_conflicts_iff}
use booking_api_service.Booking.Cancel.{as_cancelled, mark_cancelled}
use booking_api_service.Booking.Cancel.Effects.{confirmed_before}

pub In-update_where_other :
    (id : ℕ) (b : Booking) (bs : List Booking)
    → In b bs
    → b.id ≢ id
    → In b (update_where (λ x. x.id == id) as_cancelled bs)
In-update_where_other id b [] m ne = elim m [ ]
In-update_where_other id b (x ∷ bs) (inl e) ne =
    inl (let q : x.id ≢ id = λ z. ne (ap (λ (y : Booking). y.id) e ∙ z) in rw (==_ne x.id id q) e)
In-update_where_other id b (x ∷ bs) (inr m) ne = inr (In-update_where_other id b bs m ne)

excluded_iff : (id n : ℕ) → id ≢ 0 → (is_excluded (some id) n ≡ false) ↔ (n ≢ id)
excluded_iff zero n h = absurd (h refl)
excluded_iff (suc id) n h = ground arith

module _ (db : Db) (booking_id hall_id : ℕ) (seat_ids : List ℕ) (start_time end_time : Datetime)
    (nonzero : booking_id ≢ 0) where
  free_after→before :
      IsFree (mark_cancelled booking_id db) hall_id seat_ids start_time end_time none
      → IsFree db hall_id seat_ids start_time end_time (some booking_id)
  unfolding mark_cancelled
  free_after→before free s bs b i j k c e f r =
      let other = (excluded_iff booking_id b.id nonzero).0 r.not_excluded in
      free s bs b i j (In-update_where_other booking_id b db.bookings k other) c e f (record {
        same_hall = r.same_hall;
        still_confirmed = r.still_confirmed;
        starts_before_end = r.starts_before_end;
        ends_after_start = r.ends_after_start;
        not_excluded = refl;
      })

  free_before→after :
      IsFree db hall_id seat_ids start_time end_time (some booking_id)
      → IsFree (mark_cancelled booking_id db) hall_id seat_ids start_time end_time none
  free_before→after free s bs b i j k c e f r =
      let (old, other) = confirmed_before booking_id db b k r.still_confirmed in
      free s bs b (unfold mark_cancelled in i) (unfold mark_cancelled in j) old c e f (record {
        same_hall = r.same_hall;
        still_confirmed = r.still_confirmed;
        starts_before_end = r.starts_before_end;
        ends_after_start = r.ends_after_start;
        not_excluded = (excluded_iff booking_id b.id nonzero).1 other;
      })

  -- After a booking is cancelled, the conflict check passes exactly when, before, the check that
  -- excludes that booking passes: its seats are free again at once, and no others. (Its id is not
  -- 0, which `exclude_booking_id` would take for no id.)
  pub check_seat_conflicts-mark_cancelled :
      (check_seat_conflicts (mark_cancelled booking_id db) hall_id seat_ids start_time end_time none
        ≡ ok [])
      ↔ (check_seat_conflicts db hall_id seat_ids start_time end_time (some booking_id) ≡ ok [])
  check_seat_conflicts-mark_cancelled =
      let after =
        check_seat_conflicts_iff (mark_cancelled booking_id db) hall_id seat_ids start_time end_time
          none in
      let before =
        check_seat_conflicts_iff db hall_id seat_ids start_time end_time (some booking_id) in
      (λ h. before.1 (free_after→before (after.0 h)), λ h. after.1 (free_before→after (before.0 h)))
