-- ===== src/Booking/Race/Overlap.antt =====
-- What the lock does not give: it is released before the session commits, so that the next
-- request does not see the booking that has been made.
use booking_api_service.Common.{
  ℕ, ◌≤◌, ◌≡◌, ◌≢◌, refl, sym, ◌∙◌, inl, inr, none, true, false, ◌==◌, Bool-cases, ==_ne, List, [],
  ◌∷◌, contains, In-append_left, In-append_right,
}
use booking_api_service.Exceptions.{ok}
use booking_api_service.Settings.{Settings}
use booking_api_service.Model.{User, Hall, Booking, Db, confirmed, max_money}
use booking_api_service.Session.{Database}
use booking_api_service.Redis.{Redis, token}
use booking_api_service.Redis.Lock.{release_lock, acquire_lock-free, get-release_lock-acquire_lock}
use booking_api_service.Booking.Create.{admit, new_booking, insert_booking}
use booking_api_service.Booking.Create.Safe.{admit-IsAdmitted}
use booking_api_service.Booking.Exclusive.{
  IsConsistent, IsOverlapping, booking_ids, In-add_booking_seats_old, In-add_booking_seats_new,
}
use booking_api_service.Booking.Race.{
  Pc, idle, has_pending, update, Job, System, Reach, key_of, row_of, passes, locks, books, releases,
  commits, here, next, holding, admitted, booked, released, finished,
}

-- Two overlapping bookings of one hall that were both inserted and share a seat break the invariant.
two_bookings_clash :
    (D : Database) (db : Db) (a b : Booking) (xs ys : List ℕ) (seat : ℕ)
    → a.status ≡ confirmed
    → b.status ≡ confirmed
    → a.hall_id ≡ b.hall_id
    → IsOverlapping a b
    → a.id ≢ b.id
    → contains seat xs ≡ true
    → contains seat ys ≡ true
    → ¬ IsConsistent (insert_booking D b ys (insert_booking D a xs db))
unfolding insert_booking
two_bookings_clash D db a b xs ys seat ca cb h o ne mx my valid =
    let one = insert_booking D a xs db in
    let (r, i, e, p) = In-add_booking_seats_new D a.id seat xs db.booking_seats mx in
    let (s, j, f, q) = In-add_booking_seats_new D b.id seat ys _ my in
    ne (
      valid.exclusive a b r s
        (In-append_left a one.bookings (b ∷ []) (In-append_right a db.bookings (a ∷ []) (inl refl)))
        (In-append_right b one.bookings (b ∷ []) (inl refl))
        (In-add_booking_seats_old D b.id r ys _ i) j ca cb h o e f (p ∙ sym q))

module _ (settings : Settings) (D : Database) (R : Redis) (jobs : ℕ → Job) where
  abbrev Sys : Type 0
  Sys = System settings D R jobs

  -- Both requests are admitted on the committed tables, their locks are free, and the ids that the
  -- table gives out for them are new and different.
  pub record IsReady (s : Sys) (id id' : ℕ) : Type 0 where
    pub all_idle : (k : ℕ) → s.pc k ≡ idle
    pub hall : Hall
    pub hall' : Hall
    pub user : User
    pub user' : User
    pub admitted_first : admit settings (jobs 0).user_id (jobs 0).rq s.committed ≡ ok (hall, user)
    pub admitted_second :
        admit settings (jobs 1).user_id (jobs 1).rq s.committed ≡ ok (hall', user')
    pub free_first : R.get s.redis (key_of settings D R jobs 0) ≡ none
    pub free_second : R.get s.redis (key_of settings D R jobs 1) ≡ none
    pub id_new : contains id (booking_ids s.committed) ≡ false
    pub id_new' : contains id' (booking_ids s.committed) ≡ false
    pub ids_differ : id ≢ id'
    pub price_fits : (row_of settings D R jobs 0 hall s.committed id).total_price ≤ max_money
    pub price_fits' : (row_of settings D R jobs 1 hall' s.committed id').total_price ≤ max_money

  module _ (s : Sys) (id id' : ℕ) (ready : IsReady s id id') where
    abbrev first_row : Booking
    first_row = row_of settings D R jobs 0 ready.hall s.committed id

    abbrev second_row : Booking
    second_row = row_of settings D R jobs 1 ready.hall' s.committed id'

    abbrev redis₁ : R.Store
    redis₁ =
        R.set s.redis (key_of settings D R jobs 0) (token (jobs 0).token)
          settings.redis_lock_timeout

    abbrev redis₂ : R.Store
    redis₂ = (release_lock R redis₁ (key_of settings D R jobs 0) (jobs 0).token).0

    abbrev redis₃ : R.Store
    redis₃ =
        R.set redis₂ (key_of settings D R jobs 1) (token (jobs 1).token) settings.redis_lock_timeout

    -- Worker 0 has run its call to the end, and has not committed.
    abbrev after_first : Sys
    after_first = record {
      committed = s.committed;
      redis = redis₂;
      pc =
          update
            (update
              (update (update s.pc 0 (admitted ready.hall ready.user)) 0
                (holding ready.hall ready.user))
              0 (booked first_row))
            0 (released first_row);
    }

    first_runs : Reach settings D R jobs s after_first
    first_runs =
        let a =
          admit-IsAdmitted settings (jobs 0).user_id (jobs 0).rq s.committed ready.hall ready.user
            ready.admitted_first in
        next
          (next
            (next
              (next here (passes 0 ready.hall ready.user (ready.all_idle 0) ready.admitted_first))
              (locks 0 ready.hall ready.user redis₁ refl (
                acquire_lock-free R s.redis _ (jobs 0).token settings.redis_lock_timeout
                  ready.free_first)))
            (books 0 ready.hall ready.user id refl a.no_conflict ready.id_new
              (λ k. elim (Bool-cases (0 == k)) [
                | inl e ↦ rw e refl
                | inr e ↦ rw (e, ready.all_idle k) refl
              ])
              ready.price_fits))
          (releases 0 first_row refl)

    none_pending :
        (k : ℕ) (p q : Pc)
        → has_pending id' p ≡ false
        → has_pending id' (update (update after_first.pc 1 q) 1 p k) ≡ false
    none_pending k p q out = elim (Bool-cases (1 == k)) [
      | inl e ↦ rw e out
      | inr e ↦ elim (Bool-cases (0 == k)) [
        | inl f ↦ rw (e, f) (==_ne id id' ready.ids_differ)
        | inr f ↦ rw (e, f, ready.all_idle k) refl
      ]
    ]

    abbrev after_second : Sys
    after_second = record {
      committed = s.committed;
      redis = (release_lock R redis₃ (key_of settings D R jobs 1) (jobs 1).token).0;
      pc =
          update
            (update
              (update (update after_first.pc 1 (admitted ready.hall' ready.user')) 1
                (holding ready.hall' ready.user'))
              1 (booked second_row))
            1 (released second_row);
    }

    second_runs : Reach settings D R jobs s after_second
    second_runs =
        let a =
          admit-IsAdmitted settings (jobs 1).user_id (jobs 1).rq s.committed ready.hall' ready.user'
            ready.admitted_second in
        let free =
          get-release_lock-acquire_lock R s.redis redis₁ (key_of settings D R jobs 0)
            (key_of settings D R jobs 1) (jobs 0).token settings.redis_lock_timeout
            (acquire_lock-free R s.redis _ (jobs 0).token settings.redis_lock_timeout
              ready.free_first)
          ∙ ready.free_second in
        next
          (next
            (next
              (next first_runs
                (passes 1 ready.hall' ready.user' (ready.all_idle 1) ready.admitted_second))
              (locks 1 ready.hall' ready.user' redis₃ refl
                (acquire_lock-free R redis₂ _ (jobs 1).token settings.redis_lock_timeout free)))
            (books 1 ready.hall' ready.user' id' refl a.no_conflict ready.id_new'
              (λ k. none_pending k (holding ready.hall' ready.user') _ refl) ready.price_fits'))
          (releases 1 second_row refl)

    abbrev pub both_committed : Db
    both_committed =
        insert_booking D second_row (jobs 1).rq.seat_ids
          (insert_booking D first_row (jobs 0).rq.seat_ids s.committed)

    abbrev at_end : Sys
    at_end = record {
      committed = both_committed;
      redis = after_second.redis;
      pc = update (update after_second.pc 0 finished) 1 finished;
    }

    both_commit : Reach settings D R jobs s at_end
    both_commit = next (next second_runs (commits 0 first_row refl)) (commits 1 second_row refl)

    -- If two workers are ready with requests for overlapping times in one hall that share a seat,
    -- there is an interleaving in which both calls succeed, one after the other and each under its
    -- lock, and both bookings are committed: the seat is sold twice. Each lock was released, and
    -- the second conflict check made, before the first session committed.
    pub seat_sold_twice :
        (seat : ℕ)
        → contains seat (jobs 0).rq.seat_ids ≡ true
        → contains seat (jobs 1).rq.seat_ids ≡ true
        → (jobs 0).rq.hall_id ≡ (jobs 1).rq.hall_id
        → IsOverlapping first_row second_row
        → (t : Sys) × Reach settings D R jobs s t
          × (t.committed ≡ both_committed)
          × (¬ IsConsistent t.committed)
    unfolding new_booking
    seat_sold_twice seat m m' same overlap = (
      at_end,
      both_commit,
      refl,
      two_bookings_clash D s.committed first_row second_row (jobs 0).rq.seat_ids
          (jobs 1).rq.seat_ids seat refl refl same overlap ready.ids_differ m m',
    )
