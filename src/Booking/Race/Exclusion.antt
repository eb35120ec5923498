-- ===== src/Booking/Race/Exclusion.antt =====
-- What the lock gives: two workers are never in the `try` block of one lock together, unless it runs
-- out under one of them.
use booking_api_service.Common.{
  ℕ, ◌≡◌, ◌≢◌, refl, ap, sym, subst, ◌∙◌, inl, inr, some, true, false, ◌==◌, Bool-cases, ==_iff,
  ==_false, String, str_eq_iff,
}
use booking_api_service.Settings.{Settings}
use booking_api_service.Session.{Database}
use booking_api_service.Redis.{Redis, Key, token, key_eq, key_eq_iff}
use booking_api_service.Redis.Lock.{
  acquire_lock, release_lock, acquired, not_acquired, get-release_lock, is_held_by,
}
use booking_api_service.Booking.Race.{
  Pc, is_holding, update, Job, System, Step, Reach, key_of, passes, locks, gives_up, books, fails,
  releases, unwinds, commits, expires, here, next, finished,
}

module _ (settings : Settings) (D : Database) (R : Redis) (jobs : ℕ → Job)
    (distinct : (i j : ℕ) → (jobs i).token ≡ (jobs j).token → i ≡ j) where
  abbrev Sys : Type 0
  Sys = System settings D R jobs

  abbrev lock_of : ℕ → Key
  lock_of i = key_of settings D R jobs i

  -- Whoever is in the block has its token under its key.
  abbrev HoldsLock : R.Store → (ℕ → Pc) → Type 0
  HoldsLock redis pc =
      (i : ℕ) → is_holding (pc i) ≡ true → R.get redis (lock_of i) ≡ some (token (jobs i).token)

  token-injective : {a b : String} → some (token a) ≡ some (token b) → a ≡ b
  token-injective e = cc

  -- A move that leaves Redis alone, and puts its worker into the block only from within.
  same_redis :
      (redis : R.Store) (pc : ℕ → Pc) (i : ℕ) (p : Pc)
      → HoldsLock redis pc
      → (is_holding p ≡ true → is_holding (pc i) ≡ true)
      → HoldsLock redis (update pc i p)
  same_redis redis pc i p h keep j m = elim (Bool-cases (i == j)) [
    | inr e ↦ h j (rw e at m)
    | inl e ↦
        subst (λ k. R.get redis (lock_of k) ≡ some (token (jobs k).token)) ((==_iff i j).0 e)
          (h i (keep (rw e at m)))
  ]

  after_lock :
      (redis redis' : R.Store) (pc : ℕ → Pc) (i : ℕ) (p : Pc)
      → HoldsLock redis pc
      → acquire_lock R redis (lock_of i) (jobs i).token settings.redis_lock_timeout ≡ (redis', true)
      → HoldsLock redis' (update pc i p)
  after_lock redis redis' pc i p h got j m =
      let (free, e) =
        acquired R redis redis' (lock_of i) (jobs i).token settings.redis_lock_timeout got in
      let read =
        ap (λ x. R.get x (lock_of j)) e
        ∙ R.get-set redis (lock_of i) (lock_of j) (token (jobs i).token)
            settings.redis_lock_timeout in
      elim (Bool-cases (i == j)) [
        | inl q ↦
            let same = (==_iff i j).0 q in
            read
            ∙ rw ((key_eq_iff (lock_of i) (lock_of j)).1 (ap lock_of same))
                (ap (λ k. some (token (jobs k).token)) same)
        | inr q ↦
            let old = h j (rw q at m) in
            elim (Bool-cases (key_eq (lock_of i) (lock_of j))) [
              | inr apart ↦ read ∙ rw apart old
              | inl k ↦ cc (free, old, ap (R.get redis) ((key_eq_iff (lock_of i) (lock_of j)).0 k))
            ]
      ]

  after_release :
      (redis : R.Store) (pc : ℕ → Pc) (i : ℕ) (p : Pc)
      → HoldsLock redis pc
      → is_holding (pc i) ≡ true
      → is_holding p ≡ false
      → HoldsLock (release_lock R redis (lock_of i) (jobs i).token).0 (update pc i p)
  after_release redis pc i p h mine out j m = elim (Bool-cases (i == j)) [
    | inl e ↦ let z : is_holding p ≡ true = rw e at m in cc
    | inr e ↦
        let old = h j (rw e at m) in
        let read = get-release_lock R redis (lock_of i) (lock_of j) (jobs i).token in
        let held : is_held_by (jobs i).token (R.get redis (lock_of i)) ≡ true =
          rw (h i mine) ((str_eq_iff (jobs i).token (jobs i).token).1 refl) in
        elim (Bool-cases (key_eq (lock_of i) (lock_of j))) [
          | inr apart ↦ read ∙ rw held (rw apart old)
          | inl k ↦
              let both = ap (R.get redis) ((key_eq_iff (lock_of i) (lock_of j)).0 k) in
              absurd (==_false i j e (distinct i j (token-injective (sym (h i mine) ∙ both ∙ old))))
        ]
  ]

  -- A lock that runs out is no lock of a worker in its block.
  abbrev IsTimely : {s t : Sys} → Step settings D R jobs s t → Type 0
  IsTimely {s} (expires key) = (i : ℕ) → is_holding (s.pc i) ≡ true → lock_of i ≢ key
  IsTimely step = Unit {0}

  after_expiry :
      (redis : R.Store) (pc : ℕ → Pc) (key : Key)
      → HoldsLock redis pc
      → ((i : ℕ) → is_holding (pc i) ≡ true → lock_of i ≢ key)
      → HoldsLock (R.del redis key) pc
  after_expiry redis pc key h timely j m = elim (Bool-cases (key_eq key (lock_of j))) [
    | inl e ↦ absurd (timely j m (sym ((key_eq_iff key (lock_of j)).0 e)))
    | inr e ↦ R.get-del redis key (lock_of j) ∙ rw e (h j m)
  ]

  Step-HoldsLock :
      {s t : Sys} (step : Step settings D R jobs s t)
      → IsTimely step
      → HoldsLock s.redis s.pc
      → HoldsLock t.redis t.pc
  Step-HoldsLock {s} (passes i hall user e a) q h = same_redis s.redis s.pc i _ h (λ z. cc)
  Step-HoldsLock {s} (locks i hall user redis e got) q h = after_lock s.redis redis s.pc i _ h got
  Step-HoldsLock {s} (gives_up i hall user redis e got) q h =
      subst (λ r. HoldsLock r (update s.pc i finished))
        (sym
          (not_acquired R s.redis redis (lock_of i) (jobs i).token settings.redis_lock_timeout got))
        (same_redis s.redis s.pc i finished h (λ z. cc))
  Step-HoldsLock {s} (books i hall user id e c f g m) q h =
      same_redis s.redis s.pc i _ h (λ z. rw e refl)
  Step-HoldsLock {s} (fails i hall user e) q h = same_redis s.redis s.pc i _ h (λ z. rw e refl)
  Step-HoldsLock {s} (releases i b e) q h = after_release s.redis s.pc i _ h (rw e refl) refl
  Step-HoldsLock {s} (unwinds i e) q h = after_release s.redis s.pc i _ h (rw e refl) refl
  Step-HoldsLock {s} (commits i b e) q h = same_redis s.redis s.pc i _ h (λ z. cc)
  Step-HoldsLock {s} (expires key) q h = after_expiry s.redis s.pc key h q

  -- So are all that ran out in a run.
  abbrev pub RunIsTimely : {s t : Sys} → Reach settings D R jobs s t → Type 0
  RunIsTimely here = Unit {0}
  RunIsTimely (next r step) = RunIsTimely r × IsTimely step

  Reach-HoldsLock :
      {s t : Sys} (r : Reach settings D R jobs s t)
      → RunIsTimely r
      → HoldsLock s.redis s.pc
      → HoldsLock t.redis t.pc
  Reach-HoldsLock here q h = h
  Reach-HoldsLock (next r step) q h = Step-HoldsLock step q.1 (Reach-HoldsLock r q.0 h)

  -- With distinct tokens, and if at the start no worker is in its `try` block: however the workers
  -- interleave, two that are in it at the same time have different locks, as long as no lock ran out
  -- under a worker in its block.
  pub lock_excludes :
      (s t : Sys)
      → ((i : ℕ) → is_holding (s.pc i) ≡ false)
      → (r : Reach settings D R jobs s t) → RunIsTimely r
      → (i j : ℕ) → is_holding (t.pc i) ≡ true
      → is_holding (t.pc j) ≡ true
      → lock_of i ≡ lock_of j
      → i ≡ j
  lock_excludes s t outside r timely i j hi hj same =
      let h = Reach-HoldsLock r timely (λ k m. cc (outside k)) in
      distinct i j (token-injective (sym (h i hi) ∙ ap (R.get t.redis) same ∙ h j hj))
