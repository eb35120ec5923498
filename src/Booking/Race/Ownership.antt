-- ===== src/Booking/Race/Ownership.antt =====
-- Who may take a lock from a worker: `LOCK_RELEASE_SCRIPT` deletes the key only for its own token.
use booking_api_service.Common.{
  ℕ, ◌≡◌, refl, ap, sym, subst, ◌∙◌, inl, inr, ◌⊎◌, some, none, true, false, ◌==◌, Bool-cases,
  ==_iff, ==_false, str_eq, str_eq_iff,
}
use booking_api_service.Settings.{Settings}
use booking_api_service.Session.{Database}
use booking_api_service.Redis.{Redis, Key, token, key_eq, key_eq_iff}
use booking_api_service.Redis.Lock.{
  acquire_lock, release_lock, acquired, not_acquired, get-release_lock, is_held_by,
}
use booking_api_service.Booking.Race.{
  Pc, is_holding, update, Job, System, Step, key_of, passes, locks, gives_up, books, fails,
  releases, unwinds, commits, expires,
}

module _ (settings : Settings) (D : Database) (R : Redis) (jobs : ℕ → Job)
    (distinct : (i j : ℕ) → (jobs i).token ≡ (jobs j).token → i ≡ j) where
  abbrev Sys : Type 0
  Sys = System settings D R jobs

  abbrev lock_of : ℕ → Key
  lock_of i = key_of settings D R jobs i

  -- The worker is in its `try` block, and its lock holds its token.
  pub record Owns (s : Sys) (i : ℕ) : Type 0 where
    pub inside : is_holding (s.pc i) ≡ true
    pub held : R.get s.redis (lock_of i) ≡ some (token (jobs i).token)

  -- The worker owns its lock still; or it has left the block, and taken the lock away; or the lock has
  -- run out.
  abbrev pub Keeps : Sys → Sys → ℕ → Type 0
  Keeps s t i =
      Owns t i
      ⊎ ((is_holding (t.pc i) ≡ false) × (R.get t.redis (lock_of i) ≡ none))
      ⊎ (t ≡ record s { redis = R.del s.redis (lock_of i) })

  -- A move of one worker that leaves the lock of another, or of itself within the block.
  moved :
      (s t : Sys) (i j : ℕ) (p : Pc)
      → Owns s i
      → t.pc ≡ update s.pc j p
      → (is_holding (s.pc j) ≡ true → is_holding p ≡ true)
      → R.get t.redis (lock_of i) ≡ R.get s.redis (lock_of i)
      → Keeps s t i
  moved s t i j p own e keep same =
      inl (record { inside = ap (λ pc. is_holding (pc i)) e ∙ still; held = same ∙ own.held })
    where
      still : is_holding (update s.pc j p i) ≡ true
      still = elim (Bool-cases (j == i)) [
        | inr a ↦ rw a own.inside
        | inl a ↦
            rw a
              (keep (subst (λ k. is_holding (s.pc k) ≡ true) (sym ((==_iff j i).0 a)) own.inside))
      ]

  locked :
      (s : Sys) (i j : ℕ) (redis : R.Store)
      → Owns s i
      → acquire_lock R s.redis (lock_of j) (jobs j).token settings.redis_lock_timeout
        ≡ (redis, true)
      → R.get redis (lock_of i) ≡ R.get s.redis (lock_of i)
  locked s i j redis own got =
      let (free, e) =
        acquired R s.redis redis (lock_of j) (jobs j).token settings.redis_lock_timeout got in
      ap (λ x. R.get x (lock_of i)) e
      ∙ R.get-set s.redis (lock_of j) (lock_of i) (token (jobs j).token) settings.redis_lock_timeout
      ∙ elim (Bool-cases (key_eq (lock_of j) (lock_of i))) [
        | inr a ↦ rw a refl
        | inl a ↦
            absurd
              (cc (free, own.held, ap (R.get s.redis) ((key_eq_iff (lock_of j) (lock_of i)).0 a)))
      ]

  not_its_token :
      (s : Sys) (i j : ℕ)
      → Owns s i
      → (j == i) ≡ false
      → key_eq (lock_of j) (lock_of i) ≡ true
      → is_held_by (jobs j).token (R.get s.redis (lock_of j)) ≡ false
  not_its_token s i j own apart a =
      let e = ap (R.get s.redis) ((key_eq_iff (lock_of j) (lock_of i)).0 a) ∙ own.held in
      elim (Bool-cases (str_eq (jobs i).token (jobs j).token)) [
        | inr q ↦ rw e q
        | inl q ↦ absurd (
            ==_false j i apart
              (sym (distinct i j ((str_eq_iff (jobs i).token (jobs j).token).0 q))))
      ]

  -- The release of another worker finds another token under the key.
  released_other :
      (s : Sys) (i j : ℕ)
      → Owns s i
      → (j == i) ≡ false
      → R.get (release_lock R s.redis (lock_of j) (jobs j).token).0 (lock_of i)
        ≡ R.get s.redis (lock_of i)
  released_other s i j own apart =
      get-release_lock R s.redis (lock_of j) (lock_of i) (jobs j).token
      ∙ elim (Bool-cases (key_eq (lock_of j) (lock_of i))) [
        | inr a ↦ elim (Bool-cases (is_held_by (jobs j).token (R.get s.redis (lock_of j)))) [
          | inl q ↦ rw q (rw a refl)
          | inr q ↦ rw q refl
        ]
        | inl a ↦ rw (not_its_token s i j own apart a) refl
      ]

  released_own :
      (s : Sys) (i : ℕ)
      → Owns s i
      → R.get (release_lock R s.redis (lock_of i) (jobs i).token).0 (lock_of i) ≡ none
  released_own s i own =
      get-release_lock R s.redis (lock_of i) (lock_of i) (jobs i).token
      ∙ rw own.held (
          rw ((str_eq_iff (jobs i).token (jobs i).token).1 refl)
            (rw ((key_eq_iff (lock_of i) (lock_of i)).1 refl) refl))

  left :
      (s t : Sys) (i j : ℕ) (p : Pc)
      → Owns s i
      → t.pc ≡ update s.pc j p
      → is_holding p ≡ false
      → t.redis ≡ (release_lock R s.redis (lock_of j) (jobs j).token).0
      → Keeps s t i
  left s t i j p own e out r = elim (Bool-cases (j == i)) [
    | inr a ↦ inl (record {
      inside = ap (λ pc. is_holding (pc i)) e ∙ rw a own.inside;
      held = ap (λ x. R.get x (lock_of i)) r ∙ released_other s i j own a ∙ own.held;
    })
    | inl a ↦
        let same = (==_iff j i).0 a in
        inr (
          inl (
            ap (λ pc. is_holding (pc i)) e ∙ rw a out,
            ap (λ x. R.get x (lock_of i))
                  (r ∙ ap (λ k. (release_lock R s.redis (lock_of k) (jobs k).token).0) same)
                ∙ released_own s i own,
          ))
  ]

  -- With distinct tokens: whatever step any worker takes, a worker that is in its `try` block and owns
  -- its lock owns it still; or it has left the block itself and given the lock back; or the lock has
  -- run out. No other worker takes it over or deletes it, not even one whose own lock under the same
  -- key ran out before.
  pub Step-Keeps : {s t : Sys} → Step settings D R jobs s t → (i : ℕ) → Owns s i → Keeps s t i
  Step-Keeps {s} {t} (passes j hall user e a) i own = moved s t i j _ own refl (λ z. cc) refl
  Step-Keeps {s} {t} (locks j hall user redis e got) i own =
      moved s t i j _ own refl (λ z. refl) (locked s i j redis own got)
  Step-Keeps {s} {t} (gives_up j hall user redis e got) i own =
      moved s t i j _ own refl (λ z. cc)
        (ap (λ x. R.get x (lock_of i))
          (not_acquired R s.redis redis (lock_of j) (jobs j).token settings.redis_lock_timeout got))
  Step-Keeps {s} {t} (books j hall user id e c f g m) i own =
      moved s t i j _ own refl (λ z. refl) refl
  Step-Keeps {s} {t} (fails j hall user e) i own = moved s t i j _ own refl (λ z. refl) refl
  Step-Keeps {s} {t} (releases j b e) i own = left s t i j _ own refl refl refl
  Step-Keeps {s} {t} (unwinds j e) i own = left s t i j _ own refl refl refl
  Step-Keeps {s} {t} (commits j b e) i own = moved s t i j _ own refl (λ z. cc) refl
  Step-Keeps {s} {t} (expires key) i own = elim (Bool-cases (key_eq key (lock_of i))) [
    | inl a ↦
        inr
          (inr (ap (λ k. record s { redis = R.del s.redis k }) ((key_eq_iff key (lock_of i)).0 a)))
    | inr a ↦
        inl
          (record { inside = own.inside; held = R.get-del s.redis key (lock_of i) ∙ rw a own.held })
  ]
