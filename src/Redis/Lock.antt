-- ===== src/Redis/Lock.antt =====
-- The lock of app/services/booking_service.py: `set(key, token, nx=True, ex=...)` takes it, and
-- `LOCK_RELEASE_SCRIPT` gives it back.
use booking_api_service.Common.{
  ℕ, String, Option, none, some, Bool, true, false, ◌≡◌, refl, ap, sym, ◌∙◌, if◌then◌else◌,
  Bool-cases, Option-cases, inl, inr, str_eq, str_eq_iff,
}
use booking_api_service.Redis.{Redis, Key, Value, token, json, key_eq, key_eq_iff, key_eq_refl}

-- `redis.call('get', KEYS[1]) == ARGV[1]`
abbrev pub is_held_by : String → Option Value → Bool
is_held_by t none = false
is_held_by t (some (token u)) = str_eq u t
is_held_by t (some (json v)) = false

module _ (R : Redis) where
  open R use {Store, get, set, set_nx, del, get-set, get-del, set_nx_absent, set_nx_present}

  unfoldable pub acquire_lock : Store → Key → String → ℕ → Store × Bool
  acquire_lock s key t timeout = set_nx s key (token t) timeout

  unfoldable pub release_lock : Store → Key → String → Store × Bool
  release_lock s key t = if is_held_by t (get s key) then (del s key, true) else (s, false)

  -- The release deletes the lock exactly when it still holds the caller's token: a lock that
  -- expired, or that another request holds, stays as it is, and so does every other key.
  pub get-release_lock :
      (s : Store) (key j : Key) (t : String)
      → get (release_lock s key t).0 j
        ≡ (if is_held_by t (get s key) then (if key_eq key j then none else get s j) else get s j)
  unfolding release_lock
  get-release_lock s key j t = elim (Bool-cases (is_held_by t (get s key))) [
    | inl e ↦ rw e (get-del s key j)
    | inr e ↦ rw e refl
  ]

  pub acquire_lock-free :
      (s : Store) (key : Key) (t : String) (timeout : ℕ)
      → get s key ≡ none
      → acquire_lock s key t timeout ≡ (set s key (token t) timeout, true)
  unfolding acquire_lock
  acquire_lock-free s key t timeout e = set_nx_absent s key (token t) timeout e

  -- The call got the lock: the key was free, and now holds the token.
  pub acquired :
      (s s' : Store) (key : Key) (t : String) (timeout : ℕ)
      → acquire_lock s key t timeout ≡ (s', true)
      → (get s key ≡ none) × (s' ≡ set s key (token t) timeout)
  unfolding acquire_lock
  acquired s s' key t timeout h = elim (Option-cases (get s key)) [
    | inl e ↦ (e, cc (h, set_nx_absent s key (token t) timeout e))
    | inr (w, e) ↦ cc (h, set_nx_present s key (token t) w timeout e)
  ]

  -- The call did not get the lock: nothing has changed.
  pub not_acquired :
      (s s' : Store) (key : Key) (t : String) (timeout : ℕ)
      → acquire_lock s key t timeout ≡ (s', false)
      → s' ≡ s
  unfolding acquire_lock
  not_acquired s s' key t timeout h = elim (Option-cases (get s key)) [
    | inl e ↦ cc (h, set_nx_absent s key (token t) timeout e)
    | inr (w, e) ↦ cc (h, set_nx_present s key (token t) w timeout e)
  ]

  -- Only one of two requests gets a lock: after the first has got it, a second one that asks
  -- before it is released is refused, and changes nothing.
  pub acquire_lock_twice :
      (s s' : Store) (key : Key) (t u : String) (timeout : ℕ)
      → acquire_lock s key t timeout ≡ (s', true)
      → acquire_lock s' key u timeout ≡ (s', false)
  unfolding acquire_lock
  acquire_lock_twice s s' key t u timeout h = set_nx_present s' key (token u) (token t) timeout (
      ap (λ x. get x key) (acquired s s' key t timeout h).1
      ∙ get-set s key key (token t) timeout
      ∙ rw (key_eq_refl key))

  -- From taking a lock that was free to releasing it with the same token, no key changes.
  pub get-release_lock-acquire_lock :
      (s s' : Store) (key j : Key) (t : String) (timeout : ℕ)
      → acquire_lock s key t timeout ≡ (s', true)
      → get (release_lock s' key t).0 j ≡ get s j
  get-release_lock-acquire_lock s s' key j t timeout h =
      let (free, e) = acquired s s' key t timeout h in
      let here : get s' key ≡ some (token t) =
        ap (λ x. get x key) e ∙ get-set s key key (token t) timeout ∙ rw (key_eq_refl key) in
      let held : is_held_by t (get s' key) ≡ true = rw here ((str_eq_iff t t).1 refl) in
      get-release_lock s' key j t
      ∙ rw held (elim (Bool-cases (key_eq key j)) [
        | inl q ↦ rw q (sym (ap (get s) (sym ((key_eq_iff key j).0 q)) ∙ free))
        | inr q ↦ rw q (ap (λ x. get x j) e ∙ get-set s key j (token t) timeout ∙ rw q refl)
      ])
