-- ===== src/Auth/Login.antt =====
-- Signing up, logging in, and what a token is good for.
use booking_api_service.Common.{
  ℕ, ◌==◌, ltb, ◌+◌, ◌*◌, ◌<◌, ◌≤◌, String, ◌≡◌, refl, ap, sym, ◌∙◌, inl, inr, [], ◌∷◌, ◌++◌, map,
  none, some, false, find, find-snoc, find-key-eq-none, find-eq-none, find_updated, In, In-append,
  arith, ==_refl, lt→ltb, str_eq, str_eq_iff, Option-cases,
}
use booking_api_service.Exceptions.{ok, err, text, unauthorized, http}
use booking_api_service.Settings.{Settings}
use booking_api_service.Model.{UserRole, User, Db, user}
use booking_api_service.Session.{Database, Session}
use booking_api_service.Patch.{value}
use booking_api_service.Users.{UserUpdate, update_user, updated}
use booking_api_service.Users.Emails.{HasUniqueEmails, update_user-IsUpdated}
use booking_api_service.Auth.{
  Claims, Crypto, user_by_email, new_user, register_user, signup, authenticate_user, create_token,
  login, get_current_user, get_current_admin,
}

module _ (C : Crypto) (settings : Settings) (D : Database) (email password : String) (s : Session)
    (unknown : user_by_email s.current email ≡ none) where
  abbrev newcomer : User
  newcomer = new_user C D email password user s.current

  -- The tables with the new user.
  abbrev joined : Db
  joined = record s.current { users = s.current.users ++ newcomer ∷ [] }

  newcomer_by_email : user_by_email joined email ≡ some newcomer
  unfolding new_user
  newcomer_by_email =
      find-snoc (λ (u : User). str_eq u.email email) newcomer s.current.users unknown
        ((str_eq_iff email email).1 refl)

  newcomer_by_id : find (λ (u : User). u.id == newcomer.id) joined.users ≡ some newcomer
  unfolding new_user
  newcomer_by_id =
      find-snoc (λ (u : User). u.id == newcomer.id) newcomer s.current.users
        (find-key-eq-none (λ (u : User). u.id) newcomer.id s.current.users
          (D.next_id-fresh (map (λ (u : User). u.id) s.current.users)))
        (==_refl newcomer.id)

  newcomer_authenticated : authenticate_user C joined email password ≡ ok newcomer
  unfolding authenticate_user new_user
  newcomer_authenticated = rw newcomer_by_email (rw (C.verify-hash password) refl)

  token_names :
      (later now : ℕ)
      → later < now + settings.access_token_expire_minutes * 60
      → get_current_user C later (create_token C settings now newcomer) joined ≡ ok newcomer
  unfolding get_current_user create_token
  token_names later now h =
      rw (C.decode-encode later _) (rw (lt→ltb _ _ h) (rw newcomer_by_id (unfold new_user in refl)))

  token_expires :
      (later now : ℕ)
      → now + settings.access_token_expire_minutes * 60 ≤ later
      → get_current_user C later (create_token C settings now newcomer) joined
        ≡ err (unauthorized (text "Invalid or expired token"))
  unfolding get_current_user create_token
  token_expires later now h =
      let over : ltb later (now + settings.access_token_expire_minutes * 60) ≡ false =
        ground arith in
      rw (C.decode-encode later _) (rw over refl)

  -- Signing up with an e-mail that no user has succeeds, and then, in that session: logging in with
  -- the same e-mail and password gives a token; until it expires the token names the new user, and
  -- is refused where an administrator is asked for; from then on it is refused.
  pub signup_then_login :
      let (r, s') = signup C D (record { email = email; password = password }) s in
      (u : User) × (r ≡ ok (record { id = u.id; email = email; role = user }))
      × ((now : ℕ)
          → login C settings now s'.current email password ≡ ok (create_token C settings now u))
      × ((now later : ℕ)
          → later < now + settings.access_token_expire_minutes * 60
          → (get_current_user C later (create_token C settings now u) s'.current ≡ ok u)
            × (get_current_admin C later (create_token C settings now u) s'.current
                ≡ err (http 403 (text "Admin access required"))))
      × ((now later : ℕ)
          → now + settings.access_token_expire_minutes * 60 ≤ later
          → get_current_user C later (create_token C settings now u) s'.current
            ≡ err (unauthorized (text "Invalid or expired token")))
  unfolding signup register_user login get_current_admin
  signup_then_login = rw unknown (
    newcomer,
    refl,
    λ now. rw newcomer_authenticated refl,
    λ now later h.
        (token_names later now h, rw (token_names later now h) (unfold new_user in refl)),
    λ now later h. token_expires later now h,
  )

-- Registering a user keeps the e-mails of the users unique.
pub register_user-HasUniqueEmails :
    (C : Crypto) (D : Database) (email password : String) (role : UserRole) (s : Session) (u : User)
    (s' : Session)
    → HasUniqueEmails s.current.users
    → register_user C D email password role s ≡ (ok u, s')
    → HasUniqueEmails s'.current.users
unfolding register_user new_user
register_user-HasUniqueEmails C D email password role s u s' valid done =
    elim (Option-cases (user_by_email s.current email)) [
      | inr (old, e) ↦ ground arith
      | inl unknown ↦
          let new = new_user C D email password role s.current in
          let joined : s'.current.users ≡ s.current.users ++ new ∷ [] = ground arith in
          let apart : (x : User) → In x s.current.users → x.email ≡ email → ⊥ = λ x m e.
            let no =
              find-eq-none (λ (y : User). str_eq y.email email) x s.current.users unknown m in
            let yes = (str_eq_iff x.email email).1 e in cc (no, yes) in
          λ a b m n e. elim (In-append a s.current.users (new ∷ []) (rw joined at m)) [
            | inl i ↦ elim (In-append b s.current.users (new ∷ []) (rw joined at n)) [
              | inl j ↦ valid a b i j e
              | inr (inl q) ↦ absurd (apart a i (e ∙ ap (λ (x : User). x.email) q))
              | inr (inr z) ↦ elim z [ ]
            ]
            | inr (inl p) ↦ elim (In-append b s.current.users (new ∷ []) (rw joined at n)) [
              | inl j ↦ absurd (apart b j (sym e ∙ ap (λ (x : User). x.email) p))
              | inr (inl q) ↦ ap (λ (x : User). x.id) (p ∙ sym q)
              | inr (inr z) ↦ elim z [ ]
            ]
            | inr (inr z) ↦ elim z [ ]
          ]
    ]

-- After an administrator has deactivated a user, every token of that user is refused in the same
-- session, however long it would still be valid.
pub deactivated_user_is_refused :
    (C : Crypto) (user_id : ℕ) (rq : UserUpdate) (s : Session) (u : User) (s' : Session)
    → update_user user_id rq s ≡ (ok u, s')
    → rq.is_active ≡ value false
    → (now : ℕ) (token : String) (c : Claims) → C.decode now token ≡ some c
    → c.sub ≡ some user_id
    → get_current_user C now token s'.current ≡ err (unauthorized (text "User is inactive"))
unfolding get_current_user
deactivated_user_is_refused C user_id rq s u s' done off now token c good sub =
    let k = update_user-IsUpdated user_id rq s u s' done in
    let found =
      ap (λ (db : Db). find (λ x. x.id == user_id) db.users) k.current
      ∙ find_updated (λ (x : User). x.id) (updated rq) (λ x. refl) user_id s.current.users
          k.found in
    rw good (rw sub (rw found (rw off refl)))
