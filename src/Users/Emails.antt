-- ===== src/Users/Emails.antt =====
-- E-mails stay unique, and what an update of a user does.
use booking_api_service.Common.{
  ℕ, String, ◌≡◌, refl, ap, sym, ◌∙◌, inl, inr, ◌⊎◌, List, [], ◌∷◌, some, true, false, not, ◌&&◌,
  ◌==◌, any, find, find-In, update_where, In, In-update_where, arith, Bool-cases, Option-cases,
  ==_iff, str_eq, str_eq_iff,
}
use booking_api_service.Exceptions.{ok, err, integrity_error, status_code}
use booking_api_service.Model.{User}
use booking_api_service.Session.{Session}
use booking_api_service.Patch.{Patch, unset, null, value, patched}
use booking_api_service.Users.{UserUpdate, email_taken, updated, sets_null, update_user}

-- Users with the same e-mail have the same id.
abbrev pub HasUniqueEmails : List User → Type 0
HasUniqueEmails users = (a b : User) → In a users → In b users → a.email ≡ b.email → a.id ≡ b.id

not_taken :
    (id : ℕ) (email : String) (users : List User) (u : User)
    → any (λ x. not (x.id == id) && str_eq x.email email) users ≡ false
    → In u users
    → u.email ≡ email
    → u.id ≡ id
not_taken id email [] u h m e = elim m [ ]
not_taken id email (x ∷ users) u h (inl q) e =
    let same : str_eq x.email email ≡ true =
      (str_eq_iff x.email email).1 (sym (ap (λ (y : User). y.email) q) ∙ e) in
    ap (λ (y : User). y.id) q ∙ ground arith
not_taken id email (x ∷ users) u h (inr m) e = not_taken id email users u (ground arith) m e

patched-cases :
    (p : Patch String)
    → ((x : String) → patched p x ≡ x) ⊎ ((v : String) × ((x : String) → patched p x ≡ v))
patched-cases unset = inl (λ x. refl)
patched-cases null = inl (λ x. refl)
patched-cases (value v) = inr (v, λ x. refl)

only_user :
    (rq : UserUpdate) (user y b : User) (users : List User)
    → HasUniqueEmails users
    → In y users
    → In b users
    → y.id ≡ user.id
    → email_taken rq user users ≡ false
    → b.email ≡ patched rq.email y.email
    → b.id ≡ user.id
only_user rq user y b users valid i j same free e = elim (patched-cases rq.email) [
  | inl keep ↦ valid b y j i (e ∙ keep y.email) ∙ same
  | inr (v, new) ↦
      not_taken user.id (patched rq.email user.email) users b free j
        (e ∙ new y.email ∙ sym (new user.email))
]

update-HasUniqueEmails :
    (rq : UserUpdate) (user : User) (id : ℕ) (users : List User)
    → user.id ≡ id
    → email_taken rq user users ≡ false
    → HasUniqueEmails users
    → HasUniqueEmails (update_where (λ u. u.id == id) (updated rq) users)
update-HasUniqueEmails rq user id users is_id free valid a b m n e =
    let (y, i, p) = In-update_where (λ u. u.id == id) (updated rq) a users m in
    let (z, j, q) = In-update_where (λ u. u.id == id) (updated rq) b users n in
    elim (Bool-cases (y.id == id)) [
      | inl f ↦ elim (Bool-cases (z.id == id)) [
        | inl g ↦
            let k : a ≡ updated rq y = rw f at p in
            let l : b ≡ updated rq z = rw g at q in
            ap (λ (u : User). u.id) k
            ∙ (==_iff _ _).0 f
            ∙ sym ((==_iff _ _).0 g)
            ∙ sym (ap (λ (u : User). u.id) l)
        | inr g ↦
            let k : a ≡ updated rq y = rw f at p in
            let l : b ≡ z = rw g at q in
            let mail = sym (ap (λ (u : User). u.email) l) ∙ sym e ∙ ap (λ (u : User). u.email) k in
            let same = (==_iff _ _).0 f ∙ sym is_id in
            ap (λ (u : User). u.id) k
            ∙ same
            ∙ sym (only_user rq user y z users valid i j same free mail)
            ∙ sym (ap (λ (u : User). u.id) l)
      ]
      | inr f ↦ elim (Bool-cases (z.id == id)) [
        | inl g ↦
            let k : a ≡ y = rw f at p in
            let l : b ≡ updated rq z = rw g at q in
            let mail = sym (ap (λ (u : User). u.email) k) ∙ e ∙ ap (λ (u : User). u.email) l in
            let same = (==_iff _ _).0 g ∙ sym is_id in
            ap (λ (u : User). u.id) k
            ∙ only_user rq user z y users valid j i same free mail
            ∙ sym (ap (λ (u : User). u.id) l ∙ same)
        | inr g ↦
            let k : a ≡ y = rw f at p in
            let l : b ≡ z = rw g at q in
            ap (λ (u : User). u.id) k
            ∙ valid y z i j (sym (ap (λ (u : User). u.email) k) ∙ e ∙ ap (λ (u : User). u.email) l)
            ∙ sym (ap (λ (u : User). u.id) l)
      ]
    ]

module _ (user_id : ℕ) (rq : UserUpdate) (s : Session) where
  -- What a successful update has found and done.
  pub record IsUpdated (u : User) (s' : Session) : Type 0 where
    pub user : User
    pub found : find (λ u. u.id == user_id) s.current.users ≡ some user
    pub no_null : sets_null rq ≡ false
    pub free : email_taken rq user s.current.users ≡ false
    pub returned : u ≡ updated rq user
    pub current : s'.current ≡ record s.current {
      users = update_where (λ u. u.id == user_id) (updated rq) s.current.users;
    }
    pub committed : s'.committed ≡ s.committed

  pub update_user-IsUpdated :
      (u : User) (s' : Session) → update_user user_id rq s ≡ (ok u, s') → IsUpdated u s'
  unfolding update_user
  update_user-IsUpdated u s' done =
      elim (Option-cases (find (λ u. u.id == user_id) s.current.users)) [
        | inl e ↦ ground arith
        | inr (user, e) ↦ record {
          user = user;
          found = e;
          no_null = ground arith;
          free = ground arith;
          returned = ground arith;
          current = ground arith;
          committed = ground arith;
        }
      ]

  -- An update of a user that succeeds keeps the e-mails of the users unique.
  pub update_user-HasUniqueEmails :
      (u : User) (s' : Session)
      → HasUniqueEmails s.current.users
      → update_user user_id rq s ≡ (ok u, s')
      → HasUniqueEmails s'.current.users
  update_user-HasUniqueEmails u s' valid done =
      let k = update_user-IsUpdated u s' done in
      let (i, q) = find-In _ k.user s.current.users k.found in
      rw k.current
        (update-HasUniqueEmails rq k.user user_id s.current.users ((==_iff _ _).0 q) k.free valid)

  -- Giving a user an e-mail that another user has is not refused by the code but by the database:
  -- an existing user's update answers status 500, and nothing changes.
  pub update_user_duplicate :
      (user : User)
      → find (λ u. u.id == user_id) s.current.users ≡ some user
      → email_taken rq user s.current.users ≡ true
      → (update_user user_id rq s ≡ (err integrity_error, s)) × (status_code integrity_error ≡ 500)
  unfolding update_user status_code
  update_user_duplicate user e taken = elim (Bool-cases (sets_null rq)) [
    | inl n ↦ rw e (rw n (refl, refl))
    | inr n ↦ rw e (rw n (rw taken (refl, refl)))
  ]
