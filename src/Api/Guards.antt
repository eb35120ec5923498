-- ===== src/Api/Guards.antt =====
-- Who gets past the dependencies of app/core/dependencies.py.
use booking_api_service.Common.{
  ℕ, String, Option, none, some, str_eq, starts_with, Bool, true, false, ◌==◌, ==_iff, ◌≡◌, refl,
  ap, sym, ◌∙◌, ◌⊎◌, inl, inr, subst, find, find-In, In, arith, Bool-cases, Option-cases,
}
use booking_api_service.Exceptions.{Error, Result, ok, err, status_code, Detail, unauthorized}
use booking_api_service.Settings.{Settings}
use booking_api_service.Model.{UserRole, User, Db, user, admin}
use booking_api_service.Sorting.{Sorting}
use booking_api_service.Redis.{Redis}
use booking_api_service.Auth.{Crypto, Claims, get_current_user, get_current_admin}
use booking_api_service.Auth.Header.{get_token_from_header, remove_bearer}
use booking_api_service.Booking.Create.{World, with_world}
use booking_api_service.Api.{
  Outside, Route, user_request, needs_admin, authorize, handle_request, answer,
}

-- The header carries a token that decodes, to the id of a user in the tables who is active and, where
-- the route asks for one, an administrator.
pub record IsAllowed (C : Crypto) (clock : ℕ) (admin_only : Bool) (authorization : Option String)
    (db : Db) (u : User) : Type 0 where
  pub token : String
  pub has_token : get_token_from_header authorization ≡ ok token
  pub claims : Claims
  pub decoded : C.decode clock token ≡ some claims
  pub names : claims.sub ≡ some u.id
  pub is_user : In u db.users
  pub active : u.is_active ≡ true
  pub is_admin : admin_only ≡ true → u.role ≡ admin

abbrev pub IsRefusal : Bool → Error → Type 0
IsRefusal admin_only e = (status_code e ≡ 401) ⊎ ((status_code e ≡ 403) × (admin_only ≡ true))

-- A dependency gives a value that is right, or is a refusal.
abbrev Decides : {A : Type 0} → Bool → (A → Type 0) → Result A → Type 0
Decides {A} admin_only IsRight r =
    ((a : A) × (r ≡ ok a) × IsRight a) ⊎ ((e : Error) × (r ≡ err e) × IsRefusal admin_only e)

stricter : (e : Error) → IsRefusal false e → IsRefusal true e
stricter e (inl h) = inl h
stricter e (inr (h, k)) = inr (h, refl)

header_cases :
    (o : Option String)
    → ((t : String) × (get_token_from_header o ≡ ok t))
      ⊎ ((d : Detail) × (get_token_from_header o ≡ err (unauthorized d)))
unfolding get_token_from_header
header_cases none = inr (_, refl)
header_cases (some a) = elim (Bool-cases (str_eq a "")) [
  | inl x ↦ rw x (inr (_, refl))
  | inr x ↦ elim (Bool-cases (starts_with a "Bearer ")) [
    | inr y ↦ rw x (rw y (inr (_, refl)))
    | inl y ↦ elim (Bool-cases (str_eq (remove_bearer 0 a) "")) [
      | inl z ↦ rw x (rw y (rw z (inr (_, refl))))
      | inr z ↦ rw x (rw y (rw z (inl (_, refl))))
    ]
  ]
]

header-Decides :
    (admin_only : Bool) (authorization : Option String)
    → Decides admin_only
        (λ (token : String). get_token_from_header authorization ≡ ok token)
        (get_token_from_header authorization)
unfolding status_code
header-Decides admin_only authorization = elim (header_cases authorization) [
  | inl (t, e) ↦ inl (t, e, e)
  | inr (d, e) ↦ inr (unauthorized d, e, inl refl)
]

module _ (C : Crypto) (clock : ℕ) (token : String) (db : Db) where
  -- The user that the token names.
  record IsNamed (u : User) : Type 0 where
    pub claims : Claims
    pub decoded : C.decode clock token ≡ some claims
    pub names : claims.sub ≡ some u.id
    pub is_user : In u db.users
    pub active : u.is_active ≡ true

  current_user-Decides : Decides false IsNamed (get_current_user C clock token db)
  unfolding get_current_user status_code
  current_user-Decides = elim (Option-cases (C.decode clock token)) [
    | inl a ↦ rw a (inr (_, refl, inl refl))
    | inr (claims, a) ↦ elim (Option-cases claims.sub) [
      | inl b ↦ rw a (rw b (inr (_, refl, inl refl)))
      | inr (id, b) ↦ elim (Option-cases (find (λ (u : User). u.id == id) db.users)) [
        | inl c ↦ rw a (rw b (rw c (inr (_, refl, inl refl))))
        | inr (u, c) ↦ elim (Bool-cases u.is_active) [
          | inr d ↦ rw a (rw b (rw c (rw d (inr (_, refl, inl refl)))))
          | inl d ↦
              let (m, q) = find-In _ u db.users c in
              let named : IsNamed u = record {
                claims = claims;
                decoded = a;
                names = b ∙ ap some (sym ((==_iff _ _).0 q));
                is_user = m;
                active = d;
              } in
              inl (u, ground arith, named)
        ]
      ]
    ]
  ]

  admin-Decides :
      Decides true (λ u. IsNamed u × (u.role ≡ admin)) (get_current_admin C clock token db)
  unfolding get_current_admin status_code
  admin-Decides = elim current_user-Decides [
    | inr (e, a, r) ↦ rw a (inr (e, refl, stricter e r))
    | inl (u, a, n) ↦ elim (role_cases u.role) [
      | inl b ↦ inl (u, ground arith, (n, b))
      | inr b ↦ rw a (rw b (inr (_, refl, inr (refl, refl))))
    ]
  ]
    where
      role_cases : (r : UserRole) → (r ≡ admin) ⊎ (r ≡ user)
      role_cases user = inr refl
      role_cases admin = inl refl

module _ (C : Crypto) (clock : ℕ) (authorization : Option String) (db : Db) where
  allowed :
      (admin_only : Bool) (token : String) (u : User)
      → get_token_from_header authorization ≡ ok token
      → IsNamed C clock token db u
      → (admin_only ≡ true → u.role ≡ admin)
      → IsAllowed C clock admin_only authorization db u
  allowed admin_only token u t n a = record {
    token = token;
    has_token = t;
    claims = n.claims;
    decoded = n.decoded;
    names = n.names;
    is_user = n.is_user;
    active = n.active;
    is_admin = a;
  }

  pub authorize-Decides :
      (admin_only : Bool)
      → Decides admin_only
          (IsAllowed C clock admin_only authorization db)
          (authorize C clock admin_only authorization db)
  unfolding authorize
  authorize-Decides admin_only = elim (header-Decides admin_only authorization) [
    | inr (e, a, r) ↦ rw a (inr (e, refl, r))
    | inl (token, a, t) ↦ elim (Bool-cases admin_only) [
      | inl b ↦ elim (admin-Decides C clock token db) [
        | inl (u, c, (n, r)) ↦ rw a (rw b (inl (u, c, allowed true token u t n (λ _. r))))
        | inr (e, c, r) ↦ rw a (rw b (inr (e, c, r)))
      ]
      | inr b ↦ elim (current_user-Decides C clock token db) [
        | inl (u, c, n) ↦ rw a (rw b (inl (u, c, allowed false token u t n (λ x. ground arith))))
        | inr (e, c, r) ↦ rw a (rw b (inr (e, c, r)))
      ]
    ]
  ]

module _ (settings : Settings) (S : Sorting) (C : Crypto) (valid_email : String → Bool)
    (O : Outside) {R : Redis} (authorization : Option String) (route : Route) (w : World R) where
  -- In a session that has just been opened: a request to a route that is not public comes from an
  -- active user of the committed tables whom its token names, an administrator where the route asks
  -- for one; or it is answered with status 401, or with 403 where it asks for an administrator, and
  -- changes nothing.
  pub answer-IsAllowed :
      w.current ≡ w.committed
      → ((u : User) × IsAllowed C O.clock (needs_admin route) authorization w.committed u)
        ⊎ ((e : Error) × (answer settings S C valid_email O (user_request authorization route) w
              ≡ (err e, w))
            × ((status_code e ≡ 401) ⊎ ((status_code e ≡ 403) × (needs_admin route ≡ true))))
  unfolding answer handle_request with_world
  answer-IsAllowed settled =
      elim (authorize-Decides C O.clock authorization w.current (needs_admin route)) [
        | inl (u, a, k) ↦
            inl (
              u,
              subst (λ db. IsAllowed C O.clock (needs_admin route) authorization db u) settled k,
            )
        | inr (e, a, r) ↦ inr (
          e,
          rw a (
              ap
                (λ db.
                  (err e, record w { session = record { committed = w.committed; current = db } }))
                (sym settled)),
          r,
        )
      ]
