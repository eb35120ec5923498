-- ===== src/Auth.antt =====
-- app/services/auth_service.py, app/core/security.py, app/core/dependencies.py and the routes of
-- app/routers/auth.py. The claims `sub` and `role` are kept as the values that `str(user.id)` and
-- the role's name print, so that `int(sub)` does not fail on a token of this service.
pub mod Header
pub mod Login
use booking_api_service.Common.{
  ℕ, ◌+◌, ◌*◌, ltb, String, Option, none, some, List, [], ◌∷◌, ◌++◌, map, find, Bool, true, false,
  not, ◌≡◌, ◌==◌, str_eq, if◌then◌else◌,
}
use booking_api_service.Exceptions.{
  Error, Result, ok, err, text, unauthorized, value_error, http, validation_error,
}
use booking_api_service.Exceptions.Results
use booking_api_service.Settings.{Settings}
use booking_api_service.Action.{Action, pure, asks, gets, raise_if, ◌>>=◌, ◌>>◌}
use booking_api_service.Model.{UserRole, User, Db, user, admin}
use booking_api_service.Session.{Database, Session}
use booking_api_service.Users.{with_users}

-- The payload of a token. Times are in seconds.
pub record Claims : Type 0 where
  pub sub : Option ℕ
  pub email : String
  pub role : UserRole
  pub exp : ℕ

-- What the code relies on of passlib and jose: a password verifies against its own hash, and a token
-- that was signed here decodes to its payload until it expires.
pub record Crypto : Type 0 where
  pub hash : String → String
  pub verify : String → String → Bool
  pub encode : Claims → String
  pub decode : ℕ → String → Option Claims
  pub verify-hash : (password : String) → verify password (hash password) ≡ true
  pub decode-encode :
      (now : ℕ) (c : Claims) → decode now (encode c) ≡ (if ltb now c.exp then some c else none)

pub record RegisterRequest : Type 0 where
  pub email : String
  pub password : String

pub record RegisterResponse : Type 0 where
  pub id : ℕ
  pub email : String
  pub role : UserRole

abbrev pub user_by_email : Db → String → Option User
user_by_email db email = find (λ u. str_eq u.email email) db.users

abbrev pub is_admin : UserRole → Bool
is_admin user = false
is_admin admin = true

abbrev pub is_found : Option User → Bool
is_found none = false
is_found (some u) = true

-- What the service puts into a token; the time is added when it is made.
pub record TokenData : Type 0 where
  pub sub : ℕ
  pub email : String
  pub role : UserRole

-- app/core/security.py
module _ (C : Crypto) where
  abbrev pub hash_password : String → String
  hash_password password = C.hash password

  abbrev pub verify_password : String → String → Bool
  verify_password plain_password hashed_password = C.verify plain_password hashed_password

  -- At the time `now`.
  abbrev pub create_access_token : Settings → ℕ → TokenData → String
  create_access_token settings now token_data = C.encode (record {
    sub = some token_data.sub;
    email = token_data.email;
    role = token_data.role;
    exp = now + settings.access_token_expire_minutes * 60;
  })

  -- `except JWTError as e: raise ValueError(...)`
  abbrev pub decode_access_token : ℕ → String → Result Claims
  decode_access_token now token =
      Results.or_raise (C.decode now token) (value_error (text "Invalid token"))

module _ (C : Crypto) where
  unfoldable pub new_user : Database → String → String → UserRole → Db → User
  new_user D email password role db = record {
    id = D.next_id (map (λ u. u.id) db.users);
    email = email;
    hashed_password = hash_password C password;
    role = role;
    is_active = true;
    created_at = D.now;
  }

  unfoldable pub register_user : Database → String → String → UserRole → Action Session User
  unfolding new_user
  register_user D email password role = do
    existing ← gets (λ s. is_found (user_by_email s.current email))
    raise_if existing (value_error (text "Email already registered"))
    added ← gets (λ s. new_user D email password role s.current)
    λ s. (ok tt, with_users (s.current.users ++ added ∷ []) s)
    pure added

  unfoldable pub authenticate_user : Db → String → String → Result User
  authenticate_user db email password =
      Results.◌>>=◌
        (Results.or_raise (user_by_email db email)
          (unauthorized (text "Invalid email or password")))
        λ u.
          Results.◌>>◌
            (Results.raise_if (not (verify_password C password u.hashed_password))
              (unauthorized (text "Invalid email or password")))
            (Results.◌>>◌
              (Results.raise_if (not u.is_active) (unauthorized (text "User is inactive"))) (ok u))

  -- `create_access_token` with the claims of the user, at the time `now`.
  unfoldable pub create_token : Settings → ℕ → User → String
  create_token settings now u =
      create_access_token C settings now (record { sub = u.id; email = u.email; role = u.role })

  -- `except ValueError as e: raise UnauthorizedError(str(e))`
  unfoldable pub as_unauthorized : {A : Type 0} → Result A → Result A
  as_unauthorized (err (value_error d)) = err (unauthorized d)
  as_unauthorized r = r

  -- The route `POST /auth/signup`.
  unfoldable pub signup : Database → RegisterRequest → Action Session RegisterResponse
  unfolding register_user as_unauthorized
  signup D rq = do
    u ← λ s. let (r, s') = register_user D rq.email rq.password user s in (as_unauthorized r, s')
    pure (record { id = u.id; email = u.email; role = u.role })

  -- `except UnauthorizedError: raise` and `except Exception: raise UnauthorizedError(...)`
  unfoldable pub hide_error : {A : Type 0} → Result A → Result A
  hide_error (ok a) = ok a
  hide_error (err (unauthorized d)) = err (unauthorized d)
  hide_error (err _) = err (unauthorized (text "Invalid email or password"))

  -- The route `POST /auth/login`, which answers with the token; `email` is what `EmailStr` has made of the
  -- text that was sent (`post_login`).
  unfoldable pub login : Settings → ℕ → Db → String → String → Result String
  unfolding authenticate_user create_token hide_error
  login settings now db email password =
      hide_error
        (Results.◌>>=◌ (authenticate_user db email password) λ u. ok (create_token settings now u))

  -- The body of that request: its e-mail is an `EmailStr`, a text that the framework answers with 422, or
  -- of which it hands on the normal form.
  unfoldable pub post_login :
      (email_str : String → Option String) → Settings → ℕ → Db → String → String → Result String
  unfolding login
  post_login email_str settings now db email_text password =
      Results.◌>>=◌ (Results.or_raise (email_str email_text) validation_error)
        λ email. login settings now db email password

  -- `except ValueError: raise UnauthorizedError(...)`
  abbrev pub as_invalid_token : {A : Type 0} → Result A → Result A
  as_invalid_token (err (value_error d)) = err (unauthorized (text "Invalid or expired token"))
  as_invalid_token r = r

  unfoldable pub get_current_user : ℕ → String → Db → Result User
  get_current_user now token db =
      Results.◌>>=◌ (as_invalid_token (decode_access_token C now token)) λ payload.
        Results.◌>>=◌ (Results.or_raise payload.sub (unauthorized (text "Invalid token payload")))
          λ user_id.
            Results.◌>>=◌
              (Results.or_raise (find (λ u. u.id == user_id) db.users)
                (unauthorized (text "User not found")))
              λ u.
                Results.◌>>◌
                  (Results.raise_if (not u.is_active) (unauthorized (text "User is inactive")))
                  (ok u)

  unfoldable pub get_current_admin : ℕ → String → Db → Result User
  unfolding get_current_user
  get_current_admin now token db = Results.◌>>=◌ (get_current_user now token db) λ u.
      Results.◌>>◌
        (Results.raise_if (not (is_admin u.role)) (http 403 (text "Admin access required"))) (ok u)
