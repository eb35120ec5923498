-- ===== src/Users.antt =====
-- app/services/user_service.py, app/routers/users.py and app/schemas/user.py. The routes are given
-- after their dependencies.
pub mod Emails
use booking_api_service.Common.{
  ℕ, String, Option, List, [], ◌∷◌, map, find, any, length, update_where, Bool, true, false, not,
  ◌&&◌, ◌||◌, ◌==◌, str_eq,
}
use booking_api_service.Exceptions.{
  Result, ok, err, integrity_error, database_error, default_user_not_found,
}
use booking_api_service.Exceptions.Results
use booking_api_service.Action.{Action, pure, asks, gets, raise_if, ◌>>=◌, ◌>>◌}
use booking_api_service.Model.{UserRole, User, Db}
use booking_api_service.Session.{Session}
use booking_api_service.Sorting.{Sorting}
use booking_api_service.Patch.{Patch, is_null, patched}
use booking_api_service.Pagination.{
  PaginatedResponse, PaginationParams, pagination_params, is_past_offset, page_of, create,
}

pub record UserUpdate : Type 0 where
  pub email : Patch String
  pub is_active : Patch Bool
  pub role : Patch UserRole

pub record UserResponse : Type 0 where
  pub id : ℕ
  pub email : String
  pub role : UserRole
  pub is_active : Bool
  pub created_at : ℕ

-- `UserResponse.model_validate(user)`: the hashed password is left out. That its e-mail is an `EmailStr` is
-- tested around the endpoint (`content_is_valid` of Api).
abbrev pub user_response : User → UserResponse
user_response u = record {
  id = u.id;
  email = u.email;
  role = u.role;
  is_active = u.is_active;
  created_at = u.created_at;
}

unfoldable pub get_user_by_id : Db → ℕ → Option User
get_user_by_id db user_id = find (λ u. u.id == user_id) db.users

-- The route `GET /users/{user_id}`.
unfoldable pub get_user : Db → ℕ → Result UserResponse
unfolding get_user_by_id
get_user db user_id =
    Results.◌>>=◌ (Results.or_raise (get_user_by_id db user_id) default_user_not_found)
      λ u. ok (user_response u)

module _ (S : Sorting) where
  unfoldable pub list_users : Db → ℕ → ℕ → Result (List User × ℕ)
  list_users db page page_size =
      Results.◌>>◌ (Results.raise_if (is_past_offset page page_size) database_error) (
        Results.◌>>=◌ (page_of page page_size (S.order_by User (λ u. (u.id, 0)) db.users))
          λ users. ok (users, length db.users))

  -- The route `GET /users/`.
  unfoldable pub user_page : Db → ℕ → ℕ → Result (PaginatedResponse UserResponse)
  unfolding list_users
  user_page db page page_size = Results.◌>>=◌ (pagination_params page page_size) λ params.
      Results.◌>>=◌ (list_users db params.page params.page_size)
        λ found. ok (create (map user_response found.0) found.1 params.page params.page_size)

abbrev pub sets_null : UserUpdate → Bool
sets_null rq = is_null rq.email || is_null rq.is_active || is_null rq.role

-- Another row has the e-mail that the user is given: the column is unique.
abbrev pub email_taken : UserUpdate → User → List User → Bool
email_taken rq user users =
    any (λ u. not (u.id == user.id) && str_eq u.email (patched rq.email user.email)) users

abbrev pub updated : UserUpdate → User → User
updated rq user = record user {
  email = patched rq.email user.email;
  is_active = patched rq.is_active user.is_active;
  role = patched rq.role user.role;
}

abbrev pub with_users : List User → Session → Session
with_users users s = record s { current = record s.current { users = users } }

unfoldable pub write_user : ℕ → (User → User) → Action Session (Unit {0})
write_user user_id f s =
    (ok tt, with_users (update_where (λ u. u.id == user_id) f s.current.users) s)

-- The route `PATCH /users/{user_id}` has the fields that the request sets as `data`.
unfoldable pub update_user : ℕ → UserUpdate → Action Session User
unfolding write_user
update_user user_id rq = do
  user ←
      asks
        (λ s. Results.or_raise (find (λ u. u.id == user_id) s.current.users) default_user_not_found)
  raise_if (sets_null rq) integrity_error
  taken ← gets (λ s. email_taken rq user s.current.users)
  raise_if taken integrity_error
  write_user user_id (updated rq)
  pure (updated rq user)
