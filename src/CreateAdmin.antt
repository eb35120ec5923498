-- ===== src/CreateAdmin.antt =====
-- app/scripts/create_admin.py: the script that makes an administrator. The session of the script
-- is not that of a request: it commits itself.
pub mod Login
use booking_api_service.Common.{
  ℕ, String, Option, none, some, [], ◌∷◌, ◌++◌, true, ◌==◌, ltb, if◌then◌else◌, string_length,
}
use booking_api_service.Exceptions.{ok, err, database_error}
use booking_api_service.Action.{Action, ◌>>=◌, ◌>>◌, gets}
use booking_api_service.Model.{User, admin, max_email}
use booking_api_service.Session.{Database, Session, commit}
use booking_api_service.Users.{with_users, write_user}
use booking_api_service.Auth.{Crypto, user_by_email, new_user}

-- `existing_user.role = UserRole.admin` and `existing_user.is_active = True`
abbrev pub promoted : User → User
promoted u = record u { role = admin; is_active = true }

abbrev pub commit_all : Action Session (Unit {0})
commit_all s = (ok tt, commit s)

module _ (C : Crypto) (D : Database) where
  -- The insertion: an e-mail that is longer than its column is refused.
  abbrev pub add_admin : String → String → Action Session (Unit {0})
  add_admin email password s =
      if ltb max_email (string_length email) then (err database_error, s) else (
        ok tt,
        with_users (s.current.users ++ new_user C D email password admin s.current ∷ []) s,
      )

  unfoldable pub create_admin_with : String → String → Option User → Action Session (Unit {0})
  unfolding write_user
  create_admin_with email password none = do add_admin email password; commit_all
  create_admin_with email password (some existing_user) = do
    write_user existing_user.id promoted
    commit_all

  -- `create_admin`, in a session that has just been opened; an exception leaves it uncommitted.
  unfoldable pub create_admin : String → String → Action Session (Unit {0})
  unfolding create_admin_with
  create_admin email password = do
    existing_user ← gets (λ s. user_by_email s.current email)
    create_admin_with email password existing_user
