-- ===== src/CreateAdmin/Login.antt =====
-- What the script of app/scripts/create_admin.py promises: its user is an administrator who can log
-- in.
use booking_api_service.Common.{
  ℕ, ◌==◌, ◌+◌, ◌*◌, ◌<◌, String, ◌≡◌, none, some, List, true, find, In, Option,
}
use booking_api_service.Exceptions.{Result, ok}
use booking_api_service.Settings.{Settings}
use booking_api_service.Model.{User, Db, admin}
use booking_api_service.Session.{Database, Session}
use booking_api_service.Auth.{
  Crypto, user_by_email, new_user, create_token, post_login, get_current_admin,
}
use booking_api_service.CreateAdmin.{promoted}

-- The id of a row leads to that row: the primary key.
abbrev pub HasKeys : List User → Type 0
HasKeys users = (u : User) → In u users → find (λ x. x.id == u.id) users ≡ some u

module _ (C : Crypto) (email_str : String → Option String) (settings : Settings) where
  -- Of a user that can be found, an active administrator: its password logs it in, and the token
  -- passes where an administrator is asked for.
  pub record IsAdmin (u : User) (email : String) (db : Db) : Type 0 where
    pub role : u.role ≡ admin
    pub active : u.is_active ≡ true
    pub by_email : user_by_email db email ≡ some u
    pub by_id : find (λ x. x.id == u.id) db.users ≡ some u

  module _ (D : Database) (email password : String) (s : Session) where
    abbrev added : User
    added = new_user C D email password admin s.current

    -- What the script has done when it does not fail.
    pub record IsMade (r : Result (Unit {0})) (s' : Session) : Type 0 where
      pub done : r ≡ ok tt
      pub settled : s'.committed ≡ s'.current
      pub u : User
      pub made : IsAdmin u email s'.committed
      pub was_known : (old : User) → user_by_email s.current email ≡ some old → u ≡ promoted old
      pub was_unknown :
          user_by_email s.current email ≡ none → C.verify password u.hashed_password ≡ true
      pub logs_in :
          (now : ℕ) (email_text known : String)
          → email_str email_text ≡ some email
          → C.verify known u.hashed_password ≡ true
          → post_login C email_str settings now s'.committed email_text known
            ≡ ok (create_token C settings now u)
      pub passes :
          (now later : ℕ)
          → later < now + settings.access_token_expire_minutes * 60
          → get_current_admin C later (create_token C settings now u) s'.committed ≡ ok u
