-- ===== src/Session.antt =====
-- app/db.py: a session, its transaction, and what the code relies on of the database.
use booking_api_service.Common.{ℕ, List, false, ◌≡◌, contains}
use booking_api_service.Exceptions.{Result, ok, err}
use booking_api_service.Action.{Action}
use booking_api_service.Model.{Db}

-- What the database decides: the key of a new row, given those of the table, and `now()`.
pub record Database : Type 0 where
  pub next_id : List ℕ → ℕ
  pub next_id-fresh : (ids : List ℕ) → contains (next_id ids) ids ≡ false
  pub now : ℕ

-- The tables as the last commit left them, and as the session sees them.
pub record Session : Type 0 where
  pub committed : Db
  pub current : Db

abbrev pub commit : Session → Session
commit s = record s { committed = s.current }

abbrev pub rollback : Session → Session
rollback s = record s { current = s.committed }

abbrev pub end_session : {A : Type 0} → Result A × Session → Result A × Session
end_session (ok a, s) = (ok a, commit s)
end_session (err e, s) = (err e, rollback s)

-- `get_db` around a request: commit after a normal end, roll back after an exception.
unfoldable pub with_session : {A : Type 0} → Action Session A → Action Session A
with_session handler s = end_session (handler s)
