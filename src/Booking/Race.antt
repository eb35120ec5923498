-- ===== src/Booking/Race.antt =====
-- `create_booking` of app/services/booking_service.py by several workers at once, each in a session
-- of its own (app/db.py). A session reads what the others have committed and not what they have
-- pending, and commits after the call has returned, when `get_db` resumes. A lock may run out.
pub mod Exclusion
pub mod Ownership
pub mod Overlap
use booking_api_service.Common.{
  ℕ, ◌≡◌, ◌≤◌, String, List, [], none, Bool, true, false, ◌==◌, if◌then◌else◌, contains,
}
use booking_api_service.Exceptions.{Error, ok, err}
use booking_api_service.Settings.{Settings}
use booking_api_service.Model.{User, Hall, Booking, Db, max_money}
use booking_api_service.Schemas.{BookingCreate}
use booking_api_service.Session.{Database}
use booking_api_service.Redis.{Redis, Key}
use booking_api_service.Redis.Lock.{acquire_lock, release_lock}
use booking_api_service.Booking.Conflicts.{check_seat_conflicts}
use booking_api_service.Booking.Create.{admit, new_booking, insert_booking, lock_key}
use booking_api_service.Booking.Exclusive.{booking_ids}

-- Where a worker stands. From `holding` to the release it is in the `try` block.
pub data Pc : Type 0 where
  idle finished failing : Pc
  admitted holding : Hall → User → Pc
  booked released : Booking → Pc

abbrev pub is_holding : Pc → Bool
is_holding (holding _ _) = true
is_holding (booked _) = true
is_holding failing = true
is_holding _ = false

-- The booking that a worker has written and not yet committed.
abbrev pub has_pending : ℕ → Pc → Bool
has_pending id (booked b) = b.id == id
has_pending id (released b) = b.id == id
has_pending id _ = false

abbrev pub update : (ℕ → Pc) → ℕ → Pc → ℕ → Pc
update pc i p j = if i == j then p else pc j

-- The request that each worker serves, and its token.
pub record Job : Type 0 where
  pub user_id : ℕ
  pub rq : BookingCreate
  pub token : String

module _ (settings : Settings) (D : Database) (R : Redis) (jobs : ℕ → Job) where
  pub record System : Type 0 where
    pub committed : Db
    pub redis : R.Store
    pub pc : ℕ → Pc

  abbrev pub key_of : ℕ → Key
  key_of i = lock_key (jobs i).rq

  -- The row that worker `i` adds, with the id that the sequence of the table gives out.
  abbrev pub row_of : ℕ → Hall → Db → ℕ → Booking
  row_of i hall db id = record (new_booking D (jobs i).user_id hall (jobs i).rq db) { id = id }

  pub data Step (s : System) : System → Type 0 where
    passes :
        (i : ℕ) (hall : Hall) (user : User)
        → s.pc i ≡ idle
        → admit settings (jobs i).user_id (jobs i).rq s.committed ≡ ok (hall, user)
        → Step s (record s { pc = update s.pc i (admitted hall user) })
    locks :
        (i : ℕ) (hall : Hall) (user : User) (redis : R.Store)
        → s.pc i ≡ admitted hall user
        → acquire_lock R s.redis (key_of i) (jobs i).token settings.redis_lock_timeout
          ≡ (redis, true)
        → Step s (record s { redis = redis; pc = update s.pc i (holding hall user) })
    gives_up :
        (i : ℕ) (hall : Hall) (user : User) (redis : R.Store)
        → s.pc i ≡ admitted hall user
        → acquire_lock R s.redis (key_of i) (jobs i).token settings.redis_lock_timeout
          ≡ (redis, false)
        → Step s (record s { redis = redis; pc = update s.pc i finished })
    books :
        (i : ℕ) (hall : Hall) (user : User) (id : ℕ)
        → s.pc i ≡ holding hall user
        → check_seat_conflicts s.committed
            (jobs i).rq.hall_id
            (jobs i).rq.seat_ids
            (jobs i).rq.start_time
            (jobs i).rq.end_time
            none
          ≡ ok []
        → contains id (booking_ids s.committed) ≡ false
        → ((j : ℕ) → has_pending id (s.pc j) ≡ false)
        → (row_of i hall s.committed id).total_price ≤ max_money
        → Step s (record s { pc = update s.pc i (booked (row_of i hall s.committed id)) })
    fails :
        (i : ℕ) (hall : Hall) (user : User)
        → s.pc i ≡ holding hall user
        → Step s (record s { pc = update s.pc i failing })
    releases :
        (i : ℕ) (b : Booking)
        → s.pc i ≡ booked b
        → Step s (record s {
          redis = (release_lock R s.redis (key_of i) (jobs i).token).0;
          pc = update s.pc i (released b);
        })
    unwinds :
        (i : ℕ)
        → s.pc i ≡ failing
        → Step s (record s {
          redis = (release_lock R s.redis (key_of i) (jobs i).token).0;
          pc = update s.pc i finished;
        })
    commits :
        (i : ℕ) (b : Booking)
        → s.pc i ≡ released b
        → Step s (record s {
          committed = insert_booking D b (jobs i).rq.seat_ids s.committed;
          pc = update s.pc i finished;
        })
    -- After `redis_lock_timeout` seconds, or any other key.
    expires : (key : Key) → Step s (record s { redis = R.del s.redis key })

  pub data Reach (s : System) : System → Type 0 where
    here : Reach s s
    next : {t u : System} → Reach s t → Step t u → Reach s u
