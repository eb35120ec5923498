-- ===== src/Booking/Create.antt =====
-- `create_booking` of app/services/booking_service.py.
mod Admit
pub mod Outcome
pub mod Effects
pub mod Safe
pub mod State
pub mod Succeeds
pub use State.{World}
unfoldable pub use State.{with_world, publish}
unfoldable pub use Admit.{admit}
use booking_api_service.Common.{
  ℕ, String, List, [], ◌∷◌, ◌++◌, map, none, Bool, not, ltb, if◌then◌else◌,
}
use booking_api_service.Exceptions.{Result, ok, err, text, booking_conflict, database_error}
use booking_api_service.Action.{Action, pure, gets, asks, raise_if, ◌>>=◌, ◌>>◌, try_finally}
use booking_api_service.Settings.{Settings}
use booking_api_service.Model.{User, Hall, Booking, BookingSeat, Db, confirmed, max_money}
use booking_api_service.Schemas.{BookingCreate}
use booking_api_service.Session.{Database, Session}
use booking_api_service.Kafka.{Event, booking_created, Broker, send_booking_event}
use booking_api_service.Redis.{Redis, Key, lock}
use booking_api_service.Redis.Lock.{acquire_lock, release_lock}
use booking_api_service.Booking.Slot.{booked_hours, calculate_price}
use booking_api_service.Booking.Conflicts.{check_seat_conflicts}

module _ (D : Database) where
  -- `for seat_id in seat_ids: db.add(BookingSeat(...))` and the flush that gives the rows their ids
  unfoldable pub add_booking_seats : ℕ → List ℕ → List BookingSeat → List BookingSeat
  add_booking_seats booking_id [] rows = rows
  add_booking_seats booking_id (seat_id ∷ seat_ids) rows = add_booking_seats booking_id seat_ids (
      rows
      ++ record {
        id = D.next_id (map (λ r. r.id) rows);
        booking_id = booking_id;
        seat_id = seat_id;
      }
        ∷ [])

  unfoldable pub new_booking : ℕ → Hall → BookingCreate → Db → Booking
  new_booking user_id hall rq db = record {
    id = D.next_id (map (λ b. b.id) db.bookings);
    user_id = user_id;
    hall_id = rq.hall_id;
    start_time = rq.start_time;
    end_time = rq.end_time;
    total_price = calculate_price hall.hourly_rate (booked_hours rq.start_time rq.end_time);
    status = confirmed;
    created_at = D.now;
  }

  unfoldable pub insert_booking : Booking → List ℕ → Db → Db
  insert_booking booking seat_ids db = record db {
    bookings = db.bookings ++ booking ∷ [];
    booking_seats = add_booking_seats booking.id seat_ids db.booking_seats;
  }

-- `lock:hall:{hall_id}:{date_str}:{hour}` of the start time
abbrev pub lock_key : BookingCreate → Key
lock_key rq = lock rq.hall_id rq.start_time.date rq.start_time.hour

-- The event of a new booking.
unfoldable pub created_event : ℕ → Hall → User → Booking → Event
created_event user_id hall user booking = booking_created (record {
  booking_id = booking.id;
  user_id = user_id;
  user_email = user.email;
  hall_name = hall.name;
  start_time = booking.start_time;
  end_time = booking.end_time;
  total_price = booking.total_price;
})

module _ (settings : Settings) (D : Database) (R : Redis) (broker : Broker) where
  -- The flushes of the new rows: a price that the column cannot hold is refused.
  unfoldable pub flush_booking : Booking → List ℕ → Action (World R) (Unit {0})
  flush_booking booking seat_ids w =
      if ltb max_money booking.total_price then (err database_error, w) else (
        ok tt,
        record w {
          session = record w.session { current = insert_booking D booking seat_ids w.current };
        },
      )

  -- The body of the `try`, under the lock.
  unfoldable pub book : ℕ → Hall → User → BookingCreate → Action (World R) Booking
  unfolding flush_booking publish created_event new_booking
  book user_id hall user rq = do
    asks (λ w. check_seat_conflicts w.current rq.hall_id rq.seat_ids rq.start_time rq.end_time none)
    booking ← gets (λ w. new_booking D user_id hall rq w.current)
    flush_booking booking rq.seat_ids
    publish broker (created_event user_id hall user booking)
    pure booking

  unfoldable pub acquire : Key → String → Action (World R) Bool
  acquire key token w =
      let (redis, got) = acquire_lock R w.redis key token settings.redis_lock_timeout in
      (ok got, record w { redis = redis })

  unfoldable pub release : Key → String → World R → World R
  release key token w = record w { redis = (release_lock R w.redis key token).0 }

  -- The token is the `uuid4().hex` of the call.
  unfoldable pub create_booking : String → ℕ → BookingCreate → Action (World R) Booking
  unfolding acquire release book
  create_booking token user_id rq = do
    (hall, user) ← asks (λ w. admit settings user_id rq w.current)
    got ← acquire (lock_key rq) token
    raise_if (not got) (booking_conflict (text "Another booking in progress for this time slot"))
    try_finally (book user_id hall user rq) (release (lock_key rq) token)
