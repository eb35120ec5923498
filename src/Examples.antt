-- ===== src/Examples.antt =====
-- A small library for the examples: a database, a Redis server, a hall with three seats, two
-- users, and the tables before and after a booking.
mod Slots
mod Bookings
mod Races
mod Reads
mod Tokens
mod Mail
mod People
mod Startup
mod Requests
mod Answers
mod Upgrades
use booking_api_service.Common.{
  ℕ, suc, ◌+◌, ◌<◌, ◌≡◌, refl, String, List, [], ◌∷◌, Option, none, Bool, true, false, ◌==◌,
  contains, arith,
}
use booking_api_service.Exceptions.{Result, ok}
use booking_api_service.Settings.{default_settings}
use booking_api_service.Datetime.{combine}
use booking_api_service.Model.{
  UserRole, User, Hall, Seat, Booking, BookingSeat, Db, user, confirmed,
}
use booking_api_service.Schemas.{BookingCreate}
use booking_api_service.Session.{Database, Session}
use booking_api_service.Kafka.{Broker, Event}
use booking_api_service.Redis.{table_redis}
use booking_api_service.Booking.Create.{World, new_booking, insert_booking}

abbrev sum : List ℕ → ℕ
sum [] = 0
sum (n ∷ ns) = n + sum ns

above_sum : (n : ℕ) (ns : List ℕ) → sum ns < n → contains n ns ≡ false
above_sum n [] h = refl
above_sum n (m ∷ ns) h = ground (arith, above_sum n ns (omega arith))

abbrev small_database : Database
small_database = record {
  next_id = λ ids. suc (sum ids);
  next_id-fresh = λ ids. above_sum (suc (sum ids)) ids (omega arith);
  now = 100;
}

abbrev open_broker : Broker
open_broker _ = true

abbrev alice : User
alice = record {
  id = 1;
  email = "alice@example.com";
  hashed_password = "x";
  role = user;
  is_active = true;
  created_at = 0;
}

abbrev bob : User
bob = record {
  id = 2;
  email = "bob@example.com";
  hashed_password = "y";
  role = user;
  is_active = true;
  created_at = 1;
}

abbrev hall : Hall
hall = record {
  id = 1;
  name = "Blue";
  capacity = 3;
  hourly_rate = 1500;
  is_active = true;
  created_at = 0;
}

abbrev seat : ℕ → Seat
seat n = record { id = n; hall_id = 1; row = 1; number = n; is_active = true }

abbrev empty_db : Db
empty_db = record {
  users = alice ∷ bob ∷ [];
  halls = hall ∷ [];
  seats = seat 1 ∷ seat 2 ∷ seat 3 ∷ [];
  bookings = [];
  booking_seats = [];
}

abbrev request : List ℕ → ℕ → ℕ → BookingCreate
request seat_ids from to = record {
  hall_id = 1;
  seat_ids = seat_ids;
  start_time = combine 700000 from;
  end_time = combine 700000 to;
}

-- The table after Alice has booked the seats 1 and 2 from ten to twelve.
abbrev booking : Booking
booking = record {
  id = 1;
  user_id = 1;
  hall_id = 1;
  start_time = combine 700000 10;
  end_time = combine 700000 12;
  total_price = 3000;
  status = confirmed;
  created_at = 100;
}

abbrev booked_db : Db
booked_db = record empty_db {
  bookings = booking ∷ [];
  booking_seats =
      record { id = 1; booking_id = 1; seat_id = 1 }
      ∷ record { id = 2; booking_id = 1; seat_id = 2 }
      ∷ [];
}

abbrev world_of : Db → World table_redis
world_of db = record {
  session = record { committed = db; current = db };
  redis = λ k. none;
  topic = [];
}
