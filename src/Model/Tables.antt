-- ===== src/Model/Tables.antt =====
-- app/models/*.py: one record for each mapped class, a list of rows for each table. Money is in
-- cents, as `Numeric(10, 2)` stores it; a timestamp is a number that only serves to order rows.
-- The relationships are not fields: they are queries over the other tables.
use booking_api_service.Common.{ℕ, String, Bool, List}
use booking_api_service.Datetime.{Datetime}

-- The largest numbers that an `Integer` column and `Numeric(10, 2)`, in cents, hold.
abbrev pub max_integer : ℕ
max_integer = 2147483647

abbrev pub max_money : ℕ
max_money = 9999999999

-- The length of `users.email`.
abbrev pub max_email : ℕ
max_email = 255

pub data UserRole : Type 0 where
  user admin : UserRole

pub data BookingStatus : Type 0 where
  confirmed cancelled : BookingStatus

pub record User : Type 0 where
  pub id : ℕ
  pub email : String
  pub hashed_password : String
  pub role : UserRole
  pub is_active : Bool
  pub created_at : ℕ

pub record Hall : Type 0 where
  pub id : ℕ
  pub name : String
  pub capacity : ℕ
  pub hourly_rate : ℕ
  pub is_active : Bool
  pub created_at : ℕ

pub record Seat : Type 0 where
  pub id : ℕ
  pub hall_id : ℕ
  pub row : ℕ
  pub number : ℕ
  pub is_active : Bool

pub record Booking : Type 0 where
  pub id : ℕ
  pub user_id : ℕ
  pub hall_id : ℕ
  pub start_time : Datetime
  pub end_time : Datetime
  pub total_price : ℕ
  pub status : BookingStatus
  pub created_at : ℕ

pub record BookingSeat : Type 0 where
  pub id : ℕ
  pub booking_id : ℕ
  pub seat_id : ℕ

pub record Db : Type 0 where
  pub users : List User
  pub halls : List Hall
  pub seats : List Seat
  pub bookings : List Booking
  pub booking_seats : List BookingSeat

abbrev pub is_confirmed : BookingStatus → Bool
is_confirmed confirmed = Bool.true
is_confirmed cancelled = Bool.false
