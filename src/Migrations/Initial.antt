-- ===== src/Migrations/Initial.antt =====
-- `upgrade` and `downgrade` of the first migration.
use booking_api_service.Common.{String, List, [], ◌∷◌, true, false}
use booking_api_service.Migrations.{
  ColumnType, integer, boolean, timestamp, string, numeric, Column, ForeignKey, Table, Operation,
  create_table, create_index, drop_table,
}

abbrev column : String → ColumnType → Column
column name type = record { name = name; type = type; nullable = false; has_default = false }

-- `server_default=sa.text("now()")`
abbrev timestamp_column : String → Column
timestamp_column name = record {
  name = name;
  type = timestamp;
  nullable = false;
  has_default = true;
}

abbrev foreign_key : String → String → ForeignKey
foreign_key column table = record { column = column; table = table; referred = "id" }

abbrev index : String → String → List String → Operation
index name table columns =
    create_index (record { name = name; table = table; columns = columns; unique = false })

abbrev pub users : Table
users = record {
  name = "users";
  columns =
      column "id" integer
      ∷ column "email" (string 255)
      ∷ column "hashed_password" (string 255)
      ∷ column "role" (string 20)
      ∷ column "is_active" boolean
      ∷ timestamp_column "created_at"
      ∷ timestamp_column "updated_at"
      ∷ [];
  foreign_keys = [];
  primary_key = "id";
  unique_together = ("email" ∷ []) ∷ [];
}

abbrev pub halls : Table
halls = record {
  name = "halls";
  columns =
      column "id" integer
      ∷ column "name" (string 100)
      ∷ column "capacity" integer
      ∷ column "hourly_rate" (numeric 10 2)
      ∷ column "is_active" boolean
      ∷ timestamp_column "created_at"
      ∷ timestamp_column "updated_at"
      ∷ [];
  foreign_keys = [];
  primary_key = "id";
  unique_together = [];
}

abbrev pub seats : Table
seats = record {
  name = "seats";
  columns =
      column "id" integer
      ∷ column "hall_id" integer
      ∷ column "row" integer
      ∷ column "number" integer
      ∷ column "is_active" boolean
      ∷ [];
  foreign_keys = foreign_key "hall_id" "halls" ∷ [];
  primary_key = "id";
  unique_together = ("hall_id" ∷ "row" ∷ "number" ∷ []) ∷ [];
}

abbrev pub bookings : Table
bookings = record {
  name = "bookings";
  columns =
      column "id" integer
      ∷ column "user_id" integer
      ∷ column "hall_id" integer
      ∷ column "start_time" timestamp
      ∷ column "end_time" timestamp
      ∷ column "total_price" (numeric 10 2)
      ∷ column "status" (string 20)
      ∷ timestamp_column "created_at"
      ∷ timestamp_column "updated_at"
      ∷ [];
  foreign_keys = foreign_key "user_id" "users" ∷ foreign_key "hall_id" "halls" ∷ [];
  primary_key = "id";
  unique_together = [];
}

abbrev pub booking_seats : Table
booking_seats = record {
  name = "booking_seats";
  columns = column "id" integer ∷ column "booking_id" integer ∷ column "seat_id" integer ∷ [];
  foreign_keys = foreign_key "booking_id" "bookings" ∷ foreign_key "seat_id" "seats" ∷ [];
  primary_key = "id";
  unique_together = [];
}

unfoldable pub upgrade : List Operation
upgrade =
    create_table users
    ∷ index "ix_users_role" "users" ("role" ∷ [])
    ∷ create_table halls
    ∷ index "ix_halls_name" "halls" ("name" ∷ [])
    ∷ index "ix_halls_is_active" "halls" ("is_active" ∷ [])
    ∷ create_table seats
    ∷ index "ix_seats_hall_id" "seats" ("hall_id" ∷ [])
    ∷ index "ix_seats_is_active" "seats" ("is_active" ∷ [])
    ∷ create_table bookings
    ∷ index "ix_bookings_user_id" "bookings" ("user_id" ∷ [])
    ∷ index "ix_bookings_hall_id" "bookings" ("hall_id" ∷ [])
    ∷ index "ix_bookings_start_time" "bookings" ("start_time" ∷ [])
    ∷ index "ix_bookings_end_time" "bookings" ("end_time" ∷ [])
    ∷ index "ix_bookings_status" "bookings" ("status" ∷ [])
    ∷ index "ix_bookings_hall_time" "bookings" ("hall_id" ∷ "start_time" ∷ "end_time" ∷ [])
    ∷ create_table booking_seats
    ∷ index "ix_booking_seats_booking_id" "booking_seats" ("booking_id" ∷ [])
    ∷ index "ix_booking_seats_seat_id" "booking_seats" ("seat_id" ∷ [])
    ∷ []

unfoldable pub downgrade : List Operation
downgrade =
    drop_table "booking_seats"
    ∷ drop_table "bookings"
    ∷ drop_table "seats"
    ∷ drop_table "halls"
    ∷ drop_table "users"
    ∷ []
