-- ===== src/Migrations/Models.antt =====
-- The tables that app/models declares, in `Base.metadata`, in an order in which each foreign key refers
-- to an earlier one.
use booking_api_service.Common.{String, List, [], ◌∷◌, true, false}
use booking_api_service.Migrations.{
  ColumnType, integer, boolean, timestamp, string, numeric, Column, ForeignKey, Table, Index,
}

-- A class of app/models.
pub record Mapped : Type 0 where
  pub table : Table
  pub indexes : List Index

abbrev mapped_column : String → ColumnType → Column
mapped_column name type = record { name = name; type = type; nullable = false; has_default = false }

-- `ForeignKey("users.id", ondelete="CASCADE")`
abbrev foreign_key_to : String → String → ForeignKey
foreign_key_to column table = record { column = column; table = table; referred = "id" }

abbrev plain_index : String → String → List String → Index
plain_index name table columns = record {
  name = name;
  table = table;
  columns = columns;
  unique = false;
}

-- `TimestampMixin` of app/models/base.py
abbrev pub timestamp_mixin : List Column
timestamp_mixin =
    record { name = "created_at"; type = timestamp; nullable = false; has_default = true }
    ∷ record { name = "updated_at"; type = timestamp; nullable = false; has_default = true }
    ∷ []

-- A column with `unique=True, index=True` gets a unique index.
abbrev pub user_table : Mapped
user_table = record {
  table = record {
    name = "users";
    columns =
        mapped_column "id" integer
        ∷ mapped_column "email" (string 255)
        ∷ mapped_column "hashed_password" (string 255)
        ∷ mapped_column "role" (string 20)
        ∷ mapped_column "is_active" boolean
        ∷ timestamp_mixin;
    foreign_keys = [];
    primary_key = "id";
    unique_together = [];
  };
  indexes =
      plain_index "ix_users_role" "users" ("role" ∷ [])
      ∷ record { name = "ix_users_email"; table = "users"; columns = "email" ∷ []; unique = true }
      ∷ [];
}

abbrev pub hall_table : Mapped
hall_table = record {
  table = record {
    name = "halls";
    columns =
        mapped_column "id" integer
        ∷ mapped_column "name" (string 100)
        ∷ mapped_column "capacity" integer
        ∷ mapped_column "hourly_rate" (numeric 10 2)
        ∷ mapped_column "is_active" boolean
        ∷ timestamp_mixin;
    foreign_keys = [];
    primary_key = "id";
    unique_together = [];
  };
  indexes =
      plain_index "ix_halls_name" "halls" ("name" ∷ [])
      ∷ plain_index "ix_halls_is_active" "halls" ("is_active" ∷ [])
      ∷ [];
}

abbrev pub seat_table : Mapped
seat_table = record {
  table = record {
    name = "seats";
    columns =
        mapped_column "id" integer
        ∷ mapped_column "hall_id" integer
        ∷ mapped_column "row" integer
        ∷ mapped_column "number" integer
        ∷ mapped_column "is_active" boolean
        ∷ [];
    foreign_keys = foreign_key_to "hall_id" "halls" ∷ [];
    primary_key = "id";
    unique_together = ("hall_id" ∷ "row" ∷ "number" ∷ []) ∷ [];
  };
  indexes =
      plain_index "ix_seats_hall_id" "seats" ("hall_id" ∷ [])
      ∷ plain_index "ix_seats_is_active" "seats" ("is_active" ∷ [])
      ∷ [];
}

abbrev pub booking_table : Mapped
booking_table = record {
  table = record {
    name = "bookings";
    columns =
        mapped_column "id" integer
        ∷ mapped_column "user_id" integer
        ∷ mapped_column "hall_id" integer
        ∷ mapped_column "start_time" timestamp
        ∷ mapped_column "end_time" timestamp
        ∷ mapped_column "total_price" (numeric 10 2)
        ∷ mapped_column "status" (string 20)
        ∷ timestamp_mixin;
    foreign_keys = foreign_key_to "user_id" "users" ∷ foreign_key_to "hall_id" "halls" ∷ [];
    primary_key = "id";
    unique_together = [];
  };
  indexes =
      plain_index "ix_bookings_user_id" "bookings" ("user_id" ∷ [])
      ∷ plain_index "ix_bookings_hall_id" "bookings" ("hall_id" ∷ [])
      ∷ plain_index "ix_bookings_start_time" "bookings" ("start_time" ∷ [])
      ∷ plain_index "ix_bookings_end_time" "bookings" ("end_time" ∷ [])
      ∷ plain_index "ix_bookings_status" "bookings" ("status" ∷ [])
      ∷ plain_index "ix_bookings_hall_time" "bookings" ("hall_id" ∷ "start_time" ∷ "end_time" ∷ [])
      ∷ [];
}

abbrev pub booking_seat_table : Mapped
booking_seat_table = record {
  table = record {
    name = "booking_seats";
    columns =
        mapped_column "id" integer
        ∷ mapped_column "booking_id" integer
        ∷ mapped_column "seat_id" integer
        ∷ [];
    foreign_keys = foreign_key_to "booking_id" "bookings" ∷ foreign_key_to "seat_id" "seats" ∷ [];
    primary_key = "id";
    unique_together = [];
  };
  indexes =
      plain_index "ix_booking_seats_booking_id" "booking_seats" ("booking_id" ∷ [])
      ∷ plain_index "ix_booking_seats_seat_id" "booking_seats" ("seat_id" ∷ [])
      ∷ [];
}

-- `Base.metadata`
unfoldable pub metadata : List Mapped
metadata = user_table ∷ hall_table ∷ seat_table ∷ booking_table ∷ booking_seat_table ∷ []
