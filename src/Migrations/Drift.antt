-- ===== src/Migrations/Drift.antt =====
-- The classes of app/models against the tables of the migration.
use booking_api_service.Common.{
  String, List, ◌++◌, map, select, not, ◌&&◌, str_eq, ◌≡◌, refl, inl, inr, In, sym, subst,
}
use booking_api_service.Migrations.{Table, Index, Catalog}
use booking_api_service.Migrations.Initial.{upgrade, users, halls, seats, bookings, booking_seats}
use booking_api_service.Migrations.Models.{
  Mapped, metadata, user_table, hall_table, seat_table, booking_table, booking_seat_table,
}
use booking_api_service.Migrations.Roundtrip.{made}

-- The groups of columns that hold no value twice: by a constraint, or by a unique index.
abbrev pub unique_keys : Table → List Index → List (List String)
unique_keys t indexes =
    t.unique_together
    ++ map (λ i. i.columns) (select (λ i. i.unique && str_eq i.table t.name) indexes)

-- The table that the migration makes has the columns, the keys and the indexes of the class; where the
-- class has a unique index, a constraint may stand for it.
pub record Agrees (m : Mapped) (c : Catalog) (t : Table) : Type 0 where
  pub is_made : In t c.tables
  pub name : t.name ≡ m.table.name
  pub columns : t.columns ≡ m.table.columns
  pub foreign_keys : t.foreign_keys ≡ m.table.foreign_keys
  pub primary_key : t.primary_key ≡ m.table.primary_key
  pub unique : unique_keys t c.indexes ≡ unique_keys m.table m.indexes
  pub plain_indexes :
      select (λ i. str_eq i.table t.name) c.indexes ≡ select (λ i. not (i.unique)) m.indexes

abbrev HasCounterpart : Mapped → Type 0
HasCounterpart m = (t : Table) × Agrees m (made upgrade) t

users_agree : Agrees user_table (made upgrade) users
unfolding upgrade
users_agree = record {
  is_made = inl refl;
  name = refl;
  columns = refl;
  foreign_keys = refl;
  primary_key = refl;
  unique = refl;
  plain_indexes = refl;
}

halls_agree : Agrees hall_table (made upgrade) halls
unfolding upgrade
halls_agree = record {
  is_made = inr (inl refl);
  name = refl;
  columns = refl;
  foreign_keys = refl;
  primary_key = refl;
  unique = refl;
  plain_indexes = refl;
}

seats_agree : Agrees seat_table (made upgrade) seats
unfolding upgrade
seats_agree = record {
  is_made = inr (inr (inl refl));
  name = refl;
  columns = refl;
  foreign_keys = refl;
  primary_key = refl;
  unique = refl;
  plain_indexes = refl;
}

bookings_agree : Agrees booking_table (made upgrade) bookings
unfolding upgrade
bookings_agree = record {
  is_made = inr (inr (inr (inl refl)));
  name = refl;
  columns = refl;
  foreign_keys = refl;
  primary_key = refl;
  unique = refl;
  plain_indexes = refl;
}

booking_seats_agree : Agrees booking_seat_table (made upgrade) booking_seats
unfolding upgrade
booking_seats_agree = record {
  is_made = inr (inr (inr (inr (inl refl))));
  name = refl;
  columns = refl;
  foreign_keys = refl;
  primary_key = refl;
  unique = refl;
  plain_indexes = refl;
}

-- Each class of app/models has a table of the migration with the same columns, of the same types and
-- defaults, the same foreign keys and primary key, and the same indexes that are not unique; and the
-- same groups of columns hold no value twice, by a constraint or by a unique index.
pub metadata-Agrees : (m : Mapped) → In m metadata → (t : Table) × Agrees m (made upgrade) t
unfolding metadata
metadata-Agrees m (inl e) = subst HasCounterpart (sym e) (users, users_agree)
metadata-Agrees m (inr (inl e)) = subst HasCounterpart (sym e) (halls, halls_agree)
metadata-Agrees m (inr (inr (inl e))) = subst HasCounterpart (sym e) (seats, seats_agree)
metadata-Agrees m (inr (inr (inr (inl e)))) =
    subst HasCounterpart (sym e) (bookings, bookings_agree)
metadata-Agrees m (inr (inr (inr (inr (inl e))))) =
    subst HasCounterpart (sym e) (booking_seats, booking_seats_agree)
metadata-Agrees m (inr (inr (inr (inr (inr x))))) = elim x [ ]
