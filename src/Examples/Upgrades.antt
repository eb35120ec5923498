-- ===== src/Examples/Upgrades.antt =====
-- The migration on a database that has the table of Alembic alone.
use booking_api_service.Common.{
  ◌≡◌, refl, str_eq, str_eq_iff, if◌then◌else◌, none, some, [], ◌∷◌, ◌++◌, false, true, not, select,
  map, flat_map, inl,
}
use mathlib.Core.List.{reverse}
use booking_api_service.Migrations.{Catalog, Table, Ddl, run_all, string, drop_table, has_table}
use booking_api_service.Migrations.Initial.{upgrade, downgrade}
use booking_api_service.Migrations.Models.{metadata, user_table}
use booking_api_service.Migrations.Metadata.{
  Sqlalchemy, creation, is_there, Alembic, create_tables, run_env, Environment,
}
use booking_api_service.Migrations.Startup.{initial, upgrade_then_create_tables}
use booking_api_service.Migrations.Drift.{Agrees, metadata-Agrees}
use booking_api_service.Migrations.Roundtrip.{plan, beside, made, upgrade_then_downgrade}

planned : Ddl
unfolding plan
planned = record {
  run = plan;
  run-create_table = λ t c g h. rw (g, h) refl;
  run-create_table_taken = λ t c g. rw g refl;
  run-create_index = λ i c g h. rw (g, h) refl;
  run-drop_table = λ name c g h. rw (g, h) refl;
}

abbrev fresh_database : Catalog
fresh_database = record {
  tables =
      record {
        name = "alembic_version";
        columns =
            record { name = "version_num"; type = string 32; nullable = false; has_default = false }
            ∷ [];
        foreign_keys = [];
        primary_key = "version_num";
        unique_together = [];
      }
      ∷ [];
  indexes = [];
}

upgrade_then_downgrade_example :
    (run_all planned.run upgrade fresh_database ≡ some (beside fresh_database (made upgrade)))
    × (run_all planned.run downgrade (beside fresh_database (made upgrade)) ≡ some fresh_database)
unfolding upgrade downgrade
upgrade_then_downgrade_example = upgrade_then_downgrade planned fresh_database refl

abbrev planned_sqlalchemy : Sqlalchemy planned
planned_sqlalchemy = record {
  create_all =
      λ ms c. run_all planned.run (flat_map creation (select (λ m. not (is_there c m)) ms)) c;
  drop_all = λ ms c.
      run_all planned.run (map (λ m. drop_table m.table.name) (reverse (select (is_there c) ms))) c;
  create_all-missing = λ ms c. refl;
  drop_all-existing = λ ms c. refl;
}

-- Alembic with one revision.
abbrev one_revision : Alembic
one_revision = record {
  pending = λ v version. elim version [
    | none ↦ some v.operations
    | some revision ↦ if str_eq revision v.revision then some [] else none
  ];
  pending-unversioned = λ v. refl;
  pending-head = λ v. rw ((str_eq_iff v.revision v.revision).1 refl) refl;
}

abbrev fresh_environment : Environment
fresh_environment = record {
  database = fresh_database;
  version = none;
  script = [];
  disposed = false;
}

upgrade_then_create_tables_example :
    (run_env planned one_revision initial false fresh_environment ≡ (
      true,
      record {
        database = beside fresh_database (made upgrade);
        version = some "001";
        script = [];
        disposed = true;
      },
    ))
    × (create_tables planned_sqlalchemy (beside fresh_database (made upgrade))
        ≡ (true, beside fresh_database (made upgrade)))
    × ((s : Environment)
        → s.version ≡ some "001"
        → run_env planned one_revision initial false s ≡ (true, record s { disposed = true }))
    × ((s : Environment)
        → s.version ≡ none
        → has_table "users" s.database.tables ≡ true
        → run_env planned one_revision initial false s ≡ (false, s))
    × ((s : Environment)
        → run_env planned one_revision initial true s
          ≡ (true, record s { script = s.script ++ upgrade }))
unfolding upgrade
upgrade_then_create_tables_example =
    upgrade_then_create_tables planned one_revision planned_sqlalchemy fresh_database [] refl

metadata-Agrees_example : (t : Table) × Agrees user_table (made upgrade) t
unfolding metadata
metadata-Agrees_example = metadata-Agrees user_table (inl refl)
