-- ===== src/Migrations/Metadata.antt =====
-- What app/db.py has SQLAlchemy do with the tables of app/models, and how alembic/env.py runs a
-- migration.
use booking_api_service.Common.{
  ◌++◌, ◌||◌, if◌then◌else◌, String, Option, [], none, some, List, ◌∷◌, map, flat_map, Bool, true,
  false, not, select, ◌≡◌,
}
use mathlib.Core.List.{reverse}
use booking_api_service.Migrations.{
  Operation, create_table, create_index, drop_table, Catalog, has_table, Ddl, run_all,
}
use booking_api_service.Migrations.Models.{Mapped, metadata}

-- The statements for a table: itself, then its indexes.
abbrev pub creation : Mapped → List Operation
creation m = create_table m.table ∷ map create_index m.indexes

abbrev pub is_there : Catalog → Mapped → Bool
is_there c m = has_table m.table.name c.tables

-- What app/db.py relies on of SQLAlchemy: `create_all` makes the tables that are not there, with their
-- indexes, and `drop_all` drops those that are, in the reverse order.
pub record Sqlalchemy (M : Ddl) : Type 0 where
  pub create_all : List Mapped → Catalog → Option Catalog
  pub drop_all : List Mapped → Catalog → Option Catalog
  pub create_all-missing :
      (ms : List Mapped) (c : Catalog)
      → create_all ms c ≡ run_all M.run (flat_map creation (select (λ m. not (is_there c m)) ms)) c
  pub drop_all-existing :
      (ms : List Mapped) (c : Catalog)
      → drop_all ms c
        ≡ run_all M.run (map (λ m. drop_table m.table.name) (reverse (select (is_there c) ms))) c

-- A transaction (`engine.begin()`, `context.begin_transaction()`): all of it, or nothing, with whether
-- it was committed.
abbrev pub settle : Option Catalog → Catalog → Bool × Catalog
settle none c = (false, c)
settle (some d) c = (true, d)

abbrev pub transaction : (Catalog → Option Catalog) → Catalog → Bool × Catalog
transaction run c = settle (run c) c

module _ {M : Ddl} (A : Sqlalchemy M) where
  unfoldable pub create_tables : Catalog → Bool × Catalog
  create_tables = transaction (A.create_all metadata)

  unfoldable pub drop_tables : Catalog → Bool × Catalog
  drop_tables = transaction (A.drop_all metadata)

-- A file of alembic/versions: its `revision`, and the operations of its `upgrade`.
pub record Revision : Type 0 where
  pub revision : String
  pub operations : List Operation

-- What alembic/env.py relies on of Alembic, where there is one revision: the table alembic_version has
-- the revision that the database is at, if any. `pending` has the operations that lead from there to the
-- head: all of them, none, or an error for a revision that is not known.
pub record Alembic : Type 0 where
  pub pending : Revision → Option String → Option (List Operation)
  pub pending-unversioned : (v : Revision) → pending v none ≡ some v.operations
  pub pending-head : (v : Revision) → pending v (some v.revision) ≡ some []

-- alembic/env.py: the database, the row of alembic_version, the statements that were printed, and whether
-- the engine was disposed of.
pub record Environment : Type 0 where
  pub database : Catalog
  pub version : Option String
  pub script : List Operation
  pub disposed : Bool

-- `context.run_migrations()` prints the statements where no connection is configured: no row of
-- alembic_version is read.
abbrev pub run_migrations_offline : Revision → Environment → Bool × Environment
run_migrations_offline v s = (true, record s { script = s.script ++ v.operations })

-- The pending operations, if the revision is known.
abbrev pub run_pending :
    (Operation → Catalog → Option Catalog) → Option (List Operation) → Catalog → Option Catalog
run_pending run none c = none
run_pending run (some operations) c = run_all run operations c

-- The row of alembic_version is written in the same transaction.
abbrev pub stamp : Bool → Revision → Option String → Option String
stamp true v version = some v.revision
stamp false v version = version

module _ (M : Ddl) (A : Alembic) (v : Revision) where
  -- On a connection.
  unfoldable pub do_run_migrations : Option String → Catalog → Bool × Catalog
  do_run_migrations version = transaction (run_pending M.run (A.pending v version))

  -- An exception passes by the disposal.
  unfoldable pub run_async_migrations : Environment → Bool × Environment
  unfolding do_run_migrations
  run_async_migrations s =
      let (done, c) = do_run_migrations s.version s.database in
      (
        done,
        record s { database = c; version = stamp done v s.version; disposed = done || s.disposed },
      )

  -- What the module does when Alembic loads it.
  unfoldable pub run_env : (is_offline_mode : Bool) → Environment → Bool × Environment
  unfolding run_async_migrations
  run_env is_offline_mode s =
      if is_offline_mode then run_migrations_offline v s else run_async_migrations s
