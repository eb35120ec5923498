-- ===== src/Migrations/Startup.antt =====
-- The migration and the start of the application, in both orders, and the tables without a migration.
use booking_api_service.Common.{
  Option, some, none, List, [], ◌∷◌, ◌++◌, ◌||◌, map, flat_map, select, true, false, not, str_eq,
  ◌≡◌, refl, ap, ◌∙◌, sym, arith,
}
use mathlib.Core.List.{reverse}
use booking_api_service.Migrations.{
  Table, Operation, drop_table, Catalog, Ddl, run_all, has_table, all_of,
}
use booking_api_service.Migrations.Initial.{upgrade, users}
use booking_api_service.Migrations.Models.{Mapped, metadata}
use booking_api_service.Migrations.Metadata.{
  Sqlalchemy, creation, is_there, settle, transaction, create_tables, drop_tables, run_env,
  Environment, Revision, Alembic, stamp,
}
use booking_api_service.Migrations.Roundtrip.{
  plan, is_apart, beside, made, nothing, steps, any_later, all_of-append, beside-nothing,
  planned_upgrade,
}

-- The file of alembic/versions.
abbrev pub initial : Revision
initial = record { revision = "001"; operations = upgrade }

all_there :
    (c : Catalog) (ms : List Mapped)
    → all_of (is_there c) ms ≡ true
    → (select (is_there c) ms ≡ ms) × (select (λ m. not (is_there c m)) ms ≡ [])
all_there c [] h = (refl, refl)
all_there c (m ∷ ms) h = let (a, b) = all_there c ms (ground arith) in ground arith

-- What stands beside a catalog in which the tables are.
there-beside :
    (base d : Catalog) (ms : List Mapped)
    → all_of (is_there d) ms ≡ true
    → all_of (is_there (beside base d)) ms ≡ true
there-beside base d [] h = refl
there-beside base d (m ∷ ms) h = ground (
  arith,
  there-beside base d ms,
  any_later (λ (t : Table). str_eq t.name m.table.name) base.tables d.tables,
)

none_there :
    (c : Catalog) (ms : List Mapped)
    → all_of (is_apart c) (flat_map creation ms) ≡ true
    → select (λ m. not (is_there c m)) ms ≡ ms
unfolding flat_map
none_there c [] h = refl
none_there c (m ∷ ms) h =
    let (a, b) = all_of-append (is_apart c) (creation m) (flat_map creation ms) h in
    ground (arith, none_there c ms b)

abbrev pub modelled : List Mapped → Catalog
modelled ms = record { tables = map (λ m. m.table) ms; indexes = flat_map (λ m. m.indexes) ms }

abbrev pub drops : List Mapped → List Operation
drops ms = map (λ m. drop_table m.table.name) (reverse ms)

planned_creation : run_all plan (flat_map creation metadata) nothing ≡ some (modelled metadata)
unfolding run_all plan metadata flat_map
planned_creation = refl

planned_drops : run_all plan (drops metadata) (modelled metadata) ≡ some nothing
unfolding run_all plan metadata flat_map
planned_drops = refl

migrated : all_of (is_there (made upgrade)) metadata ≡ true
unfolding metadata
migrated = refl

themselves : all_of (is_there (modelled metadata)) metadata ≡ true
unfolding metadata
themselves = refl

committed :
    (run : Catalog → Option Catalog) (c d : Catalog)
    → run c ≡ some d
    → transaction run c ≡ (true, d)
committed run c d h = ap (λ o. settle o c) h

rolled_back :
    (run : Catalog → Option Catalog) (c : Catalog) → run c ≡ none → transaction run c ≡ (false, c)
rolled_back run c h = ap (λ o. settle o c) h

module _ (M : Ddl) (L : Alembic) (A : Sqlalchemy M) (base : Catalog) where
  from_base :
      (operations : List Operation) (d : Catalog)
      → all_of (is_apart base) operations ≡ true
      → run_all plan operations nothing ≡ some d
      → run_all M.run operations base ≡ some (beside base d)
  from_base operations d apart h =
      ap (run_all M.run operations) (sym (beside-nothing base))
      ∙ steps M base operations nothing d apart h

  nothing_missing :
      (d : Catalog)
      → all_of (is_there d) metadata ≡ true
      → A.create_all metadata (beside base d) ≡ some (beside base d)
  unfolding run_all flat_map
  nothing_missing d h =
      A.create_all-missing metadata (beside base d)
      ∙ ap (λ ms. run_all M.run (flat_map creation ms) (beside base d))
          (all_there (beside base d) metadata (there-beside base d metadata h)).1

  users_taken : (c : Catalog) → has_table "users" c.tables ≡ true → run_all M.run upgrade c ≡ none
  unfolding upgrade run_all
  users_taken c h = rw (M.run-create_table_taken users c (ground arith)) refl

  -- As docker-entrypoint.sh does it: on a database that is at no revision and has nothing of the
  -- migration, `upgrade` is committed, the revision noted and the engine disposed of, and then
  -- `create_tables`, which the application calls when it starts, changes nothing. On a database that is at
  -- the revision already, as when the container starts again, `upgrade` succeeds and changes nothing. But
  -- on one that is at no revision and has a table of users, as one on which `create_tables` was called
  -- first, `upgrade` fails, and what it did is rolled back. Offline it prints its statements, whatever the
  -- database, and leaves that alone.
  pub upgrade_then_create_tables :
      (script : List Operation)
      → all_of (is_apart base) upgrade ≡ true
      → (run_env M L initial false
            (record { database = base; version = none; script = script; disposed = false })
          ≡ (
            true,
            record {
              database = beside base (made upgrade);
              version = some initial.revision;
              script = script;
              disposed = true;
            },
          ))
        × (create_tables A (beside base (made upgrade)) ≡ (true, beside base (made upgrade)))
        × ((s : Environment)
            → s.version ≡ some initial.revision
            → run_env M L initial false s ≡ (true, record s { disposed = true }))
        × ((s : Environment)
            → s.version ≡ none
            → has_table "users" s.database.tables ≡ true
            → run_env M L initial false s ≡ (false, s))
        × ((s : Environment)
            → run_env M L initial true s ≡ (true, record s { script = s.script ++ upgrade }))
  unfolding run_env create_tables run_all
  upgrade_then_create_tables script apart = (
    rw (L.pending-unversioned initial) (
        ap
          (λ o.
            let (done, c) = settle o base in
            (
              done,
              record {
                database = c;
                version = stamp done initial none;
                script = script;
                disposed = done || false;
              },
            ))
          (from_base upgrade (made upgrade) apart planned_upgrade)),
    committed (A.create_all metadata) (beside base (made upgrade)) (beside base (made upgrade))
        (nothing_missing (made upgrade) migrated),
    λ s h. rw (h, L.pending-head initial) refl,
    λ s h t. rw (h, L.pending-unversioned initial, users_taken s.database t) refl,
    λ s. refl,
  )

  -- On a database that has nothing of the models: `create_tables` adds exactly their five tables with
  -- their indexes, and then `drop_tables` gives back the tables and indexes of before.
  pub create_tables_then_drop_tables :
      all_of (is_apart base) (flat_map creation metadata ++ drops metadata) ≡ true
      → (create_tables A base ≡ (true, beside base (modelled metadata)))
        × (drop_tables A (beside base (modelled metadata)) ≡ (true, base))
  unfolding create_tables drop_tables
  create_tables_then_drop_tables apart =
      let (a, b) =
        all_of-append (is_apart base) (flat_map creation metadata) (drops metadata) apart in
      let full = beside base (modelled metadata) in
      (
        committed (A.create_all metadata) base full (
            A.create_all-missing metadata base
            ∙ ap (λ ms. run_all M.run (flat_map creation ms) base) (none_there base metadata a)
            ∙ from_base (flat_map creation metadata) (modelled metadata) a planned_creation),
        committed (A.drop_all metadata) full base (
            A.drop_all-existing metadata full
            ∙ ap (λ ms. run_all M.run (drops ms) full)
                (all_there full metadata
                  (there-beside base (modelled metadata) metadata themselves)).0
            ∙ steps M base (drops metadata) (modelled metadata) nothing b planned_drops
            ∙ ap some (beside-nothing base)),
      )
