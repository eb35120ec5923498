-- ===== src/Migrations.antt =====
-- alembic/versions/001_initial_tables.py: the operations of `upgrade` and `downgrade`, and what is
-- relied on of Alembic and PostgreSQL to run them.
pub mod Initial
pub mod Roundtrip
pub mod Models
pub mod Metadata
pub mod Startup
pub mod Drift
use booking_api_service.Common.{
  ℕ, String, Option, some, none, List, [], ◌∷◌, ◌++◌, any, select, Bool, true, false, not, ◌&&◌,
  ◌||◌, str_eq, ◌≡◌, if◌then◌else◌,
}

pub data ColumnType : Type 0 where
  integer boolean timestamp : ColumnType
  string : (length : ℕ) → ColumnType
  numeric : (precision scale : ℕ) → ColumnType

-- `has_default` is `server_default=now()`.
pub record Column : Type 0 where
  pub name : String
  pub type : ColumnType
  pub nullable : Bool
  pub has_default : Bool

-- A foreign key with `ondelete="CASCADE"`.
pub record ForeignKey : Type 0 where
  pub column : String
  pub table : String
  pub referred : String

pub record Table : Type 0 where
  pub name : String
  pub columns : List Column
  pub foreign_keys : List ForeignKey
  pub primary_key : String
  pub unique_together : List (List String)

pub record Index : Type 0 where
  pub name : String
  pub table : String
  pub columns : List String
  pub unique : Bool

pub data Operation : Type 0 where
  create_table : Table → Operation
  create_index : Index → Operation
  drop_table : String → Operation

-- The tables and the indexes of a database.
pub record Catalog : Type 0 where
  pub tables : List Table
  pub indexes : List Index

abbrev pub has_table : String → List Table → Bool
has_table name tables = any (λ t. str_eq t.name name) tables

abbrev pub has_index : String → List Index → Bool
has_index name indexes = any (λ i. str_eq i.name name) indexes

-- Tables and indexes share their names. (Those of constraints are taken to be free.)
abbrev pub has_relation : String → Catalog → Bool
has_relation name c = has_table name c.tables || has_index name c.indexes

abbrev pub all_of : {A : Type 0} → (A → Bool) → List A → Bool
all_of p [] = true
all_of p (x ∷ xs) = p x && all_of p xs

abbrev pub has_column : String → Table → Bool
has_column name t = any (λ c. str_eq c.name name) t.columns

-- Some table of that name has all those columns.
abbrev pub has_columns : String → List String → List Table → Bool
has_columns table columns tables =
    any (λ t. str_eq t.name table && all_of (λ c. has_column c t) columns) tables

-- The columns that a new table's foreign keys refer to are there.
abbrev pub has_referred : List Table → Table → Bool
has_referred tables t = all_of (λ k. has_columns k.table (k.referred ∷ []) tables) t.foreign_keys

-- Another table has a foreign key to the table of that name.
abbrev pub is_referred : String → List Table → Bool
is_referred name tables =
    any (λ t. not (str_eq t.name name) && any (λ k. str_eq k.table name) t.foreign_keys) tables

abbrev pub without : String → Catalog → Catalog
without name c = record {
  tables = select (λ t. not (str_eq t.name name)) c.tables;
  indexes = select (λ i. not (str_eq i.table name)) c.indexes;
}

-- What the migration relies on: a table can be made under a free name if what it refers to is there,
-- and not under one that is taken; an index under a free name on columns that are there, and a table that no other refers to can be
-- dropped, with its indexes.
pub record Ddl : Type 0 where
  pub run : Operation → Catalog → Option Catalog
  pub run-create_table :
      (t : Table) (c : Catalog)
      → has_relation t.name c ≡ false
      → has_referred c.tables t ≡ true
      → run (create_table t) c ≡ some (record c { tables = c.tables ++ t ∷ [] })
  pub run-create_table_taken :
      (t : Table) (c : Catalog) → has_relation t.name c ≡ true → run (create_table t) c ≡ none
  pub run-create_index :
      (i : Index) (c : Catalog)
      → has_relation i.name c ≡ false
      → has_columns i.table i.columns c.tables ≡ true
      → run (create_index i) c ≡ some (record c { indexes = c.indexes ++ i ∷ [] })
  pub run-drop_table :
      (name : String) (c : Catalog)
      → has_table name c.tables ≡ true
      → is_referred name c.tables ≡ false
      → run (drop_table name) c ≡ some (without name c)

abbrev pub then_run : Option Catalog → (Catalog → Option Catalog) → Option Catalog
then_run none f = none
then_run (some c) f = f c

-- One operation after another, up to the first that fails.
unfoldable pub run_all :
    (Operation → Catalog → Option Catalog) → List Operation → Catalog → Option Catalog
run_all run [] c = some c
run_all run (operation ∷ operations) c = then_run (run operation c) (run_all run operations)
