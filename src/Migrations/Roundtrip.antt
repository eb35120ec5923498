-- ===== src/Migrations/Roundtrip.antt =====
-- The migration can be run, and taken back.
use booking_api_service.Common.{
  String, Option, some, none, List, [], ◌∷◌, ◌++◌, any, select, Bool, true, false, not, ◌&&◌, ◌||◌,
  str_eq, ◌≡◌, refl, ap, ◌∙◌, sym, Bool-cases, Option-cases, inl, inr, arith, if◌then◌else◌,
}
use mathlib.Core.List.{append-nil, append_assoc}
use booking_api_service.Migrations.{
  Table, Index, Operation, create_table, create_index, drop_table, Catalog, has_table, has_relation,
  has_columns, all_of, has_referred, is_referred, without, Ddl, run_all,
}
use booking_api_service.Migrations.Initial.{
  upgrade, downgrade, users, halls, seats, bookings, booking_seats,
}

-- The operations as they should go, which compute on the tables that the migration makes itself.
unfoldable pub plan : Operation → Catalog → Option Catalog
plan (create_table t) c =
    if not (has_relation t.name c) && has_referred c.tables t
    then some (record c { tables = c.tables ++ t ∷ [] })
    else none
plan (create_index i) c =
    if not (has_relation i.name c) && has_columns i.table i.columns c.tables
    then some (record c { indexes = c.indexes ++ i ∷ [] })
    else none
plan (drop_table name) c =
    if has_table name c.tables && not (is_referred name c.tables)
    then some (without name c)
    else none

-- The operation has nothing to do with what is in the catalog.
abbrev pub is_apart : Catalog → Operation → Bool
is_apart c (create_table t) = not (has_relation t.name c)
is_apart c (create_index i) = not (has_relation i.name c)
is_apart c (drop_table name) =
    not (has_table name c.tables)
    && (not (is_referred name c.tables) && not (any (λ i. str_eq i.table name) c.indexes))

abbrev pub beside : Catalog → Catalog → Catalog
beside c d = record { tables = c.tables ++ d.tables; indexes = c.indexes ++ d.indexes }

module _ {A : Type 0} where
  any-append : (p : A → Bool) (xs ys : List A) → any p (xs ++ ys) ≡ (any p xs || any p ys)
  any-append p [] ys = refl
  any-append p (x ∷ xs) ys = ground (arith, any-append p xs ys)

  select-append : (p : A → Bool) (xs ys : List A) → select p (xs ++ ys) ≡ select p xs ++ select p ys
  select-append p [] ys = refl
  select-append p (x ∷ xs) ys = ground (arith, select-append p xs ys)

  pub select-none :
      (p : A → Bool) (xs : List A) → any p xs ≡ false → select (λ x. not (p x)) xs ≡ xs
  select-none p [] h = refl
  select-none p (x ∷ xs) h = ground (arith, select-none p xs (ground arith))

  pub any_later : (p : A → Bool) (xs ys : List A) → any p ys ≡ true → any p (xs ++ ys) ≡ true
  any_later p xs ys h = ground (arith, any-append p xs ys)

  pub all_of-append :
      (p : A → Bool) (xs ys : List A)
      → all_of p (xs ++ ys) ≡ true
      → (all_of p xs ≡ true) × (all_of p ys ≡ true)
  all_of-append p [] ys h = (refl, h)
  all_of-append p (x ∷ xs) ys h =
      let (a, b) = all_of-append p xs ys (ground arith) in (ground arith, b)

  all_of_more :
      (p q : A → Bool) (xs : List A)
      → ((x : A) → p x ≡ true → q x ≡ true)
      → all_of p xs ≡ true
      → all_of q xs ≡ true
  all_of_more p q [] f h = refl
  all_of_more p q (x ∷ xs) f h =
      let a = f x (ground arith) in let b = all_of_more p q xs f (ground arith) in ground arith

has_referred-beside :
    (c d : Catalog) (t : Table)
    → has_referred d.tables t ≡ true
    → has_referred (beside c d).tables t ≡ true
has_referred-beside c d t h =
    all_of_more _ _ t.foreign_keys (λ k g. any_later _ c.tables d.tables g) h

has_relation-beside :
    (name : String) (c d : Catalog)
    → has_relation name c ≡ false
    → has_relation name d ≡ false
    → has_relation name (beside c d) ≡ false
has_relation-beside name c d g h =
    let a = any-append (λ (t : Table). str_eq t.name name) c.tables d.tables in
    let b = any-append (λ (i : Index). str_eq i.name name) c.indexes d.indexes in ground arith

abbrev beside_all : Catalog → Option Catalog → Option Catalog
beside_all c none = none
beside_all c (some d) = some (beside c d)

without-beside :
    (name : String) (c d : Catalog)
    → is_apart c (drop_table name) ≡ true
    → without name (beside c d) ≡ beside c (without name d)
without-beside name c d h =
    let a = select-append (λ (t : Table). not (str_eq t.name name)) c.tables d.tables in
    let b = select-append (λ (i : Index). not (str_eq i.table name)) c.indexes d.indexes in
    let e = select-none (λ (t : Table). str_eq t.name name) c.tables (ground arith) in
    let f = select-none (λ (i : Index). str_eq i.table name) c.indexes (ground arith) in
    λ k. record {
      tables = (a ∙ ap (λ ts. ts ++ (without name d).tables) e) k;
      indexes = (b ∙ ap (λ xs. xs ++ (without name d).indexes) f) k;
    }

module _ (M : Ddl) (base : Catalog) where
  step :
      (operation : Operation) (c d : Catalog)
      → is_apart base operation ≡ true
      → plan operation c ≡ some d
      → M.run operation (beside base c) ≡ some (beside base d)
  unfolding plan
  step (create_table t) c d apart h =
      elim (Bool-cases (not (has_relation t.name c) && has_referred c.tables t)) [
        | inr e ↦ absurd (cc (rw e at h))
        | inl e ↦
            let made : some (record c { tables = c.tables ++ t ∷ [] }) ≡ some d = rw e at h in
            M.run-create_table t (beside base c)
              (has_relation-beside t.name base c (ground arith) (ground arith))
              (has_referred-beside base c t (ground arith))
            ∙ ap (λ ts. some (record { tables = ts; indexes = base.indexes ++ c.indexes }))
                (append_assoc base.tables c.tables (t ∷ []))
            ∙ ap (beside_all base) made
      ]
  step (create_index i) c d apart h =
      elim (Bool-cases (not (has_relation i.name c) && has_columns i.table i.columns c.tables)) [
        | inr e ↦ absurd (cc (rw e at h))
        | inl e ↦
            let made : some (record c { indexes = c.indexes ++ i ∷ [] }) ≡ some d = rw e at h in
            M.run-create_index i (beside base c)
              (has_relation-beside i.name base c (ground arith) (ground arith))
              (any_later _ base.tables c.tables (ground arith))
            ∙ ap (λ xs. some (record { tables = base.tables ++ c.tables; indexes = xs }))
                (append_assoc base.indexes c.indexes (i ∷ []))
            ∙ ap (beside_all base) made
      ]
  step (drop_table name) c d apart h =
      elim (Bool-cases (has_table name c.tables && not (is_referred name c.tables))) [
        | inr e ↦ absurd (cc (rw e at h))
        | inl e ↦
            let made : some (without name c) ≡ some d = rw e at h in
            let r =
              any-append
                (λ (t : Table).
                  not (str_eq t.name name) && any (λ k. str_eq k.table name) t.foreign_keys)
                base.tables c.tables in
            M.run-drop_table name (beside base c) (any_later _ base.tables c.tables (ground arith))
              (r ∙ ground arith)
            ∙ ap some (without-beside name base c apart)
            ∙ ap (beside_all base) made
      ]

  pub steps :
      (operations : List Operation) (c d : Catalog)
      → all_of (is_apart base) operations ≡ true
      → run_all plan operations c ≡ some d
      → run_all M.run operations (beside base c) ≡ some (beside base d)
  unfolding run_all
  steps [] c d apart h = ap (beside_all base) h
  steps (operation ∷ operations) c d apart h = elim (Option-cases (plan operation c)) [
    | inl e ↦ absurd (cc (rw e at h))
    | inr (n, e) ↦
        rw (step operation c n (ground arith) e) (steps operations n d (ground arith) (rw e at h))
  ]

abbrev pub nothing : Catalog
nothing = record { tables = []; indexes = [] }

abbrev pub indexes_of : List Operation → List Index
indexes_of [] = []
indexes_of (create_index i ∷ operations) = i ∷ indexes_of operations
indexes_of (_ ∷ operations) = indexes_of operations

-- What the migration makes.
abbrev pub made : List Operation → Catalog
made operations = record {
  tables = users ∷ halls ∷ seats ∷ bookings ∷ booking_seats ∷ [];
  indexes = indexes_of operations;
}

pub planned_upgrade : run_all plan upgrade nothing ≡ some (made upgrade)
unfolding run_all plan upgrade
planned_upgrade = refl

planned_downgrade : run_all plan downgrade (made upgrade) ≡ some nothing
unfolding run_all plan upgrade downgrade
planned_downgrade = refl

pub beside-nothing : (c : Catalog) → beside c nothing ≡ c
beside-nothing c i = record { tables = append-nil c.tables i; indexes = append-nil c.indexes i }

-- On any database in which no table or index has a name of the migration, no foreign key refers to
-- one of its tables and no index stands on one: `upgrade` runs to its end and adds exactly its five tables, in an
-- order in which each foreign key refers to a table that is there already, with their thirteen
-- indexes; then `downgrade` runs to its end, in an order in which no table is dropped that another
-- refers to, and gives back the tables and indexes of before.
pub upgrade_then_downgrade :
    (M : Ddl) (base : Catalog)
    → all_of (is_apart base) (upgrade ++ downgrade) ≡ true
    → (run_all M.run upgrade base ≡ some (beside base (made upgrade)))
      × (run_all M.run downgrade (beside base (made upgrade)) ≡ some base)
upgrade_then_downgrade M base apart =
    let (a, b) = all_of-append (is_apart base) upgrade downgrade apart in
    (
      ap (λ c. run_all M.run upgrade c) (sym (beside-nothing base))
          ∙ steps M base upgrade nothing (made upgrade) a planned_upgrade,
      steps M base downgrade (made upgrade) nothing b planned_downgrade
          ∙ ap some (beside-nothing base),
    )
