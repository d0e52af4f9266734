-- ===== src/Migrations/Chain.antt =====
-- The chain of the migrations, up and down again.
use research_assistant.Base.{
  ◌≡◌, refl, ◌∙◌, arith, String, Bool, true, false, ◌&&◌, Option, none, some, List, [], ◌∷◌, ◌++◌,
  map, mem, ◌==◌, string_eq, if◌then◌else◌,
}
use research_assistant.Core.Errors.{Result, ok, bind_ok}
use research_assistant.Migrations.{
  Column, Constraint, primary_key, foreign_key, unique_key, Operation, create_table, create_index,
  drop_index, drop_table, Migration, baseline, run_operations, upgrade_head, downgrade_base,
}
use research_assistant.Migrations.Users.{users_and_sessions}
use research_assistant.Migrations.Uploads.{uploads}
use research_assistant.Migrations.Documents.{documents_and_chunks}

abbrev pub migrations : List Migration
migrations = baseline ∷ users_and_sessions ∷ uploads ∷ documents_and_chunks ∷ []

-- Each migration names the one before it.
abbrev pub IsLinked : Option String → List Migration → Type 0
IsLinked before [] = Unit
IsLinked before (migration ∷ rest) =
    (migration.down_revision ≡ before) × IsLinked (some migration.revision) rest

-- The drop that takes an operation back, if there is one.
abbrev pub undo : Operation → Option Operation
undo (create_table table) = some (drop_table table.name)
undo (create_index index) = some (drop_index index.name index.table)
undo (drop_index name table) = none
undo (drop_table name) = none

abbrev undo_or_none : Option Operation → List Operation
undo_or_none none = []
undo_or_none (some operation) = operation ∷ []

-- The drops of a list of operations, in the opposite order.
abbrev pub undo_all : List Operation → List Operation
undo_all [] = []
undo_all (operation ∷ operations) = undo_all operations ++ undo_or_none (undo operation)

-- Each operation creates something.
abbrev Creates : List Operation → Type 0
Creates [] = Unit
Creates (operation ∷ operations) =
    ((drop : Operation) × (undo operation ≡ some drop)) × Creates operations

-- What the database does: dropping what has just been created gives the schema back.
abbrev pub IsUndone : {S : Type 0} → (Operation → S → Result S) → Type 0
IsUndone {S} apply =
    (operation drop : Operation) (before behind : S)
    → undo operation ≡ some drop
    → apply operation before ≡ ok behind
    → apply drop behind ≡ ok before

-- The tables and their columns that a foreign key or an index may name.
abbrev Known : Type 0
Known = List (String × List String)

abbrev column_names : List Column → List String
column_names columns = map (λ column. column.name) columns

has_column : Known → String → String → Bool
has_column [] table column = false
has_column ((name, columns) ∷ known) table column =
    let rest = has_column known table column in if name == table then mem column columns else rest

all_in : List String → List String → Bool
all_in [] columns = true
all_in (name ∷ names) columns = mem name columns && all_in names columns

constraint_known : Known → List String → Constraint → Bool
unfolding has_column all_in
constraint_known known columns (primary_key column name) = mem column columns
constraint_known known columns (foreign_key column table referred name ondelete) =
    mem column columns && has_column known table referred
constraint_known known columns (unique_key keys name) = all_in keys columns

constraints_known : Known → List String → List Constraint → Bool
unfolding constraint_known
constraints_known known columns [] = true
constraints_known known columns (c ∷ constraints) =
    constraint_known known columns c && constraints_known known columns constraints

index_known : Known → String → List String → Bool
unfolding has_column
index_known known table [] = true
index_known known table (column ∷ columns) =
    has_column known table column && index_known known table columns

-- Every constraint and index stands on columns of tables that are created before.
unfoldable pub resolves : Known → List Operation → Bool
unfolding constraints_known index_known mem
resolves known [] = true
resolves known (create_table table ∷ operations) =
    constraints_known known (column_names table.columns) table.constraints
    && resolves ((table.name, column_names table.columns) ∷ known) operations
resolves known (create_index index ∷ operations) =
    index_known known index.table index.columns && resolves known operations
resolves known (drop_index name table ∷ operations) = resolves known operations
resolves known (drop_table name ∷ operations) = resolves known operations

abbrev pub all_upgrades : List Migration → List Operation
all_upgrades [] = []
all_upgrades (migration ∷ rest) = migration.upgrade ++ all_upgrades rest

-- The downgrade of each migration is the drops of its upgrade.
abbrev AreInverse : List Migration → Type 0
AreInverse [] = Unit
AreInverse (migration ∷ rest) =
    (migration.downgrade ≡ undo_all migration.upgrade) × Creates migration.upgrade × AreInverse rest

module _ {S : Type 0} (apply : Operation → S → Result S) (undone : IsUndone apply) where
  run_operations-append :
      (a b : List Operation) (before middle : S)
      → run_operations apply a before ≡ ok middle
      → run_operations apply (a ++ b) before ≡ run_operations apply b middle
  unfolding run_operations
  run_operations-append [] b before middle done = ground (arith, done)
  run_operations-append (operation ∷ a) b before middle done =
      let (next, first, rest) =
        bind_ok (apply operation before) (run_operations apply a) middle done in
      rw first (run_operations-append a b next middle rest)

  run_operations-undo_all :
      (operations : List Operation) (before behind : S)
      → Creates operations
      → run_operations apply operations before ≡ ok behind
      → run_operations apply (undo_all operations) behind ≡ ok before
  unfolding run_operations
  run_operations-undo_all [] before behind created done = ground (arith, done)
  run_operations-undo_all (operation ∷ operations) before behind ((drop, drops), created) done =
      let (next, first, rest) =
        bind_ok (apply operation before) (run_operations apply operations) behind done in
      let back = run_operations-undo_all operations next behind created rest in
      run_operations-append (undo_all operations) (undo_or_none (undo operation)) behind next back
      ∙ rw (drops, undone operation drop before next drops first) refl

  downgrade_base-upgrade_head :
      (chain : List Migration) (before behind : S)
      → AreInverse chain
      → upgrade_head apply chain before ≡ ok behind
      → downgrade_base apply chain behind ≡ ok before
  unfolding upgrade_head downgrade_base
  downgrade_base-upgrade_head [] before behind inverse done = ground (arith, done)
  downgrade_base-upgrade_head (migration ∷ rest) before behind (inverse, created, others) done =
      let (next, first, later) =
        bind_ok (run_operations apply migration.upgrade before) (upgrade_head apply rest) behind
          done in
      rw (downgrade_base-upgrade_head rest next behind others later, inverse)
        (run_operations-undo_all migration.upgrade before next created first)

migrations_inverse : AreInverse migrations
migrations_inverse = (
  refl,
  tt,
  (
    refl,
    ((_, refl), ((_, refl), ((_, refl), ((_, refl), ((_, refl), tt))))),
    (
      refl,
      ((_, refl), ((_, refl), tt)),
      (
        refl,
        (
          (_, refl),
          ((_, refl), ((_, refl), ((_, refl), ((_, refl), ((_, refl), ((_, refl), tt)))))),
        ),
        tt,
      ),
    ),
  ),
)

-- The migrations form one chain from the empty baseline; every foreign key, unique constraint and index
-- stands on columns of tables that are created before it; and if the upgrade of all of them succeeds
-- from any schema, then the downgrade of all of them succeeds and gives that schema back, for every
-- database where dropping what has just been created gives the schema back.
pub migrations-RoundTrip :
    {S : Type 0} (apply : Operation → S → Result S) (before behind : S)
    → IsUndone apply
    → upgrade_head apply migrations before ≡ ok behind
    → (downgrade_base apply migrations behind ≡ ok before)
      × IsLinked none migrations
      × (resolves [] (all_upgrades migrations) ≡ true)
unfolding resolves
migrations-RoundTrip apply before behind undone done = (
  downgrade_base-upgrade_head apply undone migrations before behind migrations_inverse done,
  (refl, (refl, (refl, (refl, tt)))),
  refl,
)
