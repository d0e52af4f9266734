-- ===== src/Examples/Migrations.antt =====
-- The migrations over a schema that is the list of what has been created, the latest first.
use research_assistant.Base.{
  ◌≡◌, refl, arith, subst, true, none, List, [], ◌∷◌, ◌&&◌, ◌==◌, string_eq, beq_refl,
  if◌then◌else◌,
}
use research_assistant.Core.Errors.{Result, ok, err, other}
use research_assistant.Migrations.{
  Operation, create_table, create_index, drop_index, drop_table, upgrade_head, downgrade_base,
}
use research_assistant.Migrations.Chain.{
  migrations, IsUndone, IsLinked, all_upgrades, resolves, migrations-RoundTrip,
}

abbrev refused : Result (List Operation)
refused = err (other "ProgrammingError" "")

abbrev apply_last : Operation → List Operation → Result (List Operation)
apply_last (create_table table) schema = ok (create_table table ∷ schema)
apply_last (create_index index) schema = ok (create_index index ∷ schema)
apply_last (drop_index name table) [] = refused
apply_last (drop_index name table) (create_index index ∷ schema) =
    if index.name == name && index.table == table then ok schema else refused
apply_last (drop_index name table) (_ ∷ schema) = refused
apply_last (drop_table name) [] = refused
apply_last (drop_table name) (create_table table ∷ schema) =
    if table.name == name then ok schema else refused
apply_last (drop_table name) (_ ∷ schema) = refused

apply_last-IsUndone : IsUndone apply_last
apply_last-IsUndone (create_table table) drop before behind drops done =
    let dropped : drop_table table.name ≡ drop = ground (arith, drops) in
    let same : create_table table ∷ before ≡ behind = ground (arith, done) in
    subst (λ d. apply_last d behind ≡ ok before) dropped
      (subst (λ s. apply_last (drop_table table.name) s ≡ ok before) same
        (rw (beq_refl table.name) refl))
apply_last-IsUndone (create_index index) drop before behind drops done =
    let dropped : drop_index index.name index.table ≡ drop = ground (arith, drops) in
    let same : create_index index ∷ before ≡ behind = ground (arith, done) in
    subst (λ d. apply_last d behind ≡ ok before) dropped
      (subst (λ s. apply_last (drop_index index.name index.table) s ≡ ok before) same
        (rw (beq_refl index.name, beq_refl index.table) refl))
apply_last-IsUndone (drop_index name table) drop before behind drops done =
    absurd (ground (arith, drops))
apply_last-IsUndone (drop_table name) drop before behind drops done = absurd (ground (arith, drops))

abbrev or_else : Result (List Operation) → List Operation
or_else (ok schema) = schema
or_else (err e) = []

abbrev full_schema : List Operation
full_schema = or_else (upgrade_head apply_last migrations [])

upgrades : upgrade_head apply_last migrations [] ≡ ok full_schema
unfolding upgrade_head
upgrades = refl

migrations-RoundTrip_example :
    (downgrade_base apply_last migrations full_schema ≡ ok [])
    × IsLinked none migrations
    × (resolves [] (all_upgrades migrations) ≡ true)
migrations-RoundTrip_example =
    migrations-RoundTrip apply_last [] full_schema apply_last-IsUndone upgrades
