-- ===== src/Shared/Repository.antt =====
-- `BaseRepository` of backend/app/shared/repository.py over one table. `Row` is the type of its rows and
-- `ident_of` their primary key; a flush inserts the rows that were added, or raises for a key that is
-- taken. `constraint` is what the other constraints of the table say of a new row.
use research_assistant.Base.{
  ℕ, zero, suc, ◌≡◌, refl, arith, String, false, Option, none, some, List, [], ◌∷◌, ◌++◌, map, mem,
  mem-append, map-append, sym, subst, eq_iff, keep_if, length, take, not, Distinct, ◌==◌, string_eq,
  if◌then◌else◌,
}
use research_assistant.Core.Errors.{Result, ok, err, Exn, other, bind_ok, ◌>>=◌}

Distinct-snoc :
    (ident : String) (idents : List String)
    → mem ident idents ≡ false
    → Distinct idents
    → Distinct (idents ++ (ident ∷ []))
unfolding mem
Distinct-snoc ident [] out h = (refl, tt)
Distinct-snoc ident (i ∷ idents) out h = (
  rw (mem-append i idents (ident ∷ [])) (ground (arith, out, h.0, eq_iff i ident, eq_iff ident i)),
  Distinct-snoc ident idents (ground (arith, out)) h.1,
)

module _ {Row : Type 0} (ident_of : Row → String) (constraint : Row → List Row → Option Exn) where
  -- `session.get`
  unfoldable pub get_row : String → List Row → Option Row
  get_row ident [] = none
  get_row ident (row ∷ rows) =
      let rest = get_row ident rows in if ident_of row == ident then some row else rest

  -- `offset`
  unfoldable pub offset : ℕ → List Row → List Row
  offset zero rows = rows
  offset (suc n) [] = []
  offset (suc n) (row ∷ rows) = offset n rows

  -- `list`
  unfoldable pub list_rows : (skip : ℕ) (limit : Option ℕ) → List Row → List Row
  unfolding offset take
  list_rows skip limit rows = elim limit [
    | none ↦ offset skip rows
    | some n ↦ take n (offset skip rows)
  ]

  -- `count`
  abbrev pub count : List Row → ℕ
  count rows = length rows

  -- `add`, with its flush
  unfoldable pub add_row : Row → List Row → Result (List Row)
  unfolding mem
  add_row row rows =
      if mem (ident_of row) (map ident_of rows)
      then err (other "IntegrityError" "")
      else elim (constraint row rows) [ some e ↦ err e | none ↦ ok (rows ++ (row ∷ [])) ]

  -- `add_all`: one flush inserts all rows, or raises.
  unfoldable pub add_all : List Row → List Row → Result (List Row)
  unfolding add_row
  add_all [] rows = ok rows
  add_all (row ∷ added) rows = add_row row rows >>= λ rows'. add_all added rows'

  -- `delete`
  unfoldable pub delete_row : Row → List Row → List Row
  unfolding keep_if
  delete_row row rows = keep_if (λ r. not (ident_of r == ident_of row)) rows

  add_row-ok :
      (row : Row) (rows behind : List Row)
      → add_row row rows ≡ ok behind
      → (mem (ident_of row) (map ident_of rows) ≡ false) × (behind ≡ rows ++ (row ∷ []))
  unfolding add_row
  add_row-ok row rows behind done = go (constraint row rows) refl
    where
      go :
          (o : Option Exn)
          → constraint row rows ≡ o
          → (mem (ident_of row) (map ident_of rows) ≡ false) × (behind ≡ rows ++ (row ∷ []))
      go none e = (ground (arith, e, done), ground (arith, e, done))
      go (some x) e = absurd (ground (arith, e, done))

  -- Keys stay unique, whatever is added.
  pub Distinct-add_all :
      (added rows behind : List Row)
      → Distinct (map ident_of rows)
      → add_all added rows ≡ ok behind
      → Distinct (map ident_of behind)
  unfolding add_all
  Distinct-add_all [] rows behind h done =
      subst (λ b. Distinct (map ident_of b)) {x = rows} (ground (arith, done)) h
  Distinct-add_all (row ∷ added) rows behind h done =
      let (next, first, rest) = bind_ok (add_row row rows) (add_all added) behind done in
      let (unused, same) = add_row-ok row rows next first in
      Distinct-add_all added next behind
        (subst (λ b. Distinct (map ident_of b)) (sym same)
          (subst Distinct (sym (map-append ident_of rows (row ∷ [])))
            (Distinct-snoc (ident_of row) (map ident_of rows) unused h)))
        rest
