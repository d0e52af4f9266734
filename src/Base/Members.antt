-- ===== src/Base/Members.antt =====
-- `x in xs` over a type with equality, and what a list without repetition gives.
use Prim.Native.Nat.{◌<◌}
use mathlib.Core.Path.{◌≡◌, refl, subst}
use mathlib.Core.Bool.{Bool, true, false, ◌&&◌, ◌||◌}
use mathlib.Core.List.{List, [], ◌∷◌, ◌++◌}
use mathlib.Core.Logic.{inl, inr}
use native.Mathlib.Omega.{arith}
use research_assistant.Base.Tests.{Equality, ◌==◌, Bool-cases}
use research_assistant.Base.Lists.{length, keep_if, length-keep_if-le, All}

module _ {ℓ} {A : Type ℓ} ⦃e : Equality A⦄ where
  unfoldable pub mem : A → List A → Bool
  mem a [] = false
  mem a (x ∷ xs) = x == a || mem a xs

  -- No two items are equal.
  abbrev pub Distinct : List A → Type 0
  Distinct [] = Unit
  Distinct (x ∷ xs) = (mem x xs ≡ false) × Distinct xs

  pub beq_refl : (a : A) → (a == a) ≡ true
  beq_refl a = (e.equals_iff a a).1 refl

  pub mem-append : (a : A) (xs ys : List A) → mem a (xs ++ ys) ≡ (mem a xs || mem a ys)
  unfolding mem
  mem-append a [] ys = refl
  mem-append a (x ∷ xs) ys = ground (arith, mem-append a xs ys)

  pub mem-keep_if : (p : A → Bool) (a : A) (xs : List A) → mem a (keep_if p xs) ≡ (mem a xs && p a)
  unfolding mem keep_if
  mem-keep_if p a [] = refl
  mem-keep_if p a (x ∷ xs) = ground (arith, mem-keep_if p a xs, e.equals_iff x a)

  pub Distinct-keep_if : (p : A → Bool) (xs : List A) → Distinct xs → Distinct (keep_if p xs)
  unfolding keep_if
  Distinct-keep_if p [] h = tt
  Distinct-keep_if p (x ∷ xs) h = ground (arith, Distinct-keep_if p xs h.1, mem-keep_if p x xs)

  -- `[x for x in xs if x not in ys]` is shorter if one of the two shares an item.
  pub length-keep_if-lt :
      (p : A → Bool) (a : A) (xs : List A)
      → mem a xs ≡ true
      → p a ≡ false
      → length (keep_if p xs) < length xs
  unfolding mem keep_if
  length-keep_if-lt p a [] m out = cc
  length-keep_if-lt p a (x ∷ xs) m out =
      ground (arith, e.equals_iff x a, length-keep_if-le p xs, length-keep_if-lt p a xs)

  -- What holds of each member holds at each item.
  pub All-of_mem {κ} : (P : A → Type κ) (xs : List A) → ((a : A) → mem a xs ≡ true → P a) → All P xs
  unfolding mem
  All-of_mem P [] h = tt
  All-of_mem P (x ∷ xs) h = (h x (rw (beq_refl x)), All-of_mem P xs λ a m. h a (ground arith))

  pub of_All_mem {κ} : (P : A → Type κ) (xs : List A) (a : A) → All P xs → mem a xs ≡ true → P a
  unfolding mem
  of_All_mem P [] a h m = ground arith
  of_All_mem P (x ∷ xs) a h m = elim (Bool-cases (x == a)) [
    | inl same ↦ subst P ((e.equals_iff x a).0 same) h.0
    | inr other ↦ of_All_mem P xs a h.1 (ground arith)
  ]
