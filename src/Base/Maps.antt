-- ===== src/Base/Maps.antt =====
-- Python's `dict`: an association list in the order of insertion. A write to a key that is there
-- replaces its value in place, any other appends.
use mathlib.Core.Path.{◌≡◌, refl}
use mathlib.Core.Logic.{inl, inr}
use mathlib.Core.Bool.{true, false, ◌||◌}
use mathlib.Core.Option.{Option, none, some}
use mathlib.Core.List.{List, [], ◌∷◌, ◌++◌}
use native.Mathlib.Omega.{arith}
use research_assistant.Base.Tests.{Equality, ◌==◌, Bool-cases, if◌then◌else◌}
use research_assistant.Base.Members.{mem, Distinct}

abbrev pub Dict {ℓ κ} : Type ℓ → Type κ → Type (ℓ ⊔ κ)
Dict K V = List (K × V)

module _ {ℓ κ} {K : Type ℓ} {V : Type κ} where
  abbrev pub keys : Dict K V → List K
  keys [] = []
  keys ((k, v) ∷ d) = k ∷ keys d

  abbrev pub values : Dict K V → List V
  values [] = []
  values ((k, v) ∷ d) = v ∷ values d

module _ {ℓ κ} {K : Type ℓ} {V : Type κ} ⦃e : Equality K⦄ where
  -- `d.get(k)`
  unfoldable pub get : K → Dict K V → Option V
  get k [] = none
  get k ((j, v) ∷ d) = if j == k then some v else get k d

  -- `d[k] = v`
  unfoldable pub put : K → V → Dict K V → Dict K V
  put k v [] = (k, v) ∷ []
  put k v ((j, w) ∷ d) = let rest = put k v d in if j == k then (j, v) ∷ d else (j, w) ∷ rest

  pub get-put :
      (k j : K) (v : V) (d : Dict K V) → get j (put k v d) ≡ (if k == j then some v else get j d)
  unfolding get put
  get-put k j v [] = refl
  get-put k j v ((i, w) ∷ d) =
      ground (arith, e.equals_iff k j, e.equals_iff i k, e.equals_iff i j, get-put k j v d)

  -- A new key comes last.
  pub put_new :
      (k : K) (v : V) (d : Dict K V) → mem k (keys d) ≡ false → put k v d ≡ d ++ (k, v) ∷ []
  unfolding put mem
  put_new k v [] h = refl
  put_new k v ((j, w) ∷ d) h = ground (arith, put_new k v d)

  pub keys-append : (c d : Dict K V) → keys (c ++ d) ≡ keys c ++ keys d
  keys-append [] d = refl
  keys-append ((k, v) ∷ c) d = ground (arith, keys-append c d)

  pub get-ne-none : (k : K) (d : Dict K V) → mem k (keys d) ≡ true → (v : V) × (get k d ≡ some v)
  unfolding get mem
  get-ne-none k [] h = cc
  get-ne-none k ((j, v) ∷ d) h = elim (Bool-cases (j == k)) [
    | inl same ↦ (v, rw same)
    | inr other ↦ let (w, found) = get-ne-none k d (ground arith) in (w, rw other found)
  ]

  pub get_absent : (k : K) (d : Dict K V) → mem k (keys d) ≡ false → get k d ≡ none
  unfolding get mem
  get_absent k [] h = refl
  get_absent k ((j, v) ∷ d) h = ground (arith, get_absent k d)

  pub keys-put_old :
      (k : K) (v : V) (d : Dict K V) → mem k (keys d) ≡ true → keys (put k v d) ≡ keys d
  unfolding put mem
  keys-put_old k v [] h = cc
  keys-put_old k v ((j, w) ∷ d) h = ground (arith, keys-put_old k v d)

  pub keys-put_new :
      (k : K) (v : V) (d : Dict K V) → mem k (keys d) ≡ false → keys (put k v d) ≡ keys d ++ k ∷ []
  keys-put_new k v d h = rw (put_new k v d h) (keys-append d ((k, v) ∷ []))

  pub mem-keys-put :
      (j k : K) (v : V) (d : Dict K V) → mem j (keys (put k v d)) ≡ (k == j || mem j (keys d))
  unfolding put mem
  mem-keys-put j k v [] = refl
  mem-keys-put j k v ((i, w) ∷ d) =
      ground (arith, mem-keys-put j k v d, e.equals_iff k j, e.equals_iff i k, e.equals_iff i j)

  pub Distinct-keys-put :
      (k : K) (v : V) (d : Dict K V) → Distinct (keys d) → Distinct (keys (put k v d))
  unfolding put mem
  Distinct-keys-put k v [] h = (refl, tt)
  Distinct-keys-put k v ((j, w) ∷ d) h =
      ground (
        arith,
        Distinct-keys-put k v d h.1,
        mem-keys-put j k v d,
        e.equals_iff j k,
        e.equals_iff k j,
      )
