-- ===== src/Agent/Planner/Braces.antt =====
-- The scan of `_extract_json` against counts of braces.
use Prim.Native.Nat.{◌-◌}
use Prim.Native.Char.{Char, code}
use mathlib.Core.Option
use research_assistant.Base.{
  ℕ, zero, suc, ◌+◌, ◌<◌, ◌≡◌, refl, ap, sym, ◌∙◌, subst, String, true, Option, none, some, arith,
  Bool-cases, ◌⊎◌, inl, inr, eqb, if◌then◌else◌,
}
use research_assistant.Agent.Planner.Extract.{scan, from_brace}

abbrev pub opens : String → ℕ
opens String.[] = 0
opens (String.◌∷◌ c s) = if eqb (code c) b'{' then suc (opens s) else opens s

abbrev pub closes : String → ℕ
closes String.[] = 0
closes (String.◌∷◌ c s) = if eqb (code c) b'}' then suc (closes s) else closes s

-- The first characters of a text.
abbrev pub first : ℕ → String → String
first zero s = String.[]
first (suc n) String.[] = String.[]
first (suc n) (String.◌∷◌ c s) = String.◌∷◌ c (first n s)

-- After so many characters the braces from `depth` on are not yet closed.
abbrev pub IsOpen : ℕ → ℕ → String → Type 0
IsOpen depth m s = closes (first m s) < depth + opens (first m s)

-- `t` is the shortest beginning of `s` that closes all braces; at depth 0 the empty one does not
-- count.
pub record IsClosing (depth : ℕ) (s t : String) : Type 0 where
  pub size : ℕ
  pub beginning : t ≡ first size s
  pub balanced : closes t ≡ depth + opens t
  pub shortest : (m : ℕ) → 0 < m + depth → m < size → IsOpen depth m s

-- The depth behind a character.
abbrev after : ℕ → Char → ℕ
after depth c =
    if eqb (code c) b'{' then depth + 1 else if eqb (code c) b'}' then depth - 1 else depth

-- The scan does not begin with a closing brace.
abbrev Begins : ℕ → Char → Type 0
Begins depth c = 0 < depth + (if eqb (code c) b'{' then 1 else 0)

IsOpen-cons :
    (depth : ℕ) (c : Char) (s : String) (m : ℕ)
    → Begins depth c
    → IsOpen (after depth c) m s
    → IsOpen depth (suc m) (String.◌∷◌ c s)
IsOpen-cons depth c s m begins h = ground arith

IsClosing-cons :
    (depth : ℕ) (c : Char) (s t : String)
    → Begins depth c
    → 0 < after depth c
    → IsClosing (after depth c) s t
    → IsClosing depth (String.◌∷◌ c s) (String.◌∷◌ c t)
IsClosing-cons depth c s t begins inside h = record {
  size = suc h.size;
  beginning = ap (String.◌∷◌ c) h.beginning;
  balanced = ground (arith, h.balanced);
  shortest = go;
}
  where
    go : (m : ℕ) → 0 < m + depth → m < suc h.size → IsOpen depth m (String.◌∷◌ c s)
    go zero low m = omega arith
    go (suc m) low lt = IsOpen-cons depth c s m begins (h.shortest m (omega arith) (omega arith))

IsClosing-last :
    (depth : ℕ) (c : Char) (s : String)
    → Begins depth c
    → eqb (code c) b'}' ≡ true
    → depth - 1 ≡ 0
    → IsClosing depth (String.◌∷◌ c s) (String.◌∷◌ c String.[])
IsClosing-last depth c s begins brace last = record {
  size = 1;
  beginning = refl;
  balanced = ground arith;
  shortest = λ m low lt. go m low lt;
}
  where
    go : (m : ℕ) → 0 < m + depth → m < 1 → IsOpen depth m (String.◌∷◌ c s)
    go zero low lt = omega arith
    go (suc m) low lt = absurd (omega arith)

scan-cases :
    (depth : ℕ) (c : Char) (s : String)
    → Begins depth c
    → ((eqb (code c) b'}' ≡ true)
        × (depth - 1 ≡ 0)
        × (scan depth (String.◌∷◌ c s) ≡ some (String.◌∷◌ c String.[])))
      ⊎ ((0 < after depth c)
          × (scan depth (String.◌∷◌ c s) ≡ Option.map (String.◌∷◌ c) (scan (after depth c) s)))
unfolding scan
scan-cases depth c s begins = ground arith

map-eq-some :
    (c : Char) (x : Option String) (t : String)
    → Option.map (String.◌∷◌ c) x ≡ some t
    → (u : String) × (x ≡ some u) × (t ≡ String.◌∷◌ c u)
map-eq-some c none t h = ground arith
map-eq-some c (some u) t h = (u, refl, ground arith)

scan_step :
    (depth : ℕ) (c : Char) (s t : String)
    → Begins depth c
    → ((u : String)
        → 0 < after depth c
        → scan (after depth c) s ≡ some u
        → IsClosing (after depth c) s u)
    → scan depth (String.◌∷◌ c s) ≡ some t
    → IsClosing depth (String.◌∷◌ c s) t
scan_step depth c s t begins rest h = elim (scan-cases depth c s begins) [
  | inl (brace, last, e) ↦
      let same : String.◌∷◌ c String.[] ≡ t = ground (arith, h, e) in
      subst (IsClosing depth (String.◌∷◌ c s)) same (IsClosing-last depth c s begins brace last)
  | inr (inside, e) ↦
      let (u, found, shape) = map-eq-some c (scan (after depth c) s) t (sym e ∙ h) in
      subst (IsClosing depth (String.◌∷◌ c s)) (sym shape)
        (IsClosing-cons depth c s u begins inside (rest u inside found))
]

scan-IsClosing_from :
    (depth : ℕ) (s t : String) → 0 < depth → scan depth s ≡ some t → IsClosing depth s t
unfolding scan
scan-IsClosing_from depth String.[] t pos h = ground arith
scan-IsClosing_from depth (String.◌∷◌ c s) t pos h =
    scan_step depth c s t (ground arith) (λ u. scan-IsClosing_from (after depth c) s u) h

scan_unclosed :
    (depth : ℕ) (c : Char) (s : String)
    → Begins depth c
    → (0 < after depth c → scan (after depth c) s ≡ none → (m : ℕ) → IsOpen (after depth c) m s)
    → scan depth (String.◌∷◌ c s) ≡ none
    → (m : ℕ) → 0 < m + depth
    → IsOpen depth m (String.◌∷◌ c s)
scan_unclosed depth c s begins rest h zero low = omega arith
scan_unclosed depth c s begins rest h (suc m) low = elim (scan-cases depth c s begins) [
  | inl (brace, last, e) ↦ ground (arith, h, e)
  | inr (inside, e) ↦ IsOpen-cons depth c s m begins (rest inside (ground (arith, h, e)) m)
]

scan-none_from :
    (depth : ℕ) (s : String) → 0 < depth → scan depth s ≡ none → (m : ℕ) → IsOpen depth m s
scan-none_from depth String.[] pos h zero = omega arith
scan-none_from depth String.[] pos h (suc m) = omega arith
scan-none_from depth (String.◌∷◌ c s) pos h m =
    scan_unclosed depth c s (ground arith) (scan-none_from (after depth c) s) h m (omega arith)

from_brace_head :
    (text s : String)
    → from_brace text ≡ some s
    → (c : Char) × (rest : String) × (s ≡ String.◌∷◌ c rest) × (eqb (code c) b'{' ≡ true)
unfolding from_brace
from_brace_head String.[] s h = ground arith
from_brace_head (String.◌∷◌ c text) s h = elim (Bool-cases (eqb (code c) b'{')) [
  | inl brace ↦ (c, text, ground arith, brace)
  | inr other ↦ from_brace_head text s (ground arith)
]

-- From the first opening brace of a text, the scan finds the shortest part that closes all of its
-- braces; where it finds none, no beginning closes them.
pub scan-IsClosing :
    (text s : String)
    → from_brace text ≡ some s
    → ((t : String) → scan 0 s ≡ some t → IsClosing 0 s t)
      × (scan 0 s ≡ none → (m : ℕ) → 0 < m → IsOpen 0 m s)
scan-IsClosing text s h =
    let (c, rest, shape, brace) = from_brace_head text s h in
    let begins : Begins 0 c = ground arith in
    (
      λ t found.
          subst (λ x. IsClosing 0 x t) (sym shape)
            (scan_step 0 c rest t begins (λ u. scan-IsClosing_from (after 0 c) rest u)
              (rw shape at found)),
      λ lost m low.
          subst (λ x. IsOpen 0 m x) (sym shape)
            (scan_unclosed 0 c rest begins (scan-none_from (after 0 c) rest) (rw shape at lost) m
              (omega arith)),
    )
