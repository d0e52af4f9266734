-- ===== src/Base/Text.antt =====
-- Python's `str` methods that the program uses, on texts as sequences of code points.
use Prim.Native.Nat.{ℕ, zero, suc, ◌≤◌}
use native.Mathlib.Omega.{arith}
use Prim.Native.Char.{Char, code}
use Prim.Native.String.{String, ◌++◌ as cat}
use mathlib.Core.Bool.{Bool, true, false, ◌&&◌, ◌||◌}
use mathlib.Core.List.{List, [], ◌∷◌}
use text.Mathlib.Text.{◌==◌}
use research_assistant.Base.Tests.{leb, eqb, if◌then◌else◌}

infixr 65 ◌<>◌
abbrev pub ◌<>◌ : String → String → String
s <> t = cat s t

-- `str.isspace` of one character
unfoldable pub is_space : ℕ → Bool
is_space c =
    (leb 9 c && leb c 13)
    || (leb 28 c && leb c 32)
    || eqb c 133
    || eqb c 160
    || eqb c 5760
    || (leb 8192 c && leb c 8202)
    || eqb c 8232
    || eqb c 8233
    || eqb c 8239
    || eqb c 8287
    || eqb c 12288

-- Where `str.splitlines` ends a line.
unfoldable pub is_line_end : ℕ → Bool
is_line_end c =
    (leb 10 c && leb c 13) || (leb 28 c && leb c 30) || eqb c 133 || eqb c 8232 || eqb c 8233

-- One character, as a text.
abbrev single : Char → String
single c = String.◌∷◌ c String.[]

unfoldable pub lstrip : String → String
unfolding is_space
lstrip String.[] = String.[]
lstrip (String.◌∷◌ c s) = let rest = lstrip s in if is_space (code c) then rest else String.◌∷◌ c s

-- A character in front of a text that is stripped at its end.
keep_unless_last_space : Char → String → String
unfolding is_space
keep_unless_last_space c String.[] = if is_space (code c) then String.[] else single c
keep_unless_last_space c (String.◌∷◌ d t) = String.◌∷◌ c (String.◌∷◌ d t)

unfoldable pub rstrip : String → String
unfolding keep_unless_last_space
rstrip String.[] = String.[]
rstrip (String.◌∷◌ c s) = keep_unless_last_space c (rstrip s)

unfoldable pub strip : String → String
unfolding lstrip rstrip
strip s = rstrip (lstrip s)

-- `cur` is the line so far, and `after_cr` says that a carriage return has just ended a line.
lines_from : (cur : String) (after_cr : Bool) → String → List String
unfolding is_line_end
lines_from cur after_cr String.[] = if cur == "" then [] else cur ∷ []
lines_from cur after_cr (String.◌∷◌ c s) =
    let skipped = lines_from cur false s in
    let ended = cur ∷ lines_from "" (eqb (code c) 13) s in
    let longer = lines_from (cur <> single c) false s in
    if after_cr && eqb (code c) 10 then skipped else if is_line_end (code c) then ended else longer

unfoldable pub splitlines : String → List String
unfolding lines_from
splitlines s = lines_from "" false s

-- `sep.join(lines)`
unfoldable pub join : String → List String → String
join sep [] = ""
join sep (line ∷ []) = line
join sep (line ∷ next ∷ lines) = line <> sep <> join sep (next ∷ lines)

-- `len(s)`
unfoldable pub len : String → ℕ
len String.[] = 0
len (String.◌∷◌ c s) = suc (len s)

-- `s[:n]`
unfoldable pub slice : ℕ → String → String
slice zero s = String.[]
slice (suc n) String.[] = String.[]
slice (suc n) (String.◌∷◌ c s) = String.◌∷◌ c (slice n s)

-- `cur` is the word so far.
words_from : (cur : String) → String → List String
unfolding is_space
words_from cur String.[] = if cur == "" then [] else cur ∷ []
words_from cur (String.◌∷◌ c s) =
    let next = words_from "" s in
    let longer = words_from (cur <> single c) s in
    if is_space (code c) then (if cur == "" then next else cur ∷ next) else longer

-- `s.split()`
unfoldable pub words : String → List String
unfolding words_from
words s = words_from "" s

pub len-slice-le : (n : ℕ) (s : String) → len (slice n s) ≤ n
unfolding len slice
len-slice-le zero s = omega arith
len-slice-le (suc n) String.[] = omega arith
len-slice-le (suc n) (String.◌∷◌ c s) = omega (arith, len-slice-le n s)

len-lstrip-le : (s : String) → len (lstrip s) ≤ len s
unfolding len lstrip
len-lstrip-le String.[] = omega arith
len-lstrip-le (String.◌∷◌ c s) = ground (arith, len-lstrip-le s)

len-nothing_or-le : (b : Bool) (s : String) → len s ≤ 1 → len (if b then String.[] else s) ≤ 1
unfolding len
len-nothing_or-le true s h = omega arith
len-nothing_or-le false s h = h

len-keep_unless_last_space-le :
    (c : Char) (s : String) → len (keep_unless_last_space c s) ≤ suc (len s)
unfolding len keep_unless_last_space
len-keep_unless_last_space-le c String.[] =
    len-nothing_or-le (is_space (code c)) (single c) (omega arith)
len-keep_unless_last_space-le c (String.◌∷◌ d s) = omega arith

len-rstrip-le : (s : String) → len (rstrip s) ≤ len s
unfolding len rstrip
len-rstrip-le String.[] = omega arith
len-rstrip-le (String.◌∷◌ c s) =
    omega (arith, len-rstrip-le s, len-keep_unless_last_space-le c (rstrip s))

pub len-strip-le : (s : String) → len (strip s) ≤ len s
unfolding strip
len-strip-le s = omega (arith, len-lstrip-le s, len-rstrip-le (lstrip s))
