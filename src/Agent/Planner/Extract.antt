-- ===== src/Agent/Planner/Extract.antt =====
-- `_extract_json` of planner.py.
use Prim.Native.Nat.{◌-◌}
use Prim.Native.Char.{code}
use text.Mathlib.Text.{starts_with}
use research_assistant.Base.{
  ℕ, ◌+◌, String, Option, none, some, List, [], ◌∷◌, eqb, ◌==◌, string_eq, if◌then◌else◌, ◌≡◌, refl,
  arith, ◌⊎◌, inl, inr,
}
use mathlib.Core.Option
use research_assistant.Base.Text.{strip, lstrip, splitlines, join}
use research_assistant.Core.Errors.{Result, ok, err, Exn}
use research_assistant.Agent.Json.{Json, obj, Fields}

-- `lines[1:]`, if the first line begins a fence.
drop_opening : List String → List String
drop_opening [] = []
drop_opening (line ∷ lines) = if starts_with (lstrip line) "```" then lines else line ∷ lines

-- `lines[:-1]`, if the last line is a fence.
drop_closing : List String → List String
drop_closing [] = []
drop_closing (line ∷ []) = if strip line == "```" then [] else line ∷ []
drop_closing (line ∷ next ∷ lines) = line ∷ drop_closing (next ∷ lines)

unfoldable pub unfence : String → String
unfolding drop_opening drop_closing
unfence candidate =
    if starts_with candidate "```"
    then strip (join "\n" (drop_closing (drop_opening (splitlines candidate))))
    else candidate

-- `candidate[candidate.find("{"):]`, or `none` where there is no brace.
unfoldable pub from_brace : String → Option String
from_brace String.[] = none
from_brace (String.◌∷◌ c s) =
    let rest = from_brace s in if eqb (code c) b'{' then some (String.◌∷◌ c s) else rest

-- The scan for the closing brace, from the depth so far: the text up to and with the character at
-- which the depth is 0 again.
unfoldable pub scan : ℕ → String → Option String
scan depth String.[] = none
scan depth (String.◌∷◌ c s) =
    let opened = Option.map (String.◌∷◌ c) (scan (depth + 1) s) in
    let closed = Option.map (String.◌∷◌ c) (scan (depth - 1) s) in
    let passed = Option.map (String.◌∷◌ c) (scan depth s) in
    if eqb (code c) b'{'
    then opened
    else if eqb (code c) b'}'
    then (if eqb (depth - 1) 0 then some (String.◌∷◌ c String.[]) else closed)
    else passed

-- `data if isinstance(data, dict) else None`
unfoldable pub dict_only : Json → Option Fields
dict_only (obj d) = some d
dict_only _ = none

-- What `json.loads` gives: a value, `JSONDecodeError`, or another exception (`ValueError` for an integer
-- with too many digits, `RecursionError` for deep nesting), which `_extract_json` does not catch.
pub data Loaded : Type 0 where
  parsed : Json → Loaded
  not_json : Loaded
  raises : Exn → Loaded

module _ (loads : String → Loaded) where
  unfoldable pub first_object : String → Result (Option Fields)
  unfolding from_brace scan dict_only
  first_object candidate = elim (from_brace candidate) [
    | none ↦ ok none
    | some rest ↦ elim (scan 0 rest) [
      | none ↦ ok none
      | some object ↦ elim (loads object) [
        | parsed value ↦ ok (dict_only value)
        | not_json ↦ ok none
        | raises e ↦ err e
      ]
    ]
  ]

  unfoldable pub extract_json : String → Result (Option Fields)
  unfolding first_object unfence
  extract_json text =
      let candidate = unfence (strip text) in
      elim (loads candidate) [
        | parsed value ↦ ok (dict_only value)
        | not_json ↦ first_object candidate
        | raises e ↦ err e
      ]

  -- The texts that are given to `json.loads`.
  abbrev pub IsCandidate : (text json : String) → Type 0
  IsCandidate text json =
      (json ≡ unfence (strip text))
      ⊎ ((rest : String) × (from_brace (unfence (strip text)) ≡ some rest)
          × (scan 0 rest ≡ some json))

  first_object-err :
      (text : String) (e : Exn)
      → first_object (unfence (strip text)) ≡ err e
      → (json : String) × (loads json ≡ raises e) × IsCandidate text json
  unfolding first_object
  first_object-err text e h = braced (from_brace (unfence (strip text))) refl
    where
      Found : Type 0
      Found = (json : String) × (loads json ≡ raises e) × IsCandidate text json

      loaded :
          (rest object : String) (l : Loaded)
          → from_brace (unfence (strip text)) ≡ some rest
          → scan 0 rest ≡ some object
          → loads object ≡ l
          → Found
      loaded rest object (parsed value) p q r = absurd (ground (arith, h, p, q, r))
      loaded rest object not_json p q r = absurd (ground (arith, h, p, q, r))
      loaded rest object (raises x) p q r = (object, ground (arith, h, p, q, r), inr (rest, p, q))

      scanned :
          (rest : String) (o : Option String)
          → from_brace (unfence (strip text)) ≡ some rest
          → scan 0 rest ≡ o
          → Found
      scanned rest none p q = absurd (ground (arith, h, p, q))
      scanned rest (some object) p q = loaded rest object (loads object) p q refl

      braced : (o : Option String) → from_brace (unfence (strip text)) ≡ o → Found
      braced none p = absurd (ground (arith, h, p))
      braced (some rest) p = scanned rest (scan 0 rest) p refl

  -- `_extract_json` raises only what `json.loads` raises for one of its two candidates.
  pub extract_json-err :
      (text : String) (e : Exn)
      → extract_json text ≡ err e
      → (json : String) × (loads json ≡ raises e) × IsCandidate text json
  unfolding extract_json
  extract_json-err text e h = go (loads (unfence (strip text))) refl
    where
      go :
          (l : Loaded)
          → loads (unfence (strip text)) ≡ l
          → (json : String) × (loads json ≡ raises e) × IsCandidate text json
      go (parsed value) p = absurd (ground (arith, h, p))
      go not_json p = first_object-err text e (ground (arith, h, p))
      go (raises x) p = (unfence (strip text), ground (arith, h, p), inl refl)
