-- ===== src/Agent/Planner/Steps.antt =====
-- What `_parse_steps` lets through.
use research_assistant.Base.{
  ℕ, ◌≤◌, ◌≡◌, refl, ap, ◌∙◌, subst, inl, inr, String, true, false, ◌&&◌, not, Option, none, some,
  List, [], ◌∷◌, arith, length, take, length-take-le, All, mem, ◌==◌, string_eq, eq_iff, Bool-cases,
}
use research_assistant.Agent.Json.{Json, str, obj, arr, Fields, get_field, to_list}
use research_assistant.Agent.Tools.{ToolCall, ToolSpec, visible_to_role}
use research_assistant.Agent.Registry.{ToolRegistry, get_spec}
use research_assistant.Agent.Planner.{
  nonempty_str, item_id, known_ids, depends_from, depends_of, usable, step_of, parse_item,
  parse_items, parse_raw, raw_list, parse_steps, unless_all_dropped,
}

-- A step that the planner may hand to the executor: it has an id, its tool is registered and
-- visible to the role, and it depends only on other ids of the model's answer.
pub record IsUsable {W : Type 0} (registry : ToolRegistry W) (role : String) (known : List String)
    (step : ToolCall) : Type 0 where
  pub named : (step.step_id == "") ≡ false
  pub spec : ToolSpec W
  pub registered : get_spec step.tool registry ≡ some spec
  pub visible : visible_to_role spec role ≡ true
  pub depends :
      (d : String)
      → mem d step.depends_on ≡ true
      → (mem d known ≡ true) × ((d == step.step_id) ≡ false)

depends_from_known :
    (known : List String) (step_id : String) (values : List Json) (d : String)
    → mem d (depends_from known step_id values) ≡ true
    → (mem d known ≡ true) × ((d == step_id) ≡ false)
unfolding depends_from mem
depends_from_known known step_id [] d m = ground arith
depends_from_known known step_id (str value ∷ values) d m =
    elim (Bool-cases (mem value known && not (value == step_id))) [
      | inl kept ↦ elim (Bool-cases (value == d)) [
        | inl same ↦
            let e : value ≡ d = (eq_iff value d).0 same in
            ground (arith, kept, ap (λ x. mem x known) e, ap (λ (x : String). x == step_id) e)
        | inr other ↦ depends_from_known known step_id values d (ground arith)
      ]
      | inr dropped ↦ depends_from_known known step_id values d (ground arith)
    ]
depends_from_known known step_id (_ ∷ values) d m = depends_from_known known step_id values d m

depends_of_known :
    (known : List String) (step_id : String) (raw : Option Json) (d : String)
    → mem d (depends_of known step_id raw) ≡ true
    → (mem d known ≡ true) × ((d == step_id) ≡ false)
unfolding depends_of mem
depends_of_known known step_id (some (arr values)) d m =
    depends_from_known known step_id (to_list values) d m
depends_of_known known step_id _ d m = ground arith

nonempty_str_ne : (x : Option Json) (s : String) → nonempty_str x ≡ some s → (s == "") ≡ false
unfolding nonempty_str
nonempty_str_ne (some (str t)) s h = elim (Bool-cases (t == "")) [
  | inl blank ↦ ground arith
  | inr named ↦
      let same : t ≡ s = ground arith in subst (λ (x : String). (x == "") ≡ false) same named
]
nonempty_str_ne _ s h = cc

module _ {W : Type 0} (registry : ToolRegistry W) (role : String) (known : List String) where
  usable-some :
      (tool : String) (spec : ToolSpec W)
      → usable registry role tool ≡ some spec
      → (get_spec tool registry ≡ some spec) × (visible_to_role spec role ≡ true)
  unfolding usable
  usable-some tool spec h = go (get_spec tool registry) refl
    where
      go :
          (x : Option (ToolSpec W))
          → get_spec tool registry ≡ x
          → (get_spec tool registry ≡ some spec) × (visible_to_role spec role ≡ true)
      go none e = ground (arith, h, e)
      go (some found) e = elim (Bool-cases (visible_to_role found role)) [
        | inl sees ↦
            let same : found ≡ spec = ground (arith, h, e, sees) in
            (e ∙ ap some same, subst (λ x. visible_to_role x role ≡ true) same sees)
        | inr not_sees ↦ ground (arith, h, e, not_sees)
      ]

  step_of-IsUsable :
      (d : Fields) (i : String) (tool args : Option Json) (step : ToolCall)
      → (i == "") ≡ false
      → step_of registry role known d i tool args ≡ some step
      → IsUsable registry role known step
  unfolding step_of
  step_of-IsUsable d i (some (str tool)) (some (obj args)) step named h =
      go (usable registry role tool) refl
    where
      go :
          (x : Option (ToolSpec W))
          → usable registry role tool ≡ x
          → IsUsable registry role known step
      go none e = ground (arith, h, e)
      go (some spec) e =
          let call : ToolCall = record {
            step_id = i;
            tool = tool;
            args = args;
            depends_on = depends_of known i (get_field "depends_on" d);
          } in
          let same : call ≡ step = ground (arith, h, e) in
          let (registered, visible) = usable-some tool spec e in
          subst (IsUsable registry role known) same (record {
            named = named;
            spec = spec;
            registered = registered;
            visible = visible;
            depends = depends_of_known known i (get_field "depends_on" d);
          })
  step_of-IsUsable d i _ _ step named h = cc

  parse_item-IsUsable :
      (item : Json) (step : ToolCall)
      → parse_item registry role known item ≡ some step
      → IsUsable registry role known step
  unfolding parse_item item_id
  parse_item-IsUsable (obj d) step h = go (nonempty_str (get_field "id" d)) refl
    where
      go :
          (x : Option String)
          → nonempty_str (get_field "id" d) ≡ x
          → IsUsable registry role known step
      go none e = ground (arith, h, e)
      go (some i) e =
          step_of-IsUsable d i (get_field "tool" d) (get_field "args" d) step
            (nonempty_str_ne (get_field "id" d) i e) (rw (e, parse_item) at h)
  parse_item-IsUsable _ step h = cc

  parse_items-IsUsable :
      (items : List Json)
      → All (IsUsable registry role known) (parse_items registry role known items)
  unfolding parse_items
  parse_items-IsUsable [] = tt
  parse_items-IsUsable (item ∷ items) =
      go (parse_item registry role known item) refl (parse_items-IsUsable items)
    where
      go :
          (x : Option ToolCall)
          → parse_item registry role known item ≡ x
          → All (IsUsable registry role known) (parse_items registry role known items)
          → All (IsUsable registry role known) (parse_items registry role known (item ∷ items))
      go none e rest = rw (e, parse_items) rest
      go (some step) e rest = rw (e, parse_items) (parse_item-IsUsable item step e, rest)

  length-parse_items-le :
      (items : List Json) → length (parse_items registry role known items) ≤ length items
  unfolding parse_items
  length-parse_items-le [] = omega arith
  length-parse_items-le (item ∷ items) = ground (arith, length-parse_items-le items)

-- The raw list of steps of a model's answer.
unfoldable pub raw_steps : Fields → List Json
raw_steps d = elim (raw_list (get_field "steps" d)) [ none ↦ [] | some raw ↦ raw ]

module _ {W : Type 0} (registry : ToolRegistry W) (role : String) (max_steps : ℕ) where
  parse_raw-some :
      (raw : List Json) (steps : List ToolCall)
      → parse_raw registry role max_steps raw ≡ some steps
      → parse_items registry role (known_ids raw) (take max_steps raw) ≡ steps
  unfolding parse_raw
  parse_raw-some raw steps h =
      go raw (parse_items registry role (known_ids raw) (take max_steps raw)) h
    where
      go : (r : List Json) (l : List ToolCall) → unless_all_dropped r l ≡ some steps → l ≡ steps
      go [] l e = ground (arith, e)
      go (x ∷ r) [] e = cc
      go (x ∷ r) (y ∷ l) e = ground (arith, e)

  parse_steps-some :
      (d : Fields) (steps : List ToolCall)
      → parse_steps registry role max_steps d ≡ some steps
      → parse_items registry role (known_ids (raw_steps d)) (take max_steps (raw_steps d)) ≡ steps
  unfolding parse_steps raw_steps
  parse_steps-some d steps h = go (raw_list (get_field "steps" d)) refl
    where
      go :
          (x : Option (List Json))
          → raw_list (get_field "steps" d) ≡ x
          → parse_items registry role (known_ids (raw_steps d)) (take max_steps (raw_steps d))
            ≡ steps
      go none e = ground (arith, h, e)
      go (some raw) e = rw (e, raw_steps) (parse_raw-some raw steps (rw (e, parse_steps) at h))

  -- The steps that the planner accepts are at most `max_steps`, and each of them is usable.
  pub parse_steps-IsUsable :
      (d : Fields) (steps : List ToolCall)
      → parse_steps registry role max_steps d ≡ some steps
      → (length steps ≤ max_steps) × All (IsUsable registry role (known_ids (raw_steps d))) steps
  parse_steps-IsUsable d steps h =
      let e = parse_steps-some d steps h in
      let items = take max_steps (raw_steps d) in
      let known = known_ids (raw_steps d) in
      (
        omega (
          arith,
          ap length e,
          length-parse_items-le registry role known items,
          length-take-le max_steps (raw_steps d),
        ),
        subst (All (IsUsable registry role known)) e
            (parse_items-IsUsable registry role known items),
      )
