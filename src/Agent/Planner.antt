-- ===== src/Agent/Planner.antt =====
-- backend/app/modules/agent/planner.py: a plan from the text of a language model, checked against
-- the registry and the role, or the fallback plan. `json.loads`, `json.dumps` and the provider are
-- parameters.
pub mod Extract
pub mod Service
pub mod Steps
pub mod Braces
pub mod Plans
use Prim.Native.String.{◌++◌ as cat}
use research_assistant.Base.{
  ℕ, zero, suc, String, Bool, true, false, ◌&&◌, not, Option, none, some, List, [], ◌∷◌, ◌++◌, map,
  max, ℤ, pos, negsuc, take, keep_if, mem, ◌==◌, string_eq, if◌then◌else◌,
}
use research_assistant.Base.Text.{◌<>◌, strip, join}
use research_assistant.Core.Errors.{Result, ok, err, Exn, raise_insight, configuration}
use research_assistant.Agent.Json.{
  Json, str, obj, arr, Fields, field, end, Items, nil, cons, get_field, to_list,
}
use research_assistant.Agent.Tools.{ToolCall, ToolSpec, visible_to_role}
use research_assistant.Agent.Registry.{ToolRegistry, get_spec, list_specs}
use research_assistant.Agent.Plan.{Plan, PlanSource, llm, fallback}

-- `app/modules/llm/base.py`: one message, and what a provider gives: its text or an exception.
pub record LlmMessage : Type 0 where
  pub role : String
  pub content : String

pub data Completion : Type 0 where
  response : String → Completion
  failure : (type_name message : String) → Completion

abbrev pub Provider : Type 0
Provider = List LlmMessage → Completion

-- `isinstance(x, str) and x`
unfoldable pub nonempty_str : Option Json → Option String
nonempty_str (some (str s)) = if s == "" then none else some s
nonempty_str _ = none

unfoldable pub item_id : Json → Option String
unfolding nonempty_str
item_id (obj d) = nonempty_str (get_field "id" d)
item_id _ = none

-- The set `known_ids`.
unfoldable pub known_ids : List Json → List String
unfolding item_id
known_ids [] = []
known_ids (item ∷ items) = elim (item_id item) [
  | none ↦ known_ids items
  | some step_id ↦ step_id ∷ known_ids items
]

unfoldable pub depends_from : (known : List String) (step_id : String) → List Json → List String
depends_from known step_id [] = []
depends_from known step_id (str value ∷ values) =
    let rest = depends_from known step_id values in
    if mem value known && not (value == step_id) then value ∷ rest else rest
depends_from known step_id (_ ∷ values) = depends_from known step_id values

unfoldable pub depends_of : (known : List String) (step_id : String) → Option Json → List String
unfolding depends_from
depends_of known step_id (some (arr values)) = depends_from known step_id (to_list values)
depends_of known step_id _ = []

-- `if not isinstance(raw_steps, list): return None`
unfoldable pub raw_list : Option Json → Option (List Json)
raw_list (some (arr raw)) = some (to_list raw)
raw_list _ = none

-- `if raw_steps and not steps: return None`
abbrev pub unless_all_dropped : List Json → List ToolCall → Option (List ToolCall)
unless_all_dropped (item ∷ items) [] = none
unless_all_dropped _ steps = some steps

module _ {W : Type 0} (registry : ToolRegistry W) (role : String) where
  -- The spec of a registered tool that the role may see.
  unfoldable pub usable : String → Option (ToolSpec W)
  usable tool = elim (get_spec tool registry) [
    | none ↦ none
    | some spec ↦ if visible_to_role spec role then some spec else none
  ]

  -- The step of an item with an id, whose tool is a text and whose args are a dict.
  unfoldable pub step_of :
      (known : List String) → Fields → String → Option Json → Option Json → Option ToolCall
  unfolding usable depends_of
  step_of known d step_id (some (str tool)) (some (obj args)) = elim (usable tool) [
    | none ↦ none
    | some spec ↦ some (record {
      step_id = step_id;
      tool = tool;
      args = args;
      depends_on = depends_of known step_id (get_field "depends_on" d);
    })
  ]
  step_of known d step_id _ _ = none

  -- The body of the loop of `_parse_steps`; `continue` is `none`.
  unfoldable pub parse_item : (known : List String) → Json → Option ToolCall
  unfolding step_of item_id
  parse_item known (obj d) = elim (item_id (obj d)) [
    | none ↦ none
    | some step_id ↦ step_of known d step_id (get_field "tool" d) (get_field "args" d)
  ]
  parse_item known _ = none

  unfoldable pub parse_items : (known : List String) → List Json → List ToolCall
  unfolding parse_item
  parse_items known [] = []
  parse_items known (item ∷ items) = elim (parse_item known item) [
    | none ↦ parse_items known items
    | some step ↦ step ∷ parse_items known items
  ]

  unfoldable pub parse_raw : ℕ → List Json → Option (List ToolCall)
  unfolding parse_items known_ids
  parse_raw max_steps raw =
      unless_all_dropped raw (parse_items (known_ids raw) (take max_steps raw))

  -- `_parse_steps`
  unfoldable pub parse_steps : ℕ → Fields → Option (List ToolCall)
  unfolding parse_raw raw_list
  parse_steps max_steps d = elim (raw_list (get_field "steps" d)) [
    | none ↦ none
    | some raw ↦ parse_raw max_steps raw
  ]

-- `_fallback`
unfoldable pub fallback_plan : (query reason : String) → Plan
fallback_plan query reason = record {
  steps =
      record {
        step_id = "step-1";
        tool = "rag_tool";
        args = field "query" (str query) end;
        depends_on = [];
      }
      ∷ [];
  rationale = some reason;
  source = fallback;
}

unfoldable pub rationale_of : Fields → Option String
rationale_of d = elim (get_field "rationale" d) [
  | some (str text) ↦ if strip text == "" then none else some (strip text)
  | other ↦ none
]
