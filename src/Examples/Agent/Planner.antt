-- ===== src/Examples/Agent/Planner.antt =====
-- Plans from a model's text.
use research_assistant.Base.{
  ℕ, ◌≡◌, refl, ◌≤◌, ◌<◌, String, none, some, [], ◌∷◌, take, All, mem, get, ◌==◌, string_eq,
  if◌then◌else◌,
}
use research_assistant.Agent.Json.{
  Json, Fields, str, arr, obj, field, end, nil, cons, get_field, to_list,
}
use research_assistant.Agent.Tools.{visible_to_role}
use research_assistant.Agent.Registry.{get_spec}
use research_assistant.Agent.Planner.{known_ids, parse_steps, response}
use research_assistant.Agent.Planner.Extract.{parsed, not_json, from_brace, scan}
use research_assistant.Agent.Planner.Braces.{IsClosing, IsOpen, scan-IsClosing}
use research_assistant.Agent.Planner.Service.{Codec, Planner}
use research_assistant.Agent.Planner.Steps.{IsUsable, raw_steps, parse_steps-IsUsable}
use research_assistant.Examples.Agent.{registry, step}

abbrev pub item : (step_id tool depends_on : String) → Json
item step_id tool depends_on = obj (
    field "id" (str step_id) (
      field "tool" (str tool)
        (field "args" (obj end) (field "depends_on" (arr (cons (str depends_on) nil)) end))))

-- A tool that the role may not see, an unknown tool, and two usable steps.
abbrev answer : Fields
answer =
    field "steps"
      (arr (
        cons (item "x" "hidden" "") (
          cons (item "y" "nowhere" "")
            (cons (item "a" "echo" "a") (cons (item "b" "echo" "a") nil)))))
      end

parse_steps-answer :
    parse_steps registry "user" 5 answer ≡ some (step "a" [] ∷ step "b" ("a" ∷ []) ∷ [])
unfolding parse_steps get_field to_list take mem get get_spec visible_to_role
parse_steps-answer = refl

parse_steps-IsUsable_example :
    (2 ≤ 5)
    × All
        (IsUsable registry "user" (known_ids (raw_steps answer)))
        (step "a" [] ∷ step "b" ("a" ∷ []) ∷ [])
parse_steps-IsUsable_example =
    parse_steps-IsUsable registry "user" 5 answer (step "a" [] ∷ step "b" ("a" ∷ []) ∷ [])
      parse_steps-answer

abbrev pub codec : Codec
codec = record {
  loads = λ text. if text == "plan" then parsed (obj answer) else not_json;
  dumps = λ d. "{}";
  show = λ n. "5";
}

abbrev pub planner : Planner ℕ
planner = record {
  provider = some (λ messages. response "plan");
  registry = registry;
  max_steps = 5;
  instruction = "";
}

found_brace : from_brace "a {b{}} c" ≡ some "{b{}} c"
unfolding from_brace
found_brace = refl

scan_sample : scan 0 "{b{}} c" ≡ some "{b{}}"
unfolding scan
scan_sample = refl

scan-IsClosing_example :
    ((t : String) → scan 0 "{b{}} c" ≡ some t → IsClosing 0 "{b{}} c" t)
    × (scan 0 "{b{}} c" ≡ none → (m : ℕ) → 0 < m → IsOpen 0 m "{b{}} c")
scan-IsClosing_example = scan-IsClosing "a {b{}} c" "{b{}} c" found_brace
