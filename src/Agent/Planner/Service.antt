-- ===== src/Agent/Planner/Service.antt =====
-- The class `Planner` of planner.py.
use research_assistant.Base.{
  ℕ, String, Option, none, some, List, [], ◌∷◌, ◌++◌, max, ℤ, pos, negsuc, ◌==◌, string_eq,
  if◌then◌else◌,
}
use research_assistant.Base.Text.{◌<>◌, strip, join}
use research_assistant.Core.Errors.{Result, ok, err, raise_insight, configuration}
use research_assistant.Agent.Json.{Fields}
use research_assistant.Agent.Tools.{ToolSpec}
use research_assistant.Agent.Registry.{ToolRegistry, list_specs}
use research_assistant.Agent.Plan.{Plan, llm}
use research_assistant.Agent.Planner.{
  LlmMessage, Completion, response, failure, Provider, parse_steps, fallback_plan, rationale_of,
}
use research_assistant.Agent.Planner.Extract.{Loaded, extract_json}

-- `json.loads`, `json.dumps(…, sort_keys=True)`, and `str` of
-- a number.
pub record Codec : Type 0 where
  pub loads : String → Loaded
  pub dumps : Fields → String
  pub show : ℕ → String

pub record Planner (W : Type 0) : Type 0 where
  pub provider : Option Provider
  pub registry : ToolRegistry W
  pub max_steps : ℕ
  pub instruction : String

abbrev default_planner_instruction : String
default_planner_instruction =
    "Decompose the user's request into an ordered list of tool steps. Only use "
    <> "the tools listed below. Prefer the smallest number of steps that satisfies "
    <> "the request; chain steps with 'depends_on' when one step needs another's "
    <> "result (for example: retrieve a passage with rag_tool, then transform it "
    <> "with nlp_tool)."

-- `max(1, max_steps)`
unfoldable pub at_least_one : ℤ → ℕ
at_least_one (pos n) = max 1 n
at_least_one (negsuc _) = 1

-- `instruction or DEFAULT_PLANNER_INSTRUCTION`
instruction_or_default : Option String → String
instruction_or_default none = default_planner_instruction
instruction_or_default (some text) = if text == "" then default_planner_instruction else text

-- `Planner.__init__`
unfoldable pub new_planner :
    {W : Type 0} → Option Provider → ToolRegistry W → ℤ → Option String → Planner W
unfolding at_least_one instruction_or_default
new_planner provider registry max_steps instruction = record {
  provider = provider;
  registry = registry;
  max_steps = at_least_one max_steps;
  instruction = instruction_or_default instruction;
}

module _ (codec : Codec) {W : Type 0} where
  spec_lines : List (ToolSpec W) → List String
  spec_lines [] = []
  spec_lines (spec ∷ specs) =
      ("- " <> spec.name <> ": " <> spec.description)
      ∷ ("  schema: " <> codec.dumps spec.parameters)
      ∷ spec_lines specs

  prompt_for : Planner W → List (ToolSpec W) → String
  unfolding spec_lines
  prompt_for planner [] = planner.instruction <> "\n\nNo tools are available for this role."
  prompt_for planner (spec ∷ specs) = join "\n" (
      ("You are the planner of a multimodal research agent."
        ∷ planner.instruction
        ∷ "\nAvailable tools:"
        ∷ spec_lines (spec ∷ specs))
      ++ ("\nRespond with ONLY a JSON object of the form: "
          <> "{\"rationale\": \"why\", \"steps\": ["
          <> "{\"id\": \"step-1\", \"tool\": \"rag_tool\", \"args\": {...}, \"depends_on\": [\"step-0\"]}]}")
        ∷ ("- 'id' must be unique (step-1, step-2, ...). "
            <> "- 'depends_on' lists step ids that must finish first; omit it for independent steps. "
            <> "- Emit at most "
            <> codec.show planner.max_steps
            <> " steps. "
            <> "- 'args' must satisfy the tool's JSON schema. "
            <> "- If no tool is needed, respond with \"steps\": [].")
        ∷ [])

  -- `_system_prompt`
  unfoldable pub system_prompt : Planner W → String → String
  unfolding prompt_for
  system_prompt planner role = prompt_for planner (list_specs (some role) planner.registry)

  -- What `plan` makes of the text of the model.
  unfoldable pub plan_of_text : Planner W → (query role text : String) → Result Plan
  plan_of_text planner query role text = elim (extract_json codec.loads text) [
    | err e ↦ err e
    | ok none ↦ ok (fallback_plan query "LLM planner output was not valid JSON")
    | ok (some d) ↦ elim (parse_steps planner.registry role planner.max_steps d) [
      | none ↦ ok (fallback_plan query "LLM planner produced no valid tool steps")
      | some steps ↦ ok (record { steps = steps; rationale = rationale_of d; source = llm })
    ]
  ]

  unfoldable pub plan_of_completion : Planner W → (query role : String) → Completion → Result Plan
  unfolding plan_of_text
  plan_of_completion planner query role (failure type_name message) =
      ok (fallback_plan query ("LLM planning failed: " <> type_name <> ": " <> message))
  plan_of_completion planner query role (response text) = plan_of_text planner query role text

  unfoldable pub messages : Planner W → (query role : String) → List LlmMessage
  messages planner query role =
      record { role = "system"; content = system_prompt planner role }
      ∷ record { role = "user"; content = query }
      ∷ []

  -- `Planner.plan`
  unfoldable pub plan : Planner W → (query role : String) → Result Plan
  unfolding plan_of_completion raise_insight
  plan planner query role =
      if strip query == ""
      then err (raise_insight configuration "Agent query must not be empty")
      else elim planner.provider [
        | none ↦ ok (fallback_plan query "No LLM provider is configured for planning")
        | some complete ↦
            plan_of_completion planner query role (complete (messages planner query role))
      ]
