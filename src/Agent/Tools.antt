-- ===== src/Agent/Tools.antt =====
-- backend/app/modules/agent/tools/base.py and placeholders.py: the contracts of a tool.
-- `W` is the outside world that a tool reads and changes.
use Prim.Native.String.{◌++◌}
use research_assistant.Base.{
  ℕ, String, Bool, true, Option, none, some, List, [], ◌∷◌, ℤ, pos, mem, string_eq,
}
use research_assistant.Core.Float.{Float}
use research_assistant.Agent.Json.{Fields}

pub record ToolContext : Type 0 where
  pub user_id : String
  pub role : String
  pub step_id : String

pub record HitData : Type 0 where
  pub chunk_id : String
  pub document_id : String
  pub document_name : String
  pub score : Float
  pub page : Option ℕ
  pub heading : Option String

pub record CitationData : Type 0 where
  pub index : ℕ
  pub chunk_id : String
  pub document_id : String
  pub document_name : String
  pub page : Option ℕ
  pub heading : Option String
  pub snippet : String
  pub score : Float

-- `ToolResult.data`: the dicts that the program's own code builds.
pub data Payload : Type 0 where
  empty : Payload
  error_code : String → Payload
  passages :
      (query : String) (rewritten_query : Option String)
      → List HitData
      → List CitationData
      → Payload

pub record ToolResult : Type 0 where
  pub step_id : String
  pub tool : String
  pub status : String
  pub output : String
  pub payload : Payload
  pub error : Option String

pub record ToolCall : Type 0 where
  pub step_id : String
  pub tool : String
  pub args : Fields
  pub depends_on : List String

-- How a call of a tool ends: a result, a value of another type, or an exception.
pub data Outcome : Type 0 where
  returned : ToolResult → Outcome
  returned_other : Outcome
  raised : (type_name message : String) → Outcome

-- `elapsed` is the time that the call takes, in milliseconds.
pub record Completion (W : Type 0) : Type 0 where
  pub outcome : Outcome
  pub elapsed : ℕ
  pub world : W

abbrev pub ToolExecutor : Type 0 → Type 0
ToolExecutor W = Fields → ToolContext → W → Completion W

-- `timeout` is `timeout_seconds` in milliseconds.
pub record ToolSpec (W : Type 0) : Type 0 where
  pub name : String
  pub description : String
  pub parameters : Fields
  pub executor : ToolExecutor W
  pub visible_to : Option (List String)
  pub cost_class : String
  pub latency_class : String
  pub retries : ℤ
  pub timeout : ℕ

unfoldable pub visible_to_role : {W : Type 0} → ToolSpec W → String → Bool
visible_to_role spec role = elim spec.visible_to [ none ↦ true | some roles ↦ mem role roles ]

unfoldable pub ok_result : (step_id tool output : String) → Payload → ToolResult
ok_result step_id tool output payload = record {
  step_id = step_id;
  tool = tool;
  status = "ok";
  output = output;
  payload = payload;
  error = none;
}

unfoldable pub error_result : (step_id tool message : String) → Payload → ToolResult
error_result step_id tool message payload = record {
  step_id = step_id;
  tool = tool;
  status = "error";
  output = message;
  payload = payload;
  error = some message;
}

unfoldable pub not_implemented_result : (step_id tool : String) → ToolResult
unfolding error_result
not_implemented_result step_id tool =
    error_result step_id tool (tool ++ " is not implemented in this phase; orchestration only")
      (error_code "not_implemented")

-- The closure that `_executor(name)` of placeholders.py returns.
unfoldable pub placeholder_executor : {W : Type 0} → String → ToolExecutor W
unfolding not_implemented_result
placeholder_executor name args ctx w = record {
  outcome = returned (not_implemented_result ctx.step_id name);
  elapsed = 0;
  world = w;
}

module _ {W : Type 0} (vision_parameters nlp_parameters : Fields) where
  abbrev placeholder : String → String → Fields → ToolSpec W
  placeholder name description parameters = record {
    name = name;
    description = description;
    parameters = parameters;
    executor = placeholder_executor name;
    visible_to = none;
    cost_class = "standard";
    latency_class = "standard";
    retries = pos 0;
    timeout = 0;
  }

  unfoldable pub build_placeholder_tools : List (ToolSpec W)
  unfolding placeholder_executor
  build_placeholder_tools =
      placeholder "vision_tool"
        "Analyze an image or scanned page — OCR, layout, charts, or visual question answering. Not implemented in this phase."
        vision_parameters
      ∷ placeholder "nlp_tool"
          "Text transformations such as translation, summarization, and entity extraction. Not implemented in this phase."
          nlp_parameters
      ∷ []
