-- ===== src/Examples/Agent.antt =====
-- A plan of two steps and a tool that fails twice.
mod Executor
pub mod Planner
mod Service
use research_assistant.Base.{
  ℕ, suc, ◌+◌, String, Option, none, some, List, [], ◌∷◌, ltb, pos, if◌then◌else◌, Dict,
}
use research_assistant.Agent.Json.{field, end, str}
use research_assistant.Agent.Tools.{
  ToolContext, ToolResult, ToolCall, ToolSpec, ToolExecutor, returned, empty, raised, ok_result,
  error_result, Outcome,
}
use research_assistant.Agent.Registry.{ToolRegistry}
use research_assistant.Agent.Trace.{Host, Run}
use research_assistant.Agent.Plan.{Plan, llm}

abbrev pub host : Host
host = record { clock = λ n. "now"; repr = λ s. s; seconds = λ n. "1" }

-- The world counts the calls; the first two fail.
abbrev pub flaky : ToolExecutor ℕ
flaky args ctx w = record {
  outcome =
      if ltb w 2
      then raised "ToolError" "try again"
      else returned (record {
        step_id = "";
        tool = "";
        status = "ok";
        output = "done";
        payload = empty;
        error = none;
      });
  elapsed = 5;
  world = w + 1;
}

abbrev pub echo : ToolSpec ℕ
echo = record {
  name = "echo";
  description = "";
  parameters = end;
  executor = flaky;
  visible_to = none;
  cost_class = "standard";
  latency_class = "standard";
  retries = pos 3;
  timeout = 10;
}

abbrev pub hidden : ToolSpec ℕ
hidden = record echo { name = "hidden"; visible_to = some ("admin" ∷ []) }

abbrev pub registry : ToolRegistry ℕ
registry = ("echo", echo) ∷ ("hidden", hidden) ∷ []

abbrev pub ctx : ToolContext
ctx = record { user_id = "u7"; role = "user"; step_id = "" }

abbrev pub step : String → List String → ToolCall
step step_id depends_on = record {
  step_id = step_id;
  tool = "echo";
  args = end;
  depends_on = depends_on;
}

-- The second step is declared first.
abbrev pub two_steps : Plan
two_steps = record {
  steps = step "b" ("a" ∷ []) ∷ step "a" [] ∷ [];
  rationale = none;
  source = llm;
}

abbrev pub circle : Plan
circle = record {
  steps = step "a" ("b" ∷ []) ∷ step "b" ("a" ∷ []) ∷ [];
  rationale = none;
  source = llm;
}

abbrev pub idle : Run ℕ
idle = record { world = 0; memory = record { query = ""; scratchpad = [] }; events = [] }

abbrev pub entry : String → ToolResult
entry step_id = record {
  step_id = step_id;
  tool = "echo";
  status = "ok";
  output = "done";
  payload = empty;
  error = none;
}

abbrev pub both_done : Dict String ToolResult
both_done = ("a", entry "a") ∷ ("b", entry "b") ∷ []
