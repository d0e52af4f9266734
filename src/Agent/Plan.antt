-- ===== src/Agent/Plan.antt =====
-- `Plan` of backend/app/modules/agent/planner.py, which planner and executor share.
use research_assistant.Base.{String, Option, List, map}
use research_assistant.Agent.Tools.{ToolCall}

pub data PlanSource : Type 0 where
  llm fallback : PlanSource

pub record Plan : Type 0 where
  pub steps : List ToolCall
  pub rationale : Option String
  pub source : PlanSource

-- The step ids in the order of declaration.
abbrev pub ids : List ToolCall → List String
ids steps = map (λ step. step.step_id) steps
