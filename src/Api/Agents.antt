-- ===== src/Api/Agents.antt =====
-- backend/app/modules/agent/router.py, schemas.py and dependencies.py.
use research_assistant.Base.{
  ℕ, String, Option, none, some, List, [], ◌∷◌, ◌||◌, Dict, get, ◌==◌, string_eq, if◌then◌else◌,
}
use research_assistant.Core.Errors.{Result, ok, err, other, ◌>>=◌}
use research_assistant.Auth.{User, Store}
use research_assistant.Auth.Tokens.{Crypto, Settings}
use research_assistant.Agent.Json.{Fields}
use research_assistant.Agent.Tools.{ToolCall, ToolResult, CitationData}
use research_assistant.Agent.Trace.{Host, Event}
use research_assistant.Agent.Plan.{PlanSource}
use research_assistant.Agent.Planner.Service.{Codec, Planner}
use research_assistant.Agent.Service.{RunResult, run_agent}
use research_assistant.Api.{Credentials, configured, get_current_user, behind, bounded, validated}

pub record AgentStepOut : Type 0 where
  pub step_id : String
  pub tool : String
  pub status : String
  pub args : Fields
  pub output : String
  pub error : Option String

pub record AgentRunResponse : Type 0 where
  pub query : String
  pub rationale : Option String
  pub source : PlanSource
  pub steps : List AgentStepOut
  pub final_answer : String
  pub citations : List CitationData
  pub trace : List Event

-- `StepStatusType`; a result with another status is an exception of the schema.
unfoldable pub step_out : ToolCall → ToolResult → Result AgentStepOut
step_out step result =
    if result.status == "ok" || result.status == "error"
    then ok (record {
      step_id = step.step_id;
      tool = step.tool;
      status = result.status;
      args = step.args;
      output = result.output;
      error = result.error;
    })
    else err (other "ValidationError" "Input should be 'ok' or 'error'")

-- The list of the steps that have a result.
unfoldable pub step_outs : List ToolCall → Dict String ToolResult → Result (List AgentStepOut)
unfolding step_out
step_outs [] results = ok []
step_outs (step ∷ steps) results =
    let rest = step_outs steps results in
    elim (get step.step_id results) [
      | none ↦ rest
      | some result ↦ step_out step result >>= λ out. (rest >>= λ outs. ok (out ∷ outs))
    ]

unfoldable pub response_of : RunResult → Result AgentRunResponse
unfolding step_outs
response_of result = step_outs result.plan_used.steps result.results >>= λ steps. ok (record {
  query = result.query;
  rationale = result.plan_used.rationale;
  source = result.plan_used.source;
  steps = steps;
  final_answer = result.final_answer;
  citations = result.citations;
  trace = result.trace;
})

module _ (lower : String → String) (crypto : Crypto) (host : Host) (codec : Codec)
    {W : Type 0} where
  -- `get_agent_service`
  unfoldable pub get_agent_service : Option (Planner W) → Result (Planner W)
  unfolding configured
  get_agent_service agent_service =
      configured "The agent module is not configured; set DATABASE_URL to enable it" agent_service

  -- What `run_agent` does for a user, with a service and a query that is valid.
  unfoldable pub run_for : User → Planner W → (query : String) → W → Result AgentRunResponse × W
  unfolding run_agent response_of
  run_for user planner query world =
      let (outcome, run) = run_agent host codec planner user.user_id user.role query world in
      (outcome >>= response_of, run.world)

  -- `POST /agent/run`
  unfoldable pub post_run :
      (auth_service : Option Settings) (agent_service : Option (Planner W))
      → Option Credentials
      → (now : ℕ) → Store
      → (query : String) → W
      → Result AgentRunResponse × W
  unfolding get_current_user get_agent_service bounded validated run_for
  post_run auth_service agent_service given now store query world =
      behind (get_current_user lower crypto auth_service given now store) world λ user.
        behind (get_agent_service agent_service) world λ planner.
          behind (validated (bounded "query" 1 2000 query) query) world
            λ valid. run_for user planner valid world
