-- ===== src/Agent/Service.antt =====
-- backend/app/modules/agent/orchestrator.py: `AgentService.run` over one query.
pub mod Citations
pub mod Answers
pub mod Traces
use research_assistant.Base.{
  ℕ, String, Bool, true, false, ◌&&◌, ◌||◌, not, Option, none, some, List, [], ◌∷◌, ◌++◌, map,
  length, last?, pos, mem, Dict, get, ◌==◌, string_eq, if◌then◌else◌,
}
use research_assistant.Base.Text.{◌<>◌}
use research_assistant.Core.Errors.{Result, ok, err}
use research_assistant.Agent.Json.{Json, str, int, arr, obj, field, end, of_list, opt_str}
use research_assistant.Agent.Tools.{
  ToolContext, ToolResult, ToolCall, Payload, empty, error_code, passages, CitationData,
}
use research_assistant.Agent.Registry.{ToolRegistry}
use research_assistant.Agent.Trace.{Host, Run, Event, log}
use research_assistant.Agent.Plan.{Plan, PlanSource, llm, fallback}
use research_assistant.Agent.Planner.Service.{Codec, Planner, plan}
use research_assistant.Agent.Executor.Waves.{execute}

pub record RunResult : Type 0 where
  pub query : String
  pub plan_used : Plan
  pub results : Dict String ToolResult
  pub final_answer : String
  pub citations : List CitationData
  pub trace : List Event

any_failed : List ToolCall → Dict String ToolResult → Bool
any_failed [] results = false
any_failed (step ∷ steps) results =
    (elim (get step.step_id results) [ none ↦ false | some r ↦ r.status == "error" ])
    || any_failed steps results

answer_of : List ToolCall → Dict String ToolResult → ToolResult → String
unfolding any_failed
answer_of steps results last =
    let answer =
      if last.output == ""
      then "Step " <> last.step_id <> " completed with no output."
      else last.output in
    if any_failed steps results
    then answer <> "\n\nNote: some steps did not complete; see the trace for details."
    else answer

-- `_compose_answer`
unfoldable pub compose_answer : List ToolCall → Dict String ToolResult → String
unfolding answer_of
compose_answer steps results = elim (last? steps) [
  | none ↦ "No tool steps were required to answer this query."
  | some step ↦ elim (get step.step_id results) [
    | none ↦ "The agent plan produced no results."
    | some last ↦ answer_of steps results last
  ]
]

-- `result.data.get("citations", [])`
abbrev pub payload_citations : Payload → List CitationData
payload_citations (passages query rewritten hits citations) = citations
payload_citations _ = []

-- The inner loop, from the set `seen`: the citations that it appends, and the set behind it.
unfoldable pub collect_new : List String → List CitationData → List CitationData × List String
collect_new seen [] = ([], seen)
collect_new seen (c ∷ cs) =
    let known = collect_new seen cs in
    let (more, seen') = collect_new (c.chunk_id ∷ seen) cs in
    if mem c.chunk_id seen then known else (c ∷ more, seen')

-- The citations of a step's result; none unless `rag_tool` gave it with the status "ok".
unfoldable pub step_citations : Option ToolResult → List CitationData
step_citations none = []
step_citations (some r) =
    if r.tool == "rag_tool" && r.status == "ok" then payload_citations r.payload else []

unfoldable pub collect_from :
    List String → List ToolCall → Dict String ToolResult → List CitationData
unfolding collect_new step_citations
collect_from seen [] results = []
collect_from seen (step ∷ steps) results =
    let (new, seen') = collect_new seen (step_citations (get step.step_id results)) in
    new ++ collect_from seen' steps results

-- `_collect_citations`
unfoldable pub collect_citations : List ToolCall → Dict String ToolResult → List CitationData
unfolding collect_from
collect_citations steps results = collect_from [] steps results

source_name : PlanSource → String
source_name llm = "llm"
source_name fallback = "fallback"

step_entry : ToolCall → Json
step_entry step = obj (
    field "id" (str step.step_id) (
      field "tool" (str step.tool) (
        field "args" (obj step.args)
          (field "depends_on" (arr (of_list (map str step.depends_on))) end))))

module _ (host : Host) (codec : Codec) {W : Type 0} where
  abbrev pub started : W → (query role : String) → Run W
  started world query role =
      log host "query_received" (("query", str query) ∷ ("role", str role) ∷ [])
        (record { world = world; memory = record { query = query; scratchpad = [] }; events = [] })

  unfoldable pub planned : Plan → Run W → Run W
  unfolding source_name step_entry
  planned p run =
      log host "plan_created"
        (("source", str (source_name p.source))
          ∷ ("rationale", opt_str p.rationale)
          ∷ ("steps", arr (of_list (map step_entry p.steps)))
          ∷ [])
        run

  unfoldable pub finished :
      (query : String) → Plan → Dict String ToolResult → Run W → RunResult × Run W
  finished query p results run =
      let final_answer = compose_answer p.steps results in
      let run' =
        log host "run_finished"
          (("final_answer", str final_answer) ∷ ("step_count", int (pos (length results))) ∷ [])
          run in
      (
        record {
          query = query;
          plan_used = p;
          results = results;
          final_answer = final_answer;
          citations = collect_citations p.steps results;
          trace = run'.events;
        },
        run',
      )

  abbrev pub finish_run :
      (query : String) → Plan → Result (Dict String ToolResult) × Run W → Result RunResult × Run W
  finish_run query p (err e, run) = (err e, run)
  finish_run query p (ok results, run) =
      let (r, run') = finished query p results run in (ok r, run')

  -- `AgentService.run`; `planner.registry` is also the executor's registry.
  unfoldable pub run_agent :
      Planner W → (user_id : String) (role query : String) → W → Result RunResult × Run W
  run_agent planner user_id role query world =
      let run = started world query role in
      elim (plan codec planner query role) [
        | err e ↦ (err e, run)
        | ok p ↦ finish_run query p (
            execute host planner.registry (record { user_id = user_id; role = role; step_id = "" })
              p (planned p run))
      ]
