-- ===== src/Examples/Agent/Service.antt =====
-- Whole runs of the agent.
use research_assistant.Base.{
  ℕ, ◌≡◌, refl, String, none, [], ◌∷◌, take, mem, get, put, keep_if, string_eq, Dict, keys,
}
use research_assistant.Base.Text.{strip}
use research_assistant.Core.Errors.{ok, err, Result, raise_insight}
use research_assistant.Agent.Json.{obj, arr, field, end, nil, cons, get_field, to_list}
use research_assistant.Agent.Tools.{
  ToolResult, visible_to_role, error_result, passages, CitationData,
}
use research_assistant.Agent.Registry.{get_spec}
use research_assistant.Agent.Trace.{log, remember}
use research_assistant.Agent.Planner.{parse_steps, fallback_plan, rationale_of}
use research_assistant.Agent.Planner.Extract.{parsed, extract_json}
use research_assistant.Agent.Planner.Service.{Codec, plan}
use research_assistant.Agent.Executor.{run_step, perform_step, attempts, log_retry, invoke}
use research_assistant.Agent.Executor.Waves.{
  execute, index_steps, waves, ready, discard_all, run_ready, cycle,
}
use research_assistant.Agent.Service.{
  RunResult, run_agent, finished, planned, compose_answer, collect_citations,
}
use research_assistant.Agent.Service.Answers.{Unanswered, run_agent-err}
use research_assistant.Agent.Service.Citations.{
  IsCollection, search_citations, collect_citations-IsCollection,
}
use research_assistant.Agent.Service.Traces.{IsTrace, run_agent-IsTrace}
use research_assistant.Examples.Agent.{host, step, entry}
use research_assistant.Examples.Agent.Planner.{item, codec, planner}

program : Unit {0}
unfolding execute index_steps waves ready discard_all run_ready run_step perform_step attempts
    log_retry invoke get put mem keep_if take log remember get_spec visible_to_role error_result
    plan parse_steps extract_json strip get_field to_list rationale_of run_agent finished planned
    raise_insight fallback_plan compose_answer
program = tt

abbrev circular : Codec
circular = record codec {
  loads = λ text.
      parsed (
        obj
          (field "steps" (arr (cons (item "a" "echo" "b") (cons (item "b" "echo" "a") nil))) end));
}

run_agent-circular : (run_agent host circular planner "u7" "user" "what" 0).0 ≡ err cycle
unfolding program
run_agent-circular = refl

run_agent-err_example : Unanswered host circular planner "u7" "user" "what" 0 cycle
run_agent-err_example =
    run_agent-err host circular planner "u7" "user" "what" 0 cycle (unfold strip in refl)
      run_agent-circular

-- The answer, or a value for a run without one.
abbrev or_else : {A : Type 0} → Result A → A → A
or_else (ok a) d = a
or_else (err e) d = d

abbrev nothing : RunResult
nothing = record {
  query = "";
  plan_used = fallback_plan "" "";
  results = [];
  final_answer = "";
  citations = [];
  trace = [];
}

abbrev answered : RunResult
answered = or_else (run_agent host codec planner "u7" "user" "what" 0).0 nothing

run_agent-answered : (run_agent host codec planner "u7" "user" "what" 0).0 ≡ ok answered
unfolding program
run_agent-answered = refl

run_agent-IsTrace_example : IsTrace (keys answered.results) answered.trace
run_agent-IsTrace_example =
    run_agent-IsTrace host codec planner "u7" "user" "what" 0 answered run_agent-answered

abbrev citation : ℕ → String → CitationData
citation index chunk_id = record {
  index = index;
  chunk_id = chunk_id;
  document_id = "d";
  document_name = "paper";
  page = none;
  heading = none;
  snippet = "";
  score = record { bits = 0 };
}

-- Two searches that share a passage.
abbrev searches : Dict String ToolResult
searches =
    (
      "a",
      record (entry "a") {
        tool = "rag_tool";
        payload = passages "q" none [] (citation 1 "c1" ∷ citation 2 "c2" ∷ []);
      },
    )
    ∷ (
      "b",
      record (entry "b") {
        tool = "rag_tool";
        payload = passages "q" none [] (citation 1 "c2" ∷ citation 2 "c3" ∷ []);
      },
    )
    ∷ []

citations-searches :
    collect_citations (step "a" [] ∷ step "b" [] ∷ []) searches
    ≡ citation 1 "c1" ∷ citation 2 "c2" ∷ citation 2 "c3" ∷ []
unfolding collect_citations mem get
citations-searches = refl

collect_citations-IsCollection_example :
    IsCollection
      (search_citations (step "a" [] ∷ step "b" [] ∷ []) searches)
      (collect_citations (step "a" [] ∷ step "b" [] ∷ []) searches)
collect_citations-IsCollection_example =
    collect_citations-IsCollection (step "a" [] ∷ step "b" [] ∷ []) searches
