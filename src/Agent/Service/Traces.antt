-- ===== src/Agent/Service/Traces.antt =====
-- The trace of an answered run.
use research_assistant.Base.{
  ◌≡◌, refl, ap, subst, ◌∙◌, String, List, [], ◌∷◌, ◌++◌, arith, Dict, keys, string_eq,
}
use research_assistant.Core.Errors.{Result, ok, err}
use research_assistant.Agent.Tools.{ToolContext, ToolResult}
use research_assistant.Agent.Trace.{Host, Run, Event, log}
use research_assistant.Agent.Plan.{Plan}
use research_assistant.Agent.Planner.Service.{Codec, Planner, plan}
use research_assistant.Agent.Executor.Waves.{execute}
use research_assistant.Agent.Executor.Rule.{Answer}
use research_assistant.Agent.Executor.Events.{IsLog, Logged}
use research_assistant.Agent.Executor.Once.{execute-IsSchedule}
use research_assistant.Agent.Service.{RunResult, run_agent, finish_run, finished, planned, started}

-- The events of a run in order: the query and the plan, then those of one run of each of the steps, and
-- the end.
pub record IsTrace (step_ids : List String) (trace : List Event) : Type 0 where
  pub query : Event
  pub plan_made : Event
  pub steps : List Event
  pub end_of_run : Event
  pub all : trace ≡ query ∷ plan_made ∷ steps ++ end_of_run ∷ []
  pub query_named : query.event ≡ "query_received"
  pub plan_named : plan_made.event ≡ "plan_created"
  pub end_named : end_of_run.event ≡ "run_finished"
  pub steps_logged : IsLog step_ids steps

module _ (host : Host) (codec : Codec) {W : Type 0} (planner : Planner W) (user_id : String)
    (role query : String) (world : W) where
  finished-ends :
      (p : Plan) (results : Dict String ToolResult) (run : Run W)
      → (e : Event) × ((finished host codec query p results run).0.trace ≡ run.events ++ e ∷ [])
        × (e.event ≡ "run_finished")
  unfolding finished log
  finished-ends p results run = (_, refl, refl)

  finished-IsTrace :
      (p : Plan) (results : Dict String ToolResult) (run : Run W)
      → Logged
          (keys results)
          (planned host codec p (started host codec world query role)).events
          run.events
      → IsTrace (keys results) (finished host codec query p results run).0.trace
  unfolding planned log
  finished-IsTrace p results run (more, grown, logged) =
      let (last, ends, named) = finished-ends p results run in
      record {
        query = _;
        plan_made = _;
        steps = more;
        end_of_run = last;
        all = ends ∙ ap (λ l. l ++ last ∷ []) grown;
        query_named = refl;
        plan_named = refl;
        end_named = named;
        steps_logged = logged;
      }

  finish_run-IsTrace :
      (p : Plan) (out : Answer W) (r : RunResult)
      → ((results : Dict String ToolResult)
          → out.0 ≡ ok results
          → Logged
              (keys results)
              (planned host codec p (started host codec world query role)).events
              out.1.events)
      → (finish_run host codec query p out).0 ≡ ok r
      → IsTrace (keys r.results) r.trace
  unfolding finished
  finish_run-IsTrace p (ok results, run) r grown h =
      let same : (finished host codec query p results run).0 ≡ r = ground (arith, h) in
      subst (λ (x : RunResult). IsTrace (keys x.results) x.trace) same
        (finished-IsTrace p results run (grown results refl))
  finish_run-IsTrace p (err e, run) r grown h = ground arith

  -- The trace of an answered query is the query, the plan, the events of exactly one run of each step
  -- that has a result, in the order of the results, and the end of the run. The events of one run of a
  -- step are that it is skipped, or that it starts, is retried any number of times, and finishes, each
  -- with the step's id.
  pub run_agent-IsTrace :
      (r : RunResult)
      → (run_agent host codec planner user_id role query world).0 ≡ ok r
      → IsTrace (keys r.results) r.trace
  unfolding run_agent
  run_agent-IsTrace r h = go (plan codec planner query role) refl
    where
      go : (x : Result Plan) → plan codec planner query role ≡ x → IsTrace (keys r.results) r.trace
      go (err e) q = ground (arith, h, q)
      go (ok p) q =
          let ctx : ToolContext = record { user_id = user_id; role = role; step_id = "" } in
          let run = planned host codec p (started host codec world query role) in
          finish_run-IsTrace p (execute host planner.registry ctx p run) r
            (λ results e. (execute-IsSchedule host planner.registry ctx p run results e).logged)
            (rw (q, run_agent) at h)
