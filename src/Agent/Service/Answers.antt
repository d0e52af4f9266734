-- ===== src/Agent/Service/Answers.antt =====
-- When a run of the agent answers.
use research_assistant.Base.{
  ◌≡◌, refl, subst, some, ◌⊎◌, inl, inr, String, false, arith, mem, Distinct, Dict, get, ◌==◌,
  string_eq,
}
use research_assistant.Base.Text.{strip}
use research_assistant.Core.Errors.{Result, ok, err, Exn}
use research_assistant.Agent.Tools.{ToolContext, ToolResult, ToolCall}
use research_assistant.Agent.Registry.{ToolRegistry}
use research_assistant.Agent.Trace.{Host, Run}
use research_assistant.Agent.Plan.{Plan, ids, llm}
use research_assistant.Agent.Planner.{Provider, response, fallback_plan}
use research_assistant.Agent.Planner.Service.{Codec, Planner, messages, plan}
use research_assistant.Agent.Planner.Plans.{
  Sound, by_fallback, by_model, IsUnreadable, IsOutcome, plan-Sound,
}
use research_assistant.Agent.Executor.Index.{index_steps_ok, index_steps-Distinct}
use research_assistant.Agent.Executor.Waves.{execute, index_steps}
use research_assistant.Agent.Executor.Order.{Blocked}
use research_assistant.Agent.Executor.Cycles.{IsRanked, execute-err, not-Blocked}
use research_assistant.Agent.Service.{run_agent, finish_run, planned, started}

-- A plan that cannot be executed: it repeats a step id, or some of its steps wait for each other.
abbrev pub IsBroken : Plan → Type 0
IsBroken p = (¬ Distinct (ids p.steps)) ⊎ Blocked p.steps

module _ (host : Host) {W : Type 0} (registry : ToolRegistry W) (ctx : ToolContext) where
  -- `execute` raises only for a plan that repeats a step id or has a cycle.
  pub execute-IsBroken :
      (p : Plan) (run : Run W) (e : Exn) → (execute host registry ctx p run).0 ≡ err e → IsBroken p
  execute-IsBroken p run e h = go (index_steps host.repr p.steps) refl
    where
      go : (x : Result (Dict String ToolCall)) → index_steps host.repr p.steps ≡ x → IsBroken p
      go (ok m) q =
          inr (execute-err host registry ctx p run e (index_steps_ok host.repr p.steps m q).1 h).1
      go (err x) q =
          inl λ distinct. ground (arith, q, index_steps-Distinct host.repr p.steps distinct)

fallback-IsRanked : (query reason : String) → IsRanked (λ _. 0) (fallback_plan query reason).steps
unfolding fallback_plan mem get
fallback-IsRanked query reason s d known there needed = ground arith

fallback-not-IsBroken : (query reason : String) → ¬ IsBroken (fallback_plan query reason)
unfolding fallback_plan mem
fallback-not-IsBroken query reason (inl repeated) = repeated (refl, tt)
fallback-not-IsBroken query reason (inr blocked) =
    not-Blocked (λ _. 0) (fallback_plan query reason).steps (fallback-IsRanked query reason) blocked

module _ (host : Host) (codec : Codec) {W : Type 0} (planner : Planner W) (user_id : String)
    (role query : String) (world : W) where
  -- Why a run has no answer: the model's plan is broken, or `json.loads` raised the exception for the
  -- model's text.
  abbrev pub Unanswered : Exn → Type 0
  Unanswered e =
      ((p : Plan) × (plan codec planner query role ≡ ok p) × (p.source ≡ llm) × IsBroken p)
      ⊎ ((complete : Provider) × (text : String) × (planner.provider ≡ some complete)
          × (complete (messages codec planner query role) ≡ response text)
          × IsUnreadable codec planner query role text e)

  finish_run_err :
      (p : Plan) (out : Result (Dict String ToolResult) × Run W) (e : Exn)
      → (finish_run host codec query p out).0 ≡ err e
      → out.0 ≡ err e
  finish_run_err p (ok results, run) e h = ground arith
  finish_run_err p (err x, run) e h = ground arith

  -- A query that is not blank is answered, unless the plan is the model's and repeats a step id or has a
  -- cycle, or `json.loads` raises something else than JSONDecodeError for the model's text or the object
  -- in it; the run then raises the same.
  pub run_agent-err :
      (e : Exn)
      → (strip query == "") ≡ false
      → (run_agent host codec planner user_id role query world).0 ≡ err e
      → Unanswered e
  unfolding run_agent
  run_agent-err e nonblank h =
      go (plan codec planner query role) refl (plan-Sound codec planner query role nonblank)
    where
      from_plan :
          (p : Plan)
          → plan codec planner query role ≡ ok p
          → IsBroken p
          → Sound codec planner query role p
          → Unanswered e
      from_plan p q broken (by_fallback reason) = absurd (fallback-not-IsBroken query reason broken)
      from_plan p q broken (by_model _ text d given source short usable) =
          inl (p, q, source, broken)

      go :
          (x : Result Plan)
          → plan codec planner query role ≡ x
          → IsOutcome codec planner query role x
          → Unanswered e
      go (err x) q outcome =
          let same : x ≡ e = ground (arith, h, q) in
          inr (subst (λ y. IsOutcome codec planner query role (err y)) same outcome)
      go (ok p) q sound =
          let ctx : ToolContext = record { user_id = user_id; role = role; step_id = "" } in
          let run = planned host codec p (started host codec world query role) in
          let broken : IsBroken p = execute-IsBroken host planner.registry ctx p run e (
            finish_run_err p (execute host planner.registry ctx p run) e
              (rw (q, run_agent) at h)) in
          from_plan p q broken sound
