-- ===== src/Agent/Executor/Order.antt =====
-- What `execute` answers: all results, or the error for a cycle.
use research_assistant.Base.{
  ◌≡◌, ◌≢◌, refl, ap, ◌∙◌, subst, String, true, Option, List, [], ◌∷◌, arith, mem, Distinct, Dict,
  get, put, string_eq,
}
use research_assistant.Core.Errors.{Result, ok, err, Exn}
use research_assistant.Agent.Tools.{ToolContext, ToolResult, ToolCall}
use research_assistant.Agent.Registry.{ToolRegistry, get_spec}
use research_assistant.Agent.Trace.{Host, Run}
use research_assistant.Agent.Plan.{Plan, PlanSource, ids}
use research_assistant.Agent.Executor.{run_step}
use research_assistant.Agent.Executor.Steps.{step_id-run_step}
use research_assistant.Agent.Executor.Index.{table, step_id-get-table, index_steps_ok}
use research_assistant.Agent.Executor.Waves.{
  discard, discard_all, ready, meets, mem-ready, deps_of, run_ready, execute, cycle, index_steps,
}
use research_assistant.Agent.Executor.Rule.{Answer, WaveRule, execute_ind}
use research_assistant.Agent.Executor.Schedule.{
  Progress, Progress-put, Runnable, Runnable-put, Runnable-ready, get-table_known,
}

-- Some steps of the plan each wait for another one of them.
abbrev pub Blocked : List ToolCall → Type 0
Blocked steps =
    (r : String) × (rs : List String) × ((s : String)
      → mem s (r ∷ rs) ≡ true
      → (mem s (ids steps) ≡ true) × (meets (deps_of (table steps) s) (r ∷ rs) ≡ true))

module _ (steps : List ToolCall) (host : Host) {W : Type 0} (registry : ToolRegistry W)
    (ctx : ToolContext) where
  -- A wave of runnable steps raises nothing.
  run_ready_total :
      (step_ids : List String) (results : Dict String ToolResult) (run : Run W)
      → Runnable steps step_ids results
      → (e : Exn) (run' : Run W)
      → run_ready host registry ctx (table steps) step_ids results run ≢ (err e, run')
  unfolding run_ready
  run_ready_total [] results run h e run' p = ground (arith, ap (λ (x : Answer W). x.0) p)
  run_ready_total (s ∷ step_ids) results run h e run' p =
      let (step, found) = get-table_known steps s h.0.0 in
      let (r, next) = run_step host (get_spec step.tool registry) step ctx run in
      run_ready_total step_ids (put s r results) next (Runnable-put steps s r results step_ids h.1)
        e run' (rw (found, run_ready) at p)

  Progress-run_ready :
      (step_ids remaining : List String) (results : Dict String ToolResult) (run : Run W)
      → Progress steps remaining results
      → Runnable steps step_ids results
      → (results' : Dict String ToolResult) (run' : Run W)
      → run_ready host registry ctx (table steps) step_ids results run ≡ (ok results', run')
      → Progress steps (discard_all step_ids remaining) results'
  unfolding run_ready discard_all
  Progress-run_ready [] remaining results run h k results' run' p =
      let same : results ≡ results' = ground (arith, ap (λ (x : Answer W). x.0) p) in
      subst (λ (x : Dict String ToolResult). Progress steps remaining x) same h
  Progress-run_ready (s ∷ step_ids) remaining results run h k results' run' p =
      let (step, found) = get-table_known steps s k.0.0 in
      let (r, next) = run_step host (get_spec step.tool registry) step ctx run in
      Progress-run_ready step_ids (discard s remaining) (put s r results) next
        (Progress-put steps s r remaining results h k.0.0 k.0.1 (
          step_id-run_step host (get_spec step.tool registry) step ctx run
          ∙ step_id-get-table steps s step found))
        (Runnable-put steps s r results step_ids k.1) results' run' (rw (found, run_ready) at p)

  -- The loop ends with all results, or with the error for a cycle.
  abbrev pub Ends : Answer W → Type 0
  Ends (ok results, run) = Progress steps [] results
  Ends (err e, run) = (e ≡ cycle) × Blocked steps

  Blocked-of_stuck :
      (r : String) (rs : List String) (results : Dict String ToolResult)
      → Progress steps (r ∷ rs) results
      → ready steps (table steps) (r ∷ rs) ≡ []
      → Blocked steps
  unfolding mem
  Blocked-of_stuck r rs results h none_ready = (
    r,
    rs,
    λ s m.
        let split = mem-ready steps (table steps) (r ∷ rs) s in
        let absent = ap (mem s) none_ready in
        (ground (arith, h.covers s), ground (arith, h.covers s, split, absent)),
  )

  wave_rule :
      WaveRule host registry ctx steps
        (λ remaining results run. Progress steps remaining results)
        Ends
  wave_rule = record {
    finish = λ results run h. h;
    stuck = λ r rs results run h none_ready. (refl, Blocked-of_stuck r rs results h none_ready);
    wave = λ remaining results run h.
        Progress-run_ready (ready steps (table steps) remaining) remaining results run h
          (Runnable-ready steps remaining results h);
    broken = λ remaining results run h e run' p. absurd (
        run_ready_total (ready steps (table steps) remaining) results run
          (Runnable-ready steps remaining results h) e run' p);
  }

  Progress-nil : Progress steps (ids steps) []
  unfolding mem
  Progress-nil = record {
    covers = λ j. refl;
    distinct = tt;
    in_order = tt;
    labelled = λ j r found. unfold get in cc;
  }

  pub execute-Ends :
      (rationale : Option String) (source : PlanSource) (run : Run W)
      → Distinct (ids steps)
      → Ends (
          execute host registry ctx
            (record { steps = steps; rationale = rationale; source = source })
            run)
  execute-Ends rationale source run distinct =
      execute_ind host registry ctx wave_rule rationale source run distinct Progress-nil

module _ (host : Host) {W : Type 0} (registry : ToolRegistry W) (ctx : ToolContext) where
  pub Distinct-of_ok :
      (plan : Plan) (run : Run W) (results : Dict String ToolResult)
      → (execute host registry ctx plan run).0 ≡ ok results
      → Distinct (ids plan.steps)
  unfolding execute
  Distinct-of_ok plan run results h = go (index_steps host.repr plan.steps) refl
    where
      go :
          (x : Result (Dict String ToolCall))
          → index_steps host.repr plan.steps ≡ x
          → Distinct (ids plan.steps)
      go (ok m) e = (index_steps_ok host.repr plan.steps m e).1
      go (err x) e = ground (arith, e)
