-- ===== src/Agent/Executor/Once.antt =====
-- A run of a plan runs each step once, behind its dependencies.
use research_assistant.Base.{
  ◌≡◌, refl, sym, ap, ◌∙◌, subst, String, true, false, Option, none, some, List, [], ◌∷◌, ◌++◌,
  append_assoc, append-nil, arith, mem, mem-append, mem-keep_if, Distinct, Distinct-keep_if, Dict,
  keys, keys-put_new, get, put, ◌==◌, not, string_eq, eq_iff,
}
use research_assistant.Core.Errors.{ok, err}
use research_assistant.Agent.Tools.{ToolContext, ToolResult, ToolCall}
use research_assistant.Agent.Registry.{ToolRegistry, get_spec}
use research_assistant.Agent.Trace.{Host, Run, Event}
use research_assistant.Agent.Plan.{Plan, ids}
use research_assistant.Agent.Executor.{run_step}
use research_assistant.Agent.Executor.Index.{table, step_id-get-table}
use research_assistant.Agent.Executor.Waves.{
  discard, discard_all, ready, mem-ready, plan_order, run_ready, execute,
}
use research_assistant.Agent.Executor.Rule.{Answer, WaveRule, execute_ind}
use research_assistant.Agent.Executor.Schedule.{Progress, InOrder}
use research_assistant.Agent.Executor.Order.{Ends, execute-Ends, Distinct-of_ok}
use research_assistant.Agent.Executor.Events.{Logged, Logged-refl, Logged-trans, run_step-Logged}

mem-discard_all :
    (j : String) (step_ids remaining : List String)
    → mem j (discard_all step_ids remaining) ≡ true
    → (mem j remaining ≡ true) × (mem j step_ids ≡ false)
unfolding discard_all discard mem
mem-discard_all j [] remaining h = (h, refl)
mem-discard_all j (s ∷ step_ids) remaining h =
    let (a, b) = mem-discard_all j step_ids (discard s remaining) h in
    let split = mem-keep_if (λ other_id. not (s == other_id)) j remaining in
    (ground (arith, a, split), ground (arith, a, b, split))

-- None of the ids has a result.
abbrev Fresh : List String → Dict String ToolResult → Type 0
Fresh step_ids results = (j : String) → mem j step_ids ≡ true → mem j (keys results) ≡ false

Fresh-put :
    (s : String) (r : ToolResult) (step_ids : List String) (results : Dict String ToolResult)
    → mem s step_ids ≡ false
    → Fresh (s ∷ step_ids) results
    → (keys (put s r results) ≡ keys results ++ s ∷ []) × Fresh step_ids (put s r results)
unfolding mem
Fresh-put s r step_ids results apart h =
    let new = keys-put_new s r results (h s (ground (arith, eq_iff s s))) in
    (
      new,
      λ j m.
          ground (
            arith,
            h j,
            m,
            apart,
            eq_iff s j,
            ap (mem j) new,
            mem-append j (keys results) (s ∷ []),
          ),
    )

module _ (host : Host) {W : Type 0} (registry : ToolRegistry W) (ctx : ToolContext)
    (steps : List ToolCall) where
  -- A wave adds one result for each of its steps, and logs one run of each.
  abbrev HasRun :
      List String → Dict String ToolResult → Run W → Dict String ToolResult → Run W → Type 0
  HasRun step_ids results run results' run' =
      (keys results' ≡ keys results ++ step_ids) × Logged step_ids run.events run'.events

  run_ready-HasRun :
      (step_ids : List String) (results : Dict String ToolResult) (run : Run W)
      → Distinct step_ids
      → Fresh step_ids results
      → (results' : Dict String ToolResult) (run' : Run W)
      → run_ready host registry ctx (table steps) step_ids results run ≡ (ok results', run')
      → HasRun step_ids results run results' run'
  unfolding run_ready
  run_ready-HasRun [] results run d fresh results' run' p =
      let e : results ≡ results' = ground (arith, ap (λ (x : Answer W). x.0) p) in
      let r : run ≡ run' = ap (λ (x : Answer W). x.1) p in
      (
        sym (ap (λ (x : Dict String ToolResult). keys x) e) ∙ sym (append-nil (keys results)),
        subst (λ (x : Run W). Logged [] run.events x.events) r (Logged-refl run.events),
      )
  run_ready-HasRun (s ∷ step_ids) results run d fresh results' run' p =
      go (get s (table steps)) refl (run_ready-HasRun step_ids)
    where
      go :
          (found : Option ToolCall)
          → get s (table steps) ≡ found
          → ((before : Dict String ToolResult) (start : Run W)
              → Distinct step_ids
              → Fresh step_ids before
              → (after : Dict String ToolResult) (stop : Run W)
              → run_ready host registry ctx (table steps) step_ids before start ≡ (ok after, stop)
              → HasRun step_ids before start after stop)
          → HasRun (s ∷ step_ids) results run results' run'
      go none e ih = let q = rw (e, run_ready) at p in ground (arith, ap (λ (x : Answer W). x.0) q)
      go (some step) e ih =
          let (r, next) = run_step host (get_spec step.tool registry) step ctx run in
          let (new, later) = Fresh-put s r step_ids results d.0 fresh in
          let (added, logged) =
            ih (put s r results) next d.1 later results' run' (rw (e, run_ready) at p) in
          let own = run_step-Logged host (get_spec step.tool registry) step ctx run in
          (
            added ∙ ap (λ l. l ++ step_ids) new ∙ append_assoc (keys results) (s ∷ []) step_ids,
            Logged-trans (s ∷ []) step_ids run.events next.events run'.events
                (subst (λ (x : String). Logged (x ∷ []) run.events next.events)
                  (step_id-get-table steps s step e) own)
                logged,
          )

  -- What holds between two waves, from a trace.
  record Counted (a : List Event) (remaining : List String) (results : Dict String ToolResult)
      (run : Run W) : Type 0 where
    logged : Logged (keys results) a run.events
    fresh : Fresh remaining results

  abbrev Reported : List Event → Answer W → Type 0
  Reported a (ok results, run) = Logged (keys results) a run.events
  Reported a (err e, run) = Unit

  Counted-wave :
      (a : List Event) (remaining : List String) (results : Dict String ToolResult) (run : Run W)
      → Distinct (ids steps)
      → Counted a remaining results run
      → (results' : Dict String ToolResult) (run' : Run W)
      → run_ready host registry ctx (table steps) (ready steps (table steps) remaining) results run
        ≡ (ok results', run')
      → Counted a (discard_all (ready steps (table steps) remaining) remaining) results' run'
  unfolding ready plan_order
  Counted-wave a remaining results run distinct h results' run' p =
      let wave = ready steps (table steps) remaining in
      let apart : Distinct wave = Distinct-keep_if _ _ (Distinct-keep_if _ (ids steps) distinct) in
      let fresh : Fresh wave results =
        λ j m. h.fresh j (ground (arith, m, mem-ready steps (table steps) remaining j)) in
      let (added, logged) = run_ready-HasRun wave results run apart fresh results' run' p in
      record {
        logged =
            subst (λ l. Logged l a run'.events) (sym added)
              (Logged-trans (keys results) wave a run.events run'.events h.logged logged);
        fresh = λ j m.
            let (left, outside) = mem-discard_all j wave remaining m in
            ground
              (arith, h.fresh j left, outside, ap (mem j) added, mem-append j (keys results) wave);
      }

  count_rule :
      (a : List Event)
      → Distinct (ids steps)
      → WaveRule host registry ctx steps (Counted a) (Reported a)
  count_rule a distinct = record {
    finish = λ results run h. h.logged;
    stuck = λ r rs results run h none_ready. tt;
    wave = λ remaining results run h. Counted-wave a remaining results run distinct h;
    broken = λ remaining results run h e run' p. tt;
  }

-- What a finished run of a plan is, with the trace before it and behind it: there is one result for
-- each step, under its id; the trace has gained the events of exactly one run of each step, in an order
-- in which every step stands behind its dependencies.
pub record IsSchedule (steps : List ToolCall) (before : List Event)
    (results : Dict String ToolResult) (behind : List Event) : Type 0 where
  pub complete : (j : String) → mem j (keys results) ≡ mem j (ids steps)
  pub once : Distinct (keys results)
  pub in_order : InOrder steps [] (keys results)
  pub labelled : (j : String) (r : ToolResult) → get j results ≡ some r → r.step_id ≡ j
  pub logged : Logged (keys results) before behind

IsSchedule-of_Progress :
    (steps : List ToolCall) (before : List Event) (results : Dict String ToolResult)
    (behind : List Event)
    → Progress steps [] results
    → Logged (keys results) before behind
    → IsSchedule steps before results behind
unfolding mem
IsSchedule-of_Progress steps before results behind h logged = record {
  complete = λ j. ground (arith, h.covers j);
  once = h.distinct;
  in_order = h.in_order;
  labelled = h.labelled;
  logged = logged;
}

module _ (host : Host) {W : Type 0} (registry : ToolRegistry W) (ctx : ToolContext) where
  -- Whenever `execute` returns, its dict holds one result for every step id of the plan and for no
  -- other, each under its own id. The trace has gained the events of one run of each of these steps
  -- (skipped, or started, perhaps retried, and finished) and no other, and in their order every step
  -- stands behind all of its dependencies in the plan.
  pub execute-IsSchedule :
      (plan : Plan) (run : Run W) (results : Dict String ToolResult)
      → (execute host registry ctx plan run).0 ≡ ok results
      → IsSchedule plan.steps run.events results (execute host registry ctx plan run).1.events
  execute-IsSchedule plan run results h =
      let distinct = Distinct-of_ok host registry ctx plan run results h in
      go (execute host registry ctx plan run) h
        (execute-Ends plan.steps host registry ctx plan.rationale plan.source run distinct)
        (execute_ind host registry ctx (count_rule host registry ctx plan.steps run.events distinct)
          plan.rationale plan.source run distinct
          (record { logged = Logged-refl run.events; fresh = λ j m. unfold mem in refl }))
    where
      go :
          (x : Answer W)
          → x.0 ≡ ok results
          → Ends plan.steps host registry ctx x
          → Reported host registry ctx plan.steps run.events x
          → IsSchedule plan.steps run.events results x.1.events
      go (ok found, after) e ends logged =
          let same : found ≡ results = ground (arith, e) in
          subst (λ (r : Dict String ToolResult). IsSchedule plan.steps run.events r after.events)
            same (IsSchedule-of_Progress plan.steps run.events found after.events ends logged)
      go (err x, after) e ends logged = ground (arith, e)
