-- ===== src/Agent/Executor/Memory.antt =====
-- The scratchpad of a run, and how often a tool is called.
use research_assistant.Base.{
  ◌≡◌, refl, ap, ◌∙◌, sym, String, Option, none, some, List, [], ◌∷◌, arith, Dict, get, put,
  string_eq,
}
use research_assistant.Core.Errors.{ok, err}
use research_assistant.Agent.Tools.{ToolContext, ToolResult, ToolCall}
use research_assistant.Agent.Registry.{ToolRegistry, get_spec}
use research_assistant.Agent.Trace.{Host, Run}
use research_assistant.Agent.Plan.{Plan}
use research_assistant.Agent.Executor.{run_step}
use research_assistant.Agent.Executor.Steps.{scratchpad-run_step}
use research_assistant.Agent.Executor.Index.{table, step_id-get-table}
use research_assistant.Agent.Executor.Waves.{ready, run_ready, execute}
use research_assistant.Agent.Executor.Rule.{Answer, WaveRule, execute_ind}
use research_assistant.Agent.Executor.Order.{Distinct-of_ok}

module _ (host : Host) {W : Type 0} (registry : ToolRegistry W) (ctx : ToolContext)
    (steps : List ToolCall) where
  scratchpad-run_ready :
      (step_ids : List String) (results : Dict String ToolResult) (run : Run W)
      → run.memory.scratchpad ≡ results
      → (results' : Dict String ToolResult) (run' : Run W)
      → run_ready host registry ctx (table steps) step_ids results run ≡ (ok results', run')
      → run'.memory.scratchpad ≡ results'
  unfolding run_ready
  scratchpad-run_ready [] results run h results' run' p =
      let e : results ≡ results' = ground (arith, ap (λ (x : Answer W). x.0) p) in
      let r : run ≡ run' = ap (λ (x : Answer W). x.1) p in
      sym (ap (λ (x : Run W). x.memory.scratchpad) r) ∙ h ∙ e
  scratchpad-run_ready (s ∷ step_ids) results run h results' run' p =
      go (get s (table steps)) refl (scratchpad-run_ready step_ids)
    where
      go :
          (found : Option ToolCall)
          → get s (table steps) ≡ found
          → ((before : Dict String ToolResult) (start : Run W)
              → start.memory.scratchpad ≡ before
              → (after : Dict String ToolResult) (stop : Run W)
              → run_ready host registry ctx (table steps) step_ids before start ≡ (ok after, stop)
              → stop.memory.scratchpad ≡ after)
          → run'.memory.scratchpad ≡ results'
      go none e ih = let q = rw (e, run_ready) at p in ground (arith, ap (λ (x : Answer W). x.0) q)
      go (some step) e ih =
          let (r, next) = run_step host (get_spec step.tool registry) step ctx run in
          ih (put s r results) next
            (scratchpad-run_step host (get_spec step.tool registry) step ctx run
              ∙ cc (h, step_id-get-table steps s step e))
            results' run' (rw (e, run_ready) at p)

  abbrev Mirrored : Answer W → Type 0
  Mirrored (ok results, run) = run.memory.scratchpad ≡ results
  Mirrored (err e, run) = Unit

  memory_rule :
      WaveRule host registry ctx steps
        (λ remaining results run. run.memory.scratchpad ≡ results)
        Mirrored
  memory_rule = record {
    finish = λ results run h. h;
    stuck = λ r rs results run h none_ready. tt;
    wave = λ remaining results run h.
        scratchpad-run_ready (ready steps (table steps) remaining) results run h;
    broken = λ remaining results run h e run' p. tt;
  }

-- A run that starts with an empty scratchpad and returns leaves in it just what it returns.
pub scratchpad-execute :
    (host : Host) {W : Type 0} (registry : ToolRegistry W) (ctx : ToolContext) (plan : Plan)
    (run : Run W) (results : Dict String ToolResult)
    → run.memory.scratchpad ≡ []
    → (execute host registry ctx plan run).0 ≡ ok results
    → (execute host registry ctx plan run).1.memory.scratchpad ≡ results
scratchpad-execute host {W} registry ctx plan run results start h =
    go (execute host registry ctx plan run) h (
      execute_ind host registry ctx (memory_rule host registry ctx plan.steps) plan.rationale
        plan.source run (Distinct-of_ok host registry ctx plan run results h) start)
  where
    go :
        (x : Answer W)
        → x.0 ≡ ok results
        → Mirrored host registry ctx plan.steps x
        → x.1.memory.scratchpad ≡ results
    go (ok found, after) p q = ground (arith, p, q)
    go (err e, after) p q = ground arith
