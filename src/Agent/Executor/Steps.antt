-- ===== src/Agent/Executor/Steps.antt =====
-- One step of a plan: its result, and what it writes to memory and trace.
use research_assistant.Base.{
  ℕ, zero, suc, ◌+◌, ◌≡◌, refl, ap, ◌∙◌, inl, inr, ◌||◌, Option, none, some, arith, put, Bool-cases,
  ◌==◌, string_eq,
}
use research_assistant.Agent.Tools.{
  ToolContext, ToolResult, ToolCall, Outcome, returned, returned_other, raised, ToolSpec,
}
use research_assistant.Agent.Trace.{Host, Run, Memory, log, remember}
use research_assistant.Agent.Executor.{
  invoke, attempts, exceeds, run_step, call_tool, fold_outcome, finish_step, perform_step,
  skip_step, start_step, log_retry, rounds,
}

-- What the rounds leave in `result` carries the id of the step.
abbrev Labelled : ToolCall → Option ToolResult → Type 0
Labelled step none = Unit
Labelled step (some r) = r.step_id ≡ step.step_id

module _ (host : Host) {W : Type 0} (spec : ToolSpec W) (step : ToolCall) (ctx : ToolContext) where
  step_id-fold_outcome : (o : Outcome) → (fold_outcome host spec step o).step_id ≡ step.step_id
  unfolding fold_outcome
  step_id-fold_outcome (returned r) = refl
  step_id-fold_outcome returned_other = refl
  step_id-fold_outcome (raised n m) = refl

  step_id-invoke : (w : W) → (invoke host spec step ctx w).0.step_id ≡ step.step_id
  unfolding invoke
  step_id-invoke w = step_id-fold_outcome (call_tool host spec step ctx w).0

  attempts-Labelled :
      (left attempt : ℕ) (last : Option ToolResult) (run : Run W)
      → Labelled step last
      → Labelled step (attempts host spec step ctx left attempt last run).0
  unfolding attempts
  attempts-Labelled zero attempt last run h = h
  attempts-Labelled (suc left) attempt last run h =
      let (result, w) = invoke host spec step ctx run.world in
      elim (Bool-cases (result.status == "ok" || exceeds attempt spec.retries)) [
        | inl stop ↦ rw stop (step_id-invoke run.world)
        | inr more ↦
            rw more
              (attempts-Labelled left (attempt + 1) (some result) _ (step_id-invoke run.world))
      ]

  memory-attempts :
      (left attempt : ℕ) (last : Option ToolResult) (run : Run W)
      → (attempts host spec step ctx left attempt last run).1.memory ≡ run.memory
  unfolding attempts log_retry
  memory-attempts zero attempt last run = refl
  memory-attempts (suc left) attempt last run =
      let (result, w) = invoke host spec step ctx run.world in
      elim (Bool-cases (result.status == "ok" || exceeds attempt spec.retries)) [
        | inl stop ↦ rw stop
        | inr more ↦ rw more (memory-attempts left (attempt + 1) (some result) _)
      ]

module _ (host : Host) {W : Type 0} where
  step_id-finish_step :
      (step : ToolCall) (out : Option ToolResult × Run W)
      → Labelled step out.0
      → (finish_step host step out).0.step_id ≡ step.step_id
  unfolding finish_step
  step_id-finish_step step (none, run) h = refl
  step_id-finish_step step (some r, run) h = h

  step_id-perform_step :
      (spec : ToolSpec W) (step : ToolCall) (ctx : ToolContext) (run : Run W)
      → (perform_step host spec step ctx run).0.step_id ≡ step.step_id
  unfolding perform_step
  step_id-perform_step spec step ctx run =
      let ctx' : ToolContext = record ctx { step_id = step.step_id } in
      let run' = start_step host step run in
      step_id-finish_step step (attempts host spec step ctx' (rounds spec.retries) 1 none run')
        (attempts-Labelled host spec step ctx' (rounds spec.retries) 1 none run' tt)

  -- The result of a step carries its id.
  pub step_id-run_step :
      (spec : Option (ToolSpec W)) (step : ToolCall) (ctx : ToolContext) (run : Run W)
      → (run_step host spec step ctx run).0.step_id ≡ step.step_id
  unfolding run_step
  step_id-run_step none step ctx run = refl
  step_id-run_step (some spec) step ctx run = ground (arith, step_id-perform_step spec step ctx run)

  scratchpad-finish_step :
      (step : ToolCall) (out : Option ToolResult × Run W)
      → (finish_step host step out).1.memory.scratchpad
        ≡ put step.step_id (finish_step host step out).0 out.1.memory.scratchpad
  unfolding finish_step remember log
  scratchpad-finish_step step (last, run) = refl

  scratchpad-perform_step :
      (spec : ToolSpec W) (step : ToolCall) (ctx : ToolContext) (run : Run W)
      → (perform_step host spec step ctx run).1.memory.scratchpad
        ≡ put step.step_id (perform_step host spec step ctx run).0 run.memory.scratchpad
  unfolding perform_step start_step log
  scratchpad-perform_step spec step ctx run =
      let ctx' : ToolContext = record ctx { step_id = step.step_id } in
      let run' = start_step host step run in
      scratchpad-finish_step step (attempts host spec step ctx' (rounds spec.retries) 1 none run')
      ∙ ap (λ (m : Memory). put step.step_id (perform_step host spec step ctx run).0 m.scratchpad)
          (memory-attempts host spec step ctx' (rounds spec.retries) 1 none run')

  -- A step writes its own entry of the scratchpad, with the result that it gives.
  pub scratchpad-run_step :
      (spec : Option (ToolSpec W)) (step : ToolCall) (ctx : ToolContext) (run : Run W)
      → (run_step host spec step ctx run).1.memory.scratchpad
        ≡ put step.step_id (run_step host spec step ctx run).0 run.memory.scratchpad
  unfolding run_step skip_step remember log
  scratchpad-run_step none step ctx run = refl
  scratchpad-run_step (some spec) step ctx run =
      ground (arith, scratchpad-perform_step spec step ctx run)
