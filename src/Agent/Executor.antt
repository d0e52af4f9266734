-- ===== src/Agent/Executor.antt =====
-- backend/app/modules/agent/executor.py. One call of a tool with its retries, and the waves of a
-- plan. A run that raises still has the memory and the trace that it had written.
pub mod Waves
pub mod Steps
pub mod Index
pub mod Rule
pub mod Schedule
pub mod Order
pub mod Cycles
pub mod Visibility
pub mod Memory
pub mod Retries
pub mod Events
pub mod Once
use Prim.Native.String.{◌++◌ as cat}
use research_assistant.Base.{
  ℕ, zero, suc, ◌+◌, String, Bool, true, false, ◌||◌, Option, none, some, List, [], ◌∷◌, ◌++◌, ℤ,
  pos, negsuc, ltb, ◌==◌, string_eq, if◌then◌else◌,
}
use research_assistant.Agent.Json.{Json, str, obj, int, opt_str}
use research_assistant.Agent.Tools.{
  ToolContext, ToolResult, ToolCall, Outcome, returned, returned_other, raised, Completion,
  ToolSpec, Payload, empty, error_code, error_result, visible_to_role,
}
use research_assistant.Agent.Trace.{Host, Run, remember, log}

infixr 65 ◌<>◌
abbrev ◌<>◌ : String → String → String
s <> t = cat s t

-- `attempt > retries`
abbrev pub exceeds : ℕ → ℤ → Bool
exceeds attempt (pos retries) = ltb retries attempt
exceeds attempt (negsuc _) = true

-- `len(range(1, retries + 2))`
abbrev pub rounds : ℤ → ℕ
rounds (pos retries) = retries + 1
rounds (negsuc _) = 0

abbrev pub or_no_result : ToolCall → Option ToolResult → ToolResult
or_no_result step none = error_result step.step_id step.tool "Tool returned no result" empty
or_no_result step (some result) = result

module _ (host : Host) {W : Type 0} where
  -- `except FutureTimeout` is `except TimeoutError`, so it also takes one that the tool raises.
  unfoldable pub timed_outcome : ToolSpec W → Completion W → Outcome
  timed_outcome spec c =
      let late =
        raised "TimeoutError"
          ("tool " <> host.repr spec.name <> " exceeded " <> host.seconds spec.timeout <> "s") in
      if ltb spec.timeout c.elapsed then late else elim c.outcome [
        | raised name message ↦ if name == "TimeoutError" then late else raised name message
        | other ↦ other
      ]

  -- The tool's call, and how it ended.
  unfoldable pub call_tool : ToolSpec W → ToolCall → ToolContext → W → Outcome × W
  unfolding timed_outcome
  call_tool spec step ctx w =
      let c = spec.executor step.args ctx w in
      (if ltb 0 spec.timeout then timed_outcome spec c else c.outcome, c.world)

  unfoldable pub fold_outcome : ToolSpec W → ToolCall → Outcome → ToolResult
  unfolding error_result
  fold_outcome spec step (returned result) = record result {
    step_id = step.step_id;
    tool = spec.name;
  }
  fold_outcome spec step returned_other =
      error_result step.step_id spec.name
        ("tool " <> host.repr spec.name <> " returned a non-ToolResult value") empty
  fold_outcome spec step (raised name message) =
      error_result step.step_id spec.name (name <> ": " <> message)
        (error_code "tool_execution_error")

  -- `_invoke`
  unfoldable pub invoke : ToolSpec W → ToolCall → ToolContext → W → ToolResult × W
  unfolding call_tool fold_outcome
  invoke spec step ctx w =
      let (outcome, w') = call_tool spec step ctx w in (fold_outcome spec step outcome, w')

  unfoldable pub log_retry : ToolCall → ℕ → ToolResult → Run W → Run W
  unfolding log
  log_retry step attempt result run =
      log host "step_retrying"
        (("step_id", str step.step_id)
          ∷ ("tool", str step.tool)
          ∷ ("attempt", int (pos attempt))
          ∷ ("error", opt_str result.error)
          ∷ [])
        run

  -- The `for` loop of `_run_step`, with the rounds left and the variables `attempt` and `result`.
  unfoldable pub attempts :
      ToolSpec W
      → ToolCall
      → ToolContext
      → (left attempt : ℕ) → Option ToolResult
      → Run W
      → Option ToolResult × Run W
  attempts spec step ctx zero attempt last run = (last, run)
  attempts spec step ctx (suc left) attempt last run =
      let (result, w) = invoke spec step ctx run.world in
      let run' : Run W = record run { world = w } in
      let retried =
        attempts spec step ctx left (attempt + 1) (some result)
          (log_retry step attempt result run') in
      if result.status == "ok" || exceeds attempt spec.retries then (some result, run') else retried

  unfoldable pub skip_step : ToolCall → Run W → ToolResult × Run W
  unfolding log remember error_result
  skip_step step run =
      let run' =
        log host "step_skipped"
          (("step_id", str step.step_id)
            ∷ ("tool", str step.tool)
            ∷ ("reason", str "tool unavailable or not visible to role")
            ∷ [])
          run in
      let result =
        error_result step.step_id step.tool
          ("Tool " <> host.repr step.tool <> " is not available or not visible to this role")
          empty in
      (result, record run' { memory = remember step.step_id result run'.memory })

  unfoldable pub finish_step : ToolCall → Option ToolResult × Run W → ToolResult × Run W
  unfolding log remember error_result
  finish_step step (last, run) =
      let result = or_no_result step last in
      (
        result,
        log host "step_finished"
            (("step_id", str step.step_id)
              ∷ ("tool", str step.tool)
              ∷ ("status", str result.status)
              ∷ ("error", opt_str result.error)
              ∷ [])
            (record run { memory = remember step.step_id result run.memory }),
      )

  unfoldable pub start_step : ToolCall → Run W → Run W
  unfolding log
  start_step step run =
      log host "step_started"
        (("step_id", str step.step_id) ∷ ("tool", str step.tool) ∷ ("args", obj step.args) ∷ []) run

  unfoldable pub perform_step : ToolSpec W → ToolCall → ToolContext → Run W → ToolResult × Run W
  unfolding attempts finish_step start_step
  perform_step spec step ctx run = finish_step step (
      attempts spec step (record ctx { step_id = step.step_id }) (rounds spec.retries) 1 none
        (start_step step run))

  -- `_run_step`
  unfoldable pub run_step :
      Option (ToolSpec W) → ToolCall → ToolContext → Run W → ToolResult × Run W
  unfolding skip_step perform_step
  run_step none step ctx run = skip_step step run
  run_step (some spec) step ctx run =
      if visible_to_role spec ctx.role then perform_step spec step ctx run else skip_step step run
