-- ===== src/Examples/Agent/Executor.antt =====
-- Runs of the executor.
use research_assistant.Base.{
  ℕ, ◌≡◌, refl, String, none, [], ◌∷◌, arith, mem, get, put, keep_if, Distinct, Dict, string_eq,
  pos, eq_iff, ◌==◌, if◌then◌else◌,
}
use research_assistant.Core.Errors.{ok, err}
use research_assistant.Agent.Tools.{ToolResult, visible_to_role, error_result}
use research_assistant.Agent.Registry.{ToolRegistry, get_spec}
use research_assistant.Agent.Trace.{log, remember}
use research_assistant.Agent.Plan.{ids}
use research_assistant.Agent.Executor.{run_step, perform_step, attempts, log_retry, invoke, rounds}
use research_assistant.Agent.Executor.Waves.{
  execute, index_steps, waves, ready, discard_all, run_ready, cycle,
}
use research_assistant.Agent.Executor.Order.{Blocked}
use research_assistant.Agent.Executor.Once.{IsSchedule, execute-IsSchedule}
use research_assistant.Agent.Executor.Cycles.{IsRanked, execute-ranked, execute-err}
use research_assistant.Agent.Executor.Visibility.{execute-SameView, SameView}
use research_assistant.Agent.Executor.Memory.{scratchpad-execute}
use research_assistant.Agent.Executor.Retries.{Tried, attempts-Tried}
use research_assistant.Examples.Agent.{
  host, echo, registry, ctx, step, two_steps, circle, idle, both_done,
}

program : Unit {0}
unfolding execute index_steps waves ready discard_all run_ready run_step perform_step attempts
    invoke get put mem keep_if log remember get_spec visible_to_role error_result log_retry
program = tt

execute-two_steps : (execute host registry ctx two_steps idle).0 ≡ ok both_done
unfolding program
execute-two_steps = refl

calls-two_steps : (execute host registry ctx two_steps idle).1.world ≡ 4
unfolding program
calls-two_steps = refl

execute-circle : (execute host registry ctx circle idle).0 ≡ err cycle
unfolding program
execute-circle = refl

execute-IsSchedule_example :
    IsSchedule two_steps.steps [] both_done (execute host registry ctx two_steps idle).1.events
execute-IsSchedule_example =
    execute-IsSchedule host registry ctx two_steps idle both_done execute-two_steps

abbrev rank : String → ℕ
rank s = if "b" == s then 1 else 0

rank-two_steps : IsRanked rank two_steps.steps
unfolding mem get
rank-two_steps s d known there needed = ground (arith, eq_iff "b" d, eq_iff "a" d, eq_iff "b" "a")

Distinct-two_steps : Distinct (ids two_steps.steps)
unfolding mem
Distinct-two_steps = (refl, (refl, tt))

execute-ranked_example :
    (results : Dict String ToolResult) × ((execute host registry ctx two_steps idle).0 ≡ ok results)
execute-ranked_example =
    execute-ranked host registry ctx rank two_steps idle Distinct-two_steps rank-two_steps

Distinct-circle : Distinct (ids circle.steps)
unfolding mem
Distinct-circle = (refl, (refl, tt))

execute-err_example : (cycle ≡ cycle) × Blocked circle.steps
execute-err_example = execute-err host registry ctx circle idle cycle Distinct-circle execute-circle

abbrev without_hidden : ToolRegistry ℕ
without_hidden = ("echo", echo) ∷ []

same_view : SameView "user" registry without_hidden
unfolding get_spec get visible_to_role mem
same_view name = ground arith

execute-SameView_example :
    execute host registry ctx two_steps idle ≡ execute host without_hidden ctx two_steps idle
execute-SameView_example =
    execute-SameView host ctx registry without_hidden same_view two_steps idle

scratchpad-execute_example :
    (execute host registry ctx two_steps idle).1.memory.scratchpad ≡ both_done
scratchpad-execute_example =
    scratchpad-execute host registry ctx two_steps idle both_done refl execute-two_steps

attempts-Tried_example :
    Tried host echo
      (step "a" [])
      ctx
      3
      0
      0
      (attempts host echo (step "a" []) ctx (rounds (pos 3)) 1 none idle)
attempts-Tried_example = attempts-Tried host echo (step "a" []) ctx 3 idle refl
