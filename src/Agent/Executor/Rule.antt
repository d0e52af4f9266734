-- ===== src/Agent/Executor/Rule.antt =====
-- A proof rule for `execute`: an invariant of the loop and a postcondition.
use research_assistant.Base.{
  ℕ, zero, suc, ◌≤◌, ◌≡◌, refl, String, Option, List, [], ◌∷◌, arith, length, Distinct, Dict,
  string_eq,
}
use mathlib.Core.Logic.{dite}
use research_assistant.Core.Errors.{Result, ok, err, Exn}
use research_assistant.Agent.Tools.{ToolContext, ToolResult, ToolCall}
use research_assistant.Agent.Registry.{ToolRegistry}
use research_assistant.Agent.Trace.{Host, Run}
use research_assistant.Agent.Plan.{PlanSource, ids}
use research_assistant.Agent.Executor.Index.{table, keys-table, index_steps-Distinct}
use research_assistant.Agent.Executor.Waves.{
  ready, discard_all, run_ready, after_wave, waves, execute, cycle, dec_nil,
}

pub dite_ind {ℓ κ μ} :
    {A : Type ℓ} {B : Type κ} (Q : B → Type μ) (d : Dec A) {x : A → B} {y : ¬ A → B}
    → ((a : A) → Q (x a))
    → ((n : ¬ A) → Q (y n))
    → Q (dite d x y)
dite_ind Q (yes a) qx qy = qx a
dite_ind Q (no n) qx qy = qy n

abbrev pub Answer : Type 0 → Type 0
Answer W = Result (Dict String ToolResult) × Run W

module _ (host : Host) {W : Type 0} (registry : ToolRegistry W) (ctx : ToolContext) where
  -- `P remaining results run` holds before each wave, and `Q` of what the loop gives.
  pub record WaveRule (steps : List ToolCall)
      (P : List String → Dict String ToolResult → Run W → Type 0) (Q : Answer W → Type 0)
      : Type 0 where
    pub finish :
        (results : Dict String ToolResult) (run : Run W) → P [] results run → Q (ok results, run)
    pub stuck :
        (r : String) (rs : List String) (results : Dict String ToolResult) (run : Run W)
        → P (r ∷ rs) results run
        → ready steps (table steps) (r ∷ rs) ≡ []
        → Q (err cycle, run)
    pub wave :
        (remaining : List String) (results : Dict String ToolResult) (run : Run W)
        → P remaining results run
        → (results' : Dict String ToolResult) (run' : Run W)
        → run_ready host registry ctx
            (table steps)
            (ready steps (table steps) remaining)
            results
            run
          ≡ (ok results', run')
        → P (discard_all (ready steps (table steps) remaining) remaining) results' run'
    pub broken :
        (remaining : List String) (results : Dict String ToolResult) (run : Run W)
        → P remaining results run
        → (e : Exn) (run' : Run W)
        → run_ready host registry ctx
            (table steps)
            (ready steps (table steps) remaining)
            results
            run
          ≡ (err e, run')
        → Q (err e, run')

  module _ {steps : List ToolCall} {P : List String → Dict String ToolResult → Run W → Type 0}
      {Q : Answer W → Type 0} (rule : WaveRule steps P Q) where
    open rule use {finish, stuck, wave, broken}

    after_wave_ind :
        (out : Answer W) (next : Dict String ToolResult → Run W → Answer W)
        → ((results : Dict String ToolResult) (run : Run W)
            → out ≡ (ok results, run)
            → Q (next results run))
        → ((e : Exn) (run : Run W) → out ≡ (err e, run) → Q (err e, run))
        → Q (after_wave host registry ctx out next)
    after_wave_ind (ok results, run) next good bad = good results run refl
    after_wave_ind (err e, run) next good bad = bad e run refl

    pub waves_ind :
        (bound : ℕ) (remaining : List String) (h : length remaining ≤ bound)
        (results : Dict String ToolResult) (run : Run W)
        → P remaining results run
        → Q (waves host registry ctx steps (table steps) bound remaining h results run)
    unfolding waves
    waves_ind bound [] h results run p = finish results run p
    waves_ind zero (r ∷ rs) h results run p = absurd (omega arith)
    waves_ind (suc bound) (r ∷ rs) h results run p =
        dite_ind Q (dec_nil (ready steps (table steps) (r ∷ rs))) (stuck r rs results run p)
          λ some_ready.
            after_wave_ind _ _
              (λ results' run' e.
                waves_ind bound _ _ results' run' (wave (r ∷ rs) results run p results' run' e))
              (broken (r ∷ rs) results run p)

    pub execute_ind :
        (rationale : Option String) (source : PlanSource) (run : Run W)
        → Distinct (ids steps)
        → P (ids steps) [] run
        → Q (
            execute host registry ctx
              (record { steps = steps; rationale = rationale; source = source })
              run)
    unfolding execute
    execute_ind rationale source run distinct p =
        rw (index_steps-Distinct host.repr steps distinct, execute)
          (waves_ind _ _ _ [] run (rw keys-table p))
