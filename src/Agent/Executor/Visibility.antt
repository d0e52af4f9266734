-- ===== src/Agent/Executor/Visibility.antt =====
-- Tools that a role may not see have no influence on a run.
use research_assistant.Base.{
  ℕ, zero, suc, ◌≤◌, ◌≡◌, refl, sym, ap, ◌∙◌, inl, inr, String, Option, none, some, List, [], ◌∷◌,
  arith, length, Dict, get, Bool-cases, string_eq, if◌then◌else◌,
}
use native.Mathlib.Nat.{le_refl}
use research_assistant.Core.Errors.{Result, ok, err}
use research_assistant.Agent.Tools.{ToolContext, ToolResult, ToolCall, ToolSpec, visible_to_role}
use research_assistant.Agent.Registry.{ToolRegistry, get_spec}
use research_assistant.Agent.Trace.{Host, Run}
use research_assistant.Agent.Plan.{Plan}
use research_assistant.Agent.Executor.{run_step}
use research_assistant.Agent.Executor.Waves.{
  ready, run_ready, after_wave, waves, execute, dec_nil, index_steps,
}
use mathlib.Core.Logic.{dite}

dite_congr {ℓ κ} :
    {A : Type ℓ} {B : Type κ} (d : Dec A) (x : B) (y z : ¬ A → B)
    → ((n : ¬ A) → y n ≡ z n)
    → dite d (λ _. x) y ≡ dite d (λ _. x) z
dite_congr (yes a) x y z h = refl
dite_congr (no n) x y z h = h n

-- What a role gets from a lookup: a tool that it may not see is as good as none.
abbrev pub seen_by : {W : Type 0} → String → Option (ToolSpec W) → Option (ToolSpec W)
seen_by role none = none
seen_by role (some spec) = if visible_to_role spec role then some spec else none

-- The two registries differ at most in tools that the role may not see.
abbrev pub SameView : {W : Type 0} → String → ToolRegistry W → ToolRegistry W → Type 0
SameView role a b =
    (name : String) → seen_by role (get_spec name a) ≡ seen_by role (get_spec name b)

module _ (host : Host) {W : Type 0} (ctx : ToolContext) where
  run_step-seen_by :
      (found : Option (ToolSpec W)) (step : ToolCall) (run : Run W)
      → run_step host found step ctx run ≡ run_step host (seen_by ctx.role found) step ctx run
  unfolding run_step
  run_step-seen_by none step run = refl
  run_step-seen_by (some spec) step run = elim (Bool-cases (visible_to_role spec ctx.role)) [
    | inl yes_sees ↦ ground arith
    | inr not_sees ↦ ground arith
  ]

  module _ (a b : ToolRegistry W) (same : SameView ctx.role a b) where
    run_step-SameView :
        (step : ToolCall) (run : Run W)
        → run_step host (get_spec step.tool a) step ctx run
          ≡ run_step host (get_spec step.tool b) step ctx run
    run_step-SameView step run =
        run_step-seen_by (get_spec step.tool a) step run
        ∙ ap (λ x. run_step host x step ctx run) (same step.tool)
        ∙ sym (run_step-seen_by (get_spec step.tool b) step run)

    run_ready-SameView :
        (step_map : Dict String ToolCall) (step_ids : List String)
        (results : Dict String ToolResult) (run : Run W)
        → run_ready host a ctx step_map step_ids results run
          ≡ run_ready host b ctx step_map step_ids results run
    unfolding run_ready
    run_ready-SameView step_map [] results run = refl
    run_ready-SameView step_map (s ∷ step_ids) results run =
        go (get s step_map) refl (run_ready-SameView step_map step_ids)
      where
        go :
            (found : Option ToolCall)
            → get s step_map ≡ found
            → ((results : Dict String ToolResult) (run : Run W)
                → run_ready host a ctx step_map step_ids results run
                  ≡ run_ready host b ctx step_map step_ids results run)
            → run_ready host a ctx step_map (s ∷ step_ids) results run
              ≡ run_ready host b ctx step_map (s ∷ step_ids) results run
        go none e ih = rw (e, run_ready)
        go (some step) e ih = rw (e, run_ready, run_step-SameView step run) (ih _ _)

    after_wave_congr :
        (x y : Result (Dict String ToolResult) × Run W)
        (f g : Dict String ToolResult → Run W → Result (Dict String ToolResult) × Run W)
        → x ≡ y
        → ((results : Dict String ToolResult) (run : Run W) → f results run ≡ g results run)
        → after_wave host a ctx x f ≡ after_wave host b ctx y g
    after_wave_congr (ok results, run) y f g e h =
        h results run ∙ ap (λ z. after_wave host b ctx z g) e
    after_wave_congr (err x, run) y f g e h = ap (λ z. after_wave host b ctx z g) e

    waves-SameView :
        (steps : List ToolCall) (step_map : Dict String ToolCall) (bound : ℕ)
        (remaining : List String) (h : length remaining ≤ bound) (results : Dict String ToolResult)
        (run : Run W)
        → waves host a ctx steps step_map bound remaining h results run
          ≡ waves host b ctx steps step_map bound remaining h results run
    unfolding waves
    waves-SameView steps step_map bound [] h results run = refl
    waves-SameView steps step_map zero (r ∷ rs) h results run = absurd (omega arith)
    waves-SameView steps step_map (suc bound) (r ∷ rs) h results run =
        dite_congr (dec_nil (ready steps step_map (r ∷ rs))) _ _ _ λ some_ready.
          after_wave_congr _ _ _ _
            (run_ready-SameView step_map (ready steps step_map (r ∷ rs)) results run)
            λ results' run'. waves-SameView steps step_map bound _ _ results' run'

    go_execute :
        (plan : Plan) (run : Run W) (x : Result (Dict String ToolCall))
        → index_steps host.repr plan.steps ≡ x
        → execute host a ctx plan run ≡ execute host b ctx plan run
    unfolding execute
    go_execute plan run (ok step_map) e =
        rw (e, execute) (waves-SameView plan.steps step_map _ _ (le_refl _) [] run)
    go_execute plan run (err x) e = rw (e, execute)

    -- Two registries that differ only in tools that the role may not see give the same run: the
    -- same results or exception, world, memory and trace.
    pub execute-SameView :
        (plan : Plan) (run : Run W) → execute host a ctx plan run ≡ execute host b ctx plan run
    execute-SameView plan run = go_execute plan run (index_steps host.repr plan.steps) refl
