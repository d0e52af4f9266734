-- ===== src/Agent/Executor/Waves.antt =====
-- `Executor.execute`: the steps run in waves. The loop recurs on a proved bound for the steps that
-- remain, so it needs no fuel.
use Prim.Native.String.{◌++◌ as cat}
use research_assistant.Base.{
  ℕ, zero, suc, ◌≤◌, ◌<◌, ◌≡◌, ◌≢◌, refl, ap, String, Bool, true, false, ◌&&◌, ◌||◌, not, none,
  some, List, [], ◌∷◌, arith, length, keep_if, mem, mem-keep_if, length-keep_if-le,
  length-keep_if-lt, Dict, get, put, keys, ◌==◌, string_eq, eq_iff, beq_refl, if◌then◌else◌,
}
use mathlib.Core.Logic.{dite}
use mathlib.Core.List.{cons≢nil}
use native.Mathlib.Nat.{le_refl}
use research_assistant.Core.Errors.{Result, ok, err, Exn, other, raise_insight, configuration}
use research_assistant.Agent.Tools.{ToolContext, ToolResult, ToolCall}
use research_assistant.Agent.Registry.{ToolRegistry, get_spec}
use research_assistant.Agent.Trace.{Host, Run}
use research_assistant.Agent.Plan.{Plan, ids}
use research_assistant.Agent.Executor.{run_step}

abbrev pub dec_nil {ℓ} : {A : Type ℓ} (xs : List A) → Dec (xs ≡ [])
dec_nil [] = yes refl
dec_nil (x ∷ xs) = no cons≢nil

-- The loop of `_index_steps`, from the dict `indexed`.
unfoldable pub index_from :
    (repr : String → String) → Dict String ToolCall → List ToolCall → Result (Dict String ToolCall)
unfolding raise_insight
index_from repr indexed [] = ok indexed
index_from repr indexed (step ∷ steps) =
    let rest = index_from repr (put step.step_id step indexed) steps in
    if mem step.step_id (keys indexed)
    then err (
        raise_insight configuration
          (cat (cat "Duplicate step id " (repr step.step_id)) " in agent plan"))
    else rest

unfoldable pub index_steps :
    (repr : String → String) → List ToolCall → Result (Dict String ToolCall)
unfolding index_from
index_steps repr steps = index_from repr [] steps

unfoldable pub plan_order : List ToolCall → List String → List String
plan_order steps remaining = keep_if (λ step_id. mem step_id remaining) (ids steps)

-- A set intersection that is not empty.
unfoldable pub meets : List String → List String → Bool
meets [] remaining = false
meets (d ∷ deps) remaining = mem d remaining || meets deps remaining

pub meets_of_mem :
    (d : String) (deps remaining : List String)
    → mem d deps ≡ true
    → meets deps remaining ≡ false
    → mem d remaining ≡ false
unfolding meets mem
meets_of_mem d [] remaining m h = cc
meets_of_mem d (x ∷ deps) remaining m h = ground (arith, eq_iff x d, meets_of_mem d deps remaining)

-- `satisfied[step_id]`
abbrev pub deps_of : Dict String ToolCall → String → List String
deps_of step_map step_id = elim (get step_id step_map) [ none ↦ [] | some step ↦ step.depends_on ]

unfoldable pub ready : List ToolCall → Dict String ToolCall → List String → List String
unfolding plan_order meets
ready steps step_map remaining =
    keep_if (λ step_id. not (meets (deps_of step_map step_id) remaining))
      (plan_order steps remaining)

unfoldable pub discard : String → List String → List String
discard step_id remaining = keep_if (λ other_id. not (step_id == other_id)) remaining

unfoldable pub discard_all : List String → List String → List String
unfolding discard
discard_all [] remaining = remaining
discard_all (step_id ∷ step_ids) remaining = discard_all step_ids (discard step_id remaining)

length-discard_all-le :
    (step_ids remaining : List String) → length (discard_all step_ids remaining) ≤ length remaining
unfolding discard_all
length-discard_all-le [] remaining = le_refl _
length-discard_all-le (s ∷ step_ids) remaining = omega (
  arith,
  length-discard_all-le step_ids (discard s remaining),
  length-keep_if-le (λ other_id. not (s == other_id)) remaining,
)

-- A step is ready if it remains and none of its dependencies does.
pub mem-ready :
    (steps : List ToolCall) (step_map : Dict String ToolCall) (remaining : List String) (s : String)
    → mem s (ready steps step_map remaining)
      ≡ ((mem s (ids steps) && mem s remaining) && not (meets (deps_of step_map s) remaining))
unfolding ready plan_order
mem-ready steps step_map remaining s = rw (mem-keep_if, mem-keep_if)

-- Discarding an item that is there, and then others, leaves fewer.
length-discard_all-lt :
    (s : String) (step_ids remaining : List String)
    → mem s remaining ≡ true
    → length (discard_all (s ∷ step_ids) remaining) < length remaining
unfolding discard_all
length-discard_all-lt s step_ids remaining m = omega (
  arith,
  length-discard_all-le step_ids (discard s remaining),
  length-keep_if-lt (λ other_id. not (s == other_id)) s remaining m (rw (beq_refl s)),
)

-- A wave leaves fewer steps.
pub length-discard_ready-lt :
    (steps : List ToolCall) (step_map : Dict String ToolCall) (remaining : List String)
    → ready steps step_map remaining ≢ []
    → length (discard_all (ready steps step_map remaining) remaining) < length remaining
unfolding mem
length-discard_ready-lt steps step_map remaining h = go (ready steps step_map remaining) refl
  where
    go :
        (l : List String)
        → ready steps step_map remaining ≡ l
        → length (discard_all (ready steps step_map remaining) remaining) < length remaining
    go [] e = absurd (h e)
    go (s ∷ rest) e = rw e (
        length-discard_all-lt s rest remaining
          (ground (arith, beq_refl s, mem-ready steps step_map remaining s, ap (mem s) e)))

abbrev pub cycle : Exn
cycle = raise_insight configuration "Agent plan contains a dependency cycle; cannot execute"

module _ (host : Host) {W : Type 0} (registry : ToolRegistry W) (ctx : ToolContext) where
  -- The `for` loop over `ready`.
  unfoldable pub run_ready :
      Dict String ToolCall
      → List String
      → Dict String ToolResult
      → Run W
      → Result (Dict String ToolResult) × Run W
  unfolding run_step
  run_ready step_map [] results run = (ok results, run)
  run_ready step_map (step_id ∷ step_ids) results run = elim (get step_id step_map) [
    | none ↦ (err (other "KeyError" (host.repr step_id)), run)
    | some step ↦
        let (result, run') = run_step host (get_spec step.tool registry) step ctx run in
        run_ready step_map step_ids (put step_id result results) run'
  ]

  -- The body of the loop after a wave: an exception leaves the loop.
  abbrev pub after_wave :
      Result (Dict String ToolResult) × Run W
      → (Dict String ToolResult → Run W → Result (Dict String ToolResult) × Run W)
      → Result (Dict String ToolResult) × Run W
  after_wave (ok results, run) next = next results run
  after_wave (err e, run) next = (err e, run)

  -- The `while` loop, with `length remaining` at most `bound`.
  unfoldable pub waves :
      (steps : List ToolCall) (step_map : Dict String ToolCall) (bound : ℕ)
      (remaining : List String)
      → length remaining ≤ bound
      → Dict String ToolResult
      → Run W
      → Result (Dict String ToolResult) × Run W
  waves steps step_map bound [] h results run = (ok results, run)
  waves steps step_map zero (r ∷ rs) h results run = absurd (omega arith)
  waves steps step_map (suc bound) (r ∷ rs) h results run =
      let remaining = r ∷ rs in
      let runnable = ready steps step_map remaining in
      dite (dec_nil runnable) (λ _. (err cycle, run))
        λ some_ready. after_wave (run_ready step_map runnable results run) (
          waves steps step_map bound (discard_all runnable remaining)
            (omega (arith, length-discard_ready-lt steps step_map remaining some_ready)))

  -- `Executor.execute`
  unfoldable pub execute : Plan → Run W → Result (Dict String ToolResult) × Run W
  execute plan run = elim (index_steps host.repr plan.steps) [
    | err e ↦ (err e, run)
    | ok step_map ↦
        waves plan.steps step_map (length (keys step_map)) (keys step_map) (le_refl _) [] run
  ]
