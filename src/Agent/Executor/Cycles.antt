-- ===== src/Agent/Executor/Cycles.antt =====
-- Which plans `execute` finishes, and which it refuses.
use research_assistant.Base.{
  ℕ, ◌≤◌, ◌<◌, ◌≡◌, refl, ap, inl, inr, String, true, List, [], ◌∷◌, arith, leb, Bool-cases, mem,
  Distinct, Dict, ◌==◌, string_eq, eq_iff,
}
use research_assistant.Core.Errors.{ok, err, Exn}
use research_assistant.Agent.Tools.{ToolContext, ToolResult, ToolCall}
use research_assistant.Agent.Registry.{ToolRegistry}
use research_assistant.Agent.Trace.{Host, Run}
use research_assistant.Agent.Plan.{Plan, ids}
use research_assistant.Agent.Executor.Index.{table}
use research_assistant.Agent.Executor.Waves.{execute, meets, deps_of, cycle}
use research_assistant.Agent.Executor.Rule.{Answer}
use research_assistant.Agent.Executor.Order.{Ends, execute-Ends, Blocked}

low-cons :
    (rank : String → ℕ) (k : ℕ) (r : String) (l : List String)
    → k ≤ rank r
    → ((d : String) → mem d l ≡ true → k ≤ rank d)
    → (d : String) → mem d (r ∷ l) ≡ true
    → k ≤ rank d
unfolding mem
low-cons rank k r l first rest d m = elim (Bool-cases (r == d)) [
  | inl same ↦ let e : rank r ≡ rank d = ap rank ((eq_iff r d).0 same) in omega arith
  | inr other ↦ rest d (ground arith)
]

-- An item of least rank.
least :
    (rank : String → ℕ) (r : String) (rs : List String)
    → (s : String) × (mem s (r ∷ rs) ≡ true)
      × ((d : String) → mem d (r ∷ rs) ≡ true → rank s ≤ rank d)
unfolding mem
least rank r [] =
    (r, ground (arith, eq_iff r r), low-cons rank (rank r) r [] (omega arith) λ d m. ground arith)
least rank r (x ∷ rs) =
    let (s, in_rest, low) = least rank x rs in
    elim (Bool-cases (leb (rank r) (rank s))) [
      | inl first ↦ (
        r,
        ground (arith, eq_iff r r),
        low-cons rank (rank r) r (x ∷ rs) (omega arith) λ d m. ground (arith, low d m),
      )
      | inr later ↦ (s, ground arith, low-cons rank (rank s) r (x ∷ rs) (ground arith) low)
    ]

meets_witness :
    (deps remaining : List String)
    → meets deps remaining ≡ true
    → (d : String) × (mem d deps ≡ true) × (mem d remaining ≡ true)
unfolding meets mem
meets_witness [] remaining h = ground arith
meets_witness (x ∷ deps) remaining h = elim (Bool-cases (mem x remaining)) [
  | inl now ↦ (x, ground (arith, eq_iff x x), now)
  | inr later ↦ let (d, m, n) = meets_witness deps remaining (ground arith) in (d, ground arith, n)
]

-- Every dependency within the plan has a lower rank, so the dependencies have no cycle.
abbrev pub IsRanked : (String → ℕ) → List ToolCall → Type 0
IsRanked rank steps =
    (s d : String)
    → mem s (ids steps) ≡ true
    → mem d (ids steps) ≡ true
    → mem d (deps_of (table steps) s) ≡ true
    → rank d < rank s

pub not-Blocked :
    (rank : String → ℕ) (steps : List ToolCall) → IsRanked rank steps → ¬ Blocked steps
not-Blocked rank steps ranked (r, rs, blocked) =
    let (s, m, low) = least rank r rs in
    let (known, waits) = blocked s m in
    let (d, needed, there) = meets_witness (deps_of (table steps) s) (r ∷ rs) waits in
    absurd (omega (arith, low d there, ranked s d known (blocked d there).0 needed))

module _ (host : Host) {W : Type 0} (registry : ToolRegistry W) (ctx : ToolContext) where
  -- A plan whose step ids are distinct and whose dependencies have no cycle is run to its end:
  -- `execute` raises nothing.
  pub execute-ranked :
      (rank : String → ℕ) (plan : Plan) (run : Run W)
      → Distinct (ids plan.steps)
      → IsRanked rank plan.steps
      → (results : Dict String ToolResult) × ((execute host registry ctx plan run).0 ≡ ok results)
  execute-ranked rank plan run distinct ranked =
      go (execute host registry ctx plan run)
        (execute-Ends plan.steps host registry ctx plan.rationale plan.source run distinct)
    where
      go :
          (x : Answer W)
          → Ends plan.steps host registry ctx x
          → (results : Dict String ToolResult) × (x.0 ≡ ok results)
      go (ok results, after) ends = (results, refl)
      go (err e, after) ends = absurd (not-Blocked rank plan.steps ranked ends.1)

  -- The other way round: an exception from a plan with distinct step ids is the error for a cycle,
  -- and some of its steps do wait for each other.
  pub execute-err :
      (plan : Plan) (run : Run W) (e : Exn)
      → Distinct (ids plan.steps)
      → (execute host registry ctx plan run).0 ≡ err e
      → (e ≡ cycle) × Blocked plan.steps
  execute-err plan run e distinct h =
      go (execute host registry ctx plan run) h
        (execute-Ends plan.steps host registry ctx plan.rationale plan.source run distinct)
    where
      go :
          (x : Answer W)
          → x.0 ≡ err e
          → Ends plan.steps host registry ctx x
          → (e ≡ cycle) × Blocked plan.steps
      go (ok results, after) p ends = ground arith
      go (err x, after) p ends = (ground (arith, ends.0), ends.1)
