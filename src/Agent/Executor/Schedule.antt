-- ===== src/Agent/Executor/Schedule.antt =====
-- The order in which `execute` runs the steps of a plan.
use research_assistant.Base.{
  ◌≡◌, inl, inr, String, true, ◌||◌, not, some, List, [], ◌∷◌, ◌++◌, arith, All, All-of_mem,
  get-ne-none, mem, Distinct, mem-keep_if, Dict, keys, get, put, get-put, keys-put_old,
  keys-put_new, mem-keys-put, Distinct-keys-put, Bool-cases, ◌==◌, string_eq, eq_iff,
}
use research_assistant.Agent.Tools.{ToolResult, ToolCall}
use research_assistant.Agent.Plan.{ids}
use research_assistant.Agent.Executor.Index.{table, keys-table}
use research_assistant.Agent.Executor.Waves.{ready, mem-ready, meets_of_mem, discard, deps_of}

module _ (steps : List ToolCall) where
  -- The dependencies of `s` that the plan has are in `seen`.
  abbrev pub Before : List String → String → Type 0
  Before seen s =
      (d : String)
      → mem d (deps_of (table steps) s) ≡ true
      → mem d (ids steps) ≡ true
      → mem d seen ≡ true

  -- In the list every step stands behind its dependencies.
  abbrev pub InOrder : List String → List String → Type 0
  InOrder seen [] = Unit
  InOrder seen (s ∷ l) = Before seen s × InOrder (s ∷ seen) l

  InOrder-snoc :
      (seen l : List String) (s : String)
      → InOrder seen l
      → ((d : String)
          → mem d (deps_of (table steps) s) ≡ true
          → mem d (ids steps) ≡ true
          → (mem d l || mem d seen) ≡ true)
      → InOrder seen (l ++ s ∷ [])
  unfolding mem
  InOrder-snoc seen [] s h last = (last, tt)
  InOrder-snoc seen (x ∷ l) s h last =
      (h.0, InOrder-snoc (x ∷ seen) l s h.1 λ d p q. ground (arith, last d p q))

  -- What holds between two waves.
  pub record Progress (remaining : List String) (results : Dict String ToolResult) : Type 0 where
    pub covers : (j : String) → mem j (ids steps) ≡ (mem j (keys results) || mem j remaining)
    pub distinct : Distinct (keys results)
    pub in_order : InOrder [] (keys results)
    pub labelled : (j : String) (r : ToolResult) → get j results ≡ some r → r.step_id ≡ j

  InOrder-put :
      (s : String) (r : ToolResult) (results : Dict String ToolResult)
      → InOrder [] (keys results)
      → Before (keys results) s
      → InOrder [] (keys (put s r results))
  unfolding mem
  InOrder-put s r results h before = elim (Bool-cases (mem s (keys results))) [
    | inl old ↦ rw (keys-put_old s r results old) h
    | inr new ↦
        rw (keys-put_new s r results new)
          (InOrder-snoc [] (keys results) s h λ d p q. ground (arith, before d p q))
  ]

  -- One more result.
  pub Progress-put :
      (s : String) (r : ToolResult) (remaining : List String) (results : Dict String ToolResult)
      → Progress remaining results
      → mem s (ids steps) ≡ true
      → Before (keys results) s
      → r.step_id ≡ s
      → Progress (discard s remaining) (put s r results)
  unfolding discard
  Progress-put s r remaining results h known before label = record {
    covers = λ j. ground (
      arith,
      h.covers j,
      h.covers s,
      mem-keys-put j s r results,
      mem-keep_if (λ other_id. not (s == other_id)) j remaining,
      eq_iff s j,
    );
    distinct = Distinct-keys-put s r results h.distinct;
    in_order = InOrder-put s r results h.in_order before;
    labelled = λ j x found. ground (arith, get-put s j r results, h.labelled j x, eq_iff s j);
  }

  abbrev pub Runnable : List String → Dict String ToolResult → Type 0
  Runnable step_ids results =
      All (λ s. (mem s (ids steps) ≡ true) × Before (keys results) s) step_ids

  pub Runnable-put :
      (s : String) (r : ToolResult) (results : Dict String ToolResult) (step_ids : List String)
      → Runnable step_ids results
      → Runnable step_ids (put s r results)
  Runnable-put s r results [] h = tt
  Runnable-put s r results (x ∷ step_ids) h = (
    (h.0.0, λ d p q. ground (arith, h.0.1 d p q, mem-keys-put d s r results)),
    Runnable-put s r results step_ids h.1,
  )

  pub get-table_known :
      (s : String)
      → mem s (ids steps) ≡ true
      → (step : ToolCall) × (get s (table steps) ≡ some step)
  get-table_known s known = get-ne-none s (table steps) (rw (keys-table steps) known)

  Before-ready :
      (remaining : List String) (results : Dict String ToolResult) (s : String)
      → Progress remaining results
      → mem s (ready steps (table steps) remaining) ≡ true
      → (mem s (ids steps) ≡ true) × Before (keys results) s
  Before-ready remaining results s h m =
      let split = mem-ready steps (table steps) remaining s in
      (
        ground (arith, split),
        λ d p q.
            ground (arith, split, h.covers d, meets_of_mem d (deps_of (table steps) s) remaining p),
      )

  pub Runnable-ready :
      (remaining : List String) (results : Dict String ToolResult)
      → Progress remaining results
      → Runnable (ready steps (table steps) remaining) results
  Runnable-ready remaining results h =
      All-of_mem (λ s. (mem s (ids steps) ≡ true) × Before (keys results) s)
        (ready steps (table steps) remaining) (λ s. Before-ready remaining results s h)
