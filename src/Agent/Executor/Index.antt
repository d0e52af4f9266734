-- ===== src/Agent/Executor/Index.antt =====
-- `_index_steps`: what the dict of steps holds.
use research_assistant.Base.{
  ◌≡◌, refl, ap, ◌∙◌, inl, inr, String, false, some, List, [], ◌∷◌, ◌++◌, map, append_assoc,
  append-nil, arith, All, mem, Distinct, mem-append, Dict, keys, get, put, put_new, keys-append,
  Bool-cases, string_eq, eq_iff,
}
use research_assistant.Core.Errors.{ok}
use research_assistant.Agent.Tools.{ToolCall}
use research_assistant.Agent.Plan.{ids}
use research_assistant.Agent.Executor.Waves.{index_from, index_steps}

-- The dict from step ids to steps.
abbrev pub table : List ToolCall → Dict String ToolCall
table steps = map (λ step. (step.step_id, step)) steps

pub keys-table : (steps : List ToolCall) → keys (table steps) ≡ ids steps
keys-table [] = refl
keys-table (step ∷ steps) = ap (λ l. step.step_id ∷ l) (keys-table steps)

pub step_id-get-table :
    (steps : List ToolCall) (s : String) (step : ToolCall)
    → get s (table steps) ≡ some step
    → step.step_id ≡ s
unfolding get
step_id-get-table [] s step h = cc
step_id-get-table (x ∷ steps) s step h =
    ground (arith, eq_iff x.step_id s, step_id-get-table steps s step)

abbrev FreshIn : Dict String ToolCall → List ToolCall → Type 0
FreshIn indexed steps = All (λ step. mem step.step_id (keys indexed) ≡ false) steps

module _ (repr : String → String) where
  FreshIn-append :
      (indexed : Dict String ToolCall) (x : ToolCall) (steps : List ToolCall)
      → FreshIn (indexed ++ (x.step_id, x) ∷ []) steps
      → FreshIn indexed steps × (mem x.step_id (ids steps) ≡ false)
  unfolding mem
  FreshIn-append indexed x [] h = (tt, refl)
  FreshIn-append indexed x (y ∷ steps) h =
      let (old, new) = FreshIn-append indexed x steps h.1 in
      let split = ap (mem y.step_id) (keys-append indexed ((x.step_id, x) ∷ [])) in
      (
        (ground (arith, h.0, split, mem-append y.step_id (keys indexed) (x.step_id ∷ [])), old),
        ground (
          arith,
          h.0,
          split,
          mem-append y.step_id (keys indexed) (x.step_id ∷ []),
          eq_iff x.step_id y.step_id,
          eq_iff y.step_id x.step_id,
          new,
        ),
      )

  index_from_ok :
      (indexed : Dict String ToolCall) (steps : List ToolCall) (m : Dict String ToolCall)
      → index_from repr indexed steps ≡ ok m
      → (m ≡ indexed ++ table steps) × FreshIn indexed steps × Distinct (ids steps)
  unfolding index_from
  index_from_ok indexed [] m h = (cc (append-nil indexed), tt, tt)
  index_from_ok indexed (x ∷ steps) m h = elim (Bool-cases (mem x.step_id (keys indexed))) [
    | inl repeated ↦ ground arith
    | inr new ↦
        let (whole, fresh, distinct) =
          index_from_ok (put x.step_id x indexed) steps m (ground arith) in
        let (old, apart) =
          FreshIn-append indexed x steps (rw (put_new x.step_id x indexed new) at fresh) in
        (
          whole
              ∙ ap (λ d. d ++ table steps) (put_new x.step_id x indexed new)
              ∙ append_assoc indexed ((x.step_id, x) ∷ []) (table steps),
          (new, old),
          (apart, distinct),
        )
  ]

  -- The steps are indexed in the order of the plan, and no id is repeated.
  pub index_steps_ok :
      (steps : List ToolCall) (m : Dict String ToolCall)
      → index_steps repr steps ≡ ok m
      → (m ≡ table steps) × Distinct (ids steps)
  unfolding index_steps
  index_steps_ok steps m h =
      let (whole, _, distinct) = index_from_ok [] steps m h in (whole, distinct)

  FreshIn-snoc :
      (indexed : Dict String ToolCall) (x : ToolCall) (steps : List ToolCall)
      → FreshIn indexed steps
      → mem x.step_id (ids steps) ≡ false
      → FreshIn (indexed ++ (x.step_id, x) ∷ []) steps
  unfolding mem
  FreshIn-snoc indexed x [] old apart = tt
  FreshIn-snoc indexed x (y ∷ steps) old apart = (
    ground (
      arith,
      old.0,
      ap (mem y.step_id) (keys-append indexed ((x.step_id, x) ∷ [])),
      mem-append y.step_id (keys indexed) (x.step_id ∷ []),
      eq_iff x.step_id y.step_id,
      eq_iff y.step_id x.step_id,
    ),
    FreshIn-snoc indexed x steps old.1 (ground arith),
  )

  index_from-Distinct :
      (indexed : Dict String ToolCall) (steps : List ToolCall)
      → FreshIn indexed steps
      → Distinct (ids steps)
      → index_from repr indexed steps ≡ ok (indexed ++ table steps)
  unfolding index_from
  index_from-Distinct indexed [] fresh distinct = cc (append-nil indexed)
  index_from-Distinct indexed (x ∷ steps) fresh distinct =
      rw (fresh.0, put_new x.step_id x indexed fresh.0)
        (index_from-Distinct (indexed ++ (x.step_id, x) ∷ []) steps
            (FreshIn-snoc indexed x steps fresh.1 distinct.0) distinct.1
          ∙ ap ok (append_assoc indexed ((x.step_id, x) ∷ []) (table steps)))

  FreshIn-nil : (steps : List ToolCall) → FreshIn [] steps
  unfolding mem
  FreshIn-nil [] = tt
  FreshIn-nil (x ∷ steps) = (refl, FreshIn-nil steps)

  -- Steps with ids of their own are all indexed.
  pub index_steps-Distinct :
      (steps : List ToolCall) → Distinct (ids steps) → index_steps repr steps ≡ ok (table steps)
  unfolding index_steps
  index_steps-Distinct steps = index_from-Distinct [] steps (FreshIn-nil steps)
