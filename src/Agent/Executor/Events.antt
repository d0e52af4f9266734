-- ===== src/Agent/Executor/Events.antt =====
-- What one step, and a wave of steps, writes to the trace of a run.
use research_assistant.Base.{
  ℕ, zero, suc, ◌≡◌, refl, sym, ap, subst, ◌∙◌, ◌⊎◌, inl, inr, String, ◌||◌, ◌+◌, Option, none,
  some, List, [], ◌∷◌, ◌++◌, append_assoc, append-nil, get, Bool-cases, ◌==◌, string_eq, All,
}
use research_assistant.Agent.Json.{str}
use research_assistant.Agent.Tools.{ToolContext, ToolResult, ToolCall, ToolSpec, visible_to_role}
use research_assistant.Agent.Trace.{Host, Run, Event, log}
use research_assistant.Agent.Executor.{
  attempts, exceeds, invoke, run_step, perform_step, skip_step, finish_step, start_step, log_retry,
  rounds,
}

-- The event has the name, and is about the step.
abbrev pub IsNamed : (name step_id : String) → Event → Type 0
IsNamed name step_id e = (e.event ≡ name) × (get "step_id" e.fields ≡ some (str step_id))

-- The events of one run of a step: that it is skipped, or that it starts, is retried, and finishes.
abbrev pub IsStepLog : String → List Event → Type 0
IsStepLog step_id events =
    ((e : Event) × (events ≡ e ∷ []) × IsNamed "step_skipped" step_id e)
    ⊎ ((first last : Event) × (retries : List Event) × (events ≡ first ∷ retries ++ last ∷ [])
        × IsNamed "step_started" step_id first
        × All (IsNamed "step_retrying" step_id) retries
        × IsNamed "step_finished" step_id last)

-- The events are those of one run of each of the steps, one step behind the other.
abbrev pub IsLog : List String → List Event → Type 0
IsLog [] events = events ≡ []
IsLog (s ∷ step_ids) events =
    (own rest : List Event) × (events ≡ own ++ rest) × IsStepLog s own × IsLog step_ids rest

-- The second trace is the first with the events of those steps behind it.
abbrev pub Logged : List String → List Event → List Event → Type 0
Logged step_ids a b = (more : List Event) × (b ≡ a ++ more) × IsLog step_ids more

IsLog-append :
    (xs ys : List String) (a b : List Event) → IsLog xs a → IsLog ys b → IsLog (xs ++ ys) (a ++ b)
IsLog-append [] ys a b p k = subst (λ l. IsLog ys (l ++ b)) (sym p) k
IsLog-append (x ∷ xs) ys a b (own, rest, e, one, p) k = (
  own,
  rest ++ b,
  ap (λ l. l ++ b) e ∙ append_assoc own rest b,
  one,
  IsLog-append xs ys rest b p k,
)

pub Logged-refl : (a : List Event) → Logged [] a a
Logged-refl a = ([], sym (append-nil a), refl)

pub Logged-trans :
    (xs ys : List String) (a b c : List Event)
    → Logged xs a b
    → Logged ys b c
    → Logged (xs ++ ys) a c
Logged-trans xs ys a b c (x, p, h) (y, q, k) =
    (x ++ y, q ∙ ap (λ l. l ++ y) p ∙ append_assoc a x y, IsLog-append xs ys x y h k)

IsLog-one :
    (step_id : String) (events : List Event)
    → IsStepLog step_id events
    → IsLog (step_id ∷ []) events
IsLog-one step_id events h = (events, [], sym (append-nil events), h, refl)

-- The second trace is the first with retries of the step behind it.
abbrev Retried : String → List Event → List Event → Type 0
Retried step_id a b =
    (more : List Event) × (b ≡ a ++ more) × All (IsNamed "step_retrying" step_id) more

module _ (host : Host) {W : Type 0} where
  attempts-Retried :
      (spec : ToolSpec W) (step : ToolCall) (ctx : ToolContext) (left attempt : ℕ)
      (last : Option ToolResult) (run : Run W)
      → Retried step.step_id run.events (attempts host spec step ctx left attempt last run).1.events
  unfolding attempts log_retry log get
  attempts-Retried spec step ctx zero attempt last run = ([], sym (append-nil run.events), tt)
  attempts-Retried spec step ctx (suc left) attempt last run =
      let result = (invoke host spec step ctx run.world).0 in
      let run' : Run W = record run { world = (invoke host spec step ctx run.world).1 } in
      let retried = log_retry host step attempt result run' in
      let (more, e, all) =
        attempts-Retried spec step ctx left (attempt + 1) (some result) retried in
      elim (Bool-cases (result.status == "ok" || exceeds attempt spec.retries)) [
        | inl stop ↦ rw stop ([], sym (append-nil run.events), tt)
        | inr again ↦
            rw again (_ ∷ more, e ∙ append_assoc run.events (_ ∷ []) more, ((refl, refl), all))
      ]

  start_step-IsNamed :
      (step : ToolCall) (run : Run W)
      → (e : Event) × ((start_step host step run).events ≡ run.events ++ e ∷ [])
        × IsNamed "step_started" step.step_id e
  unfolding start_step log get
  start_step-IsNamed step run = (_, refl, (refl, refl))

  finish_step-IsNamed :
      (step : ToolCall) (out : Option ToolResult × Run W)
      → (e : Event) × ((finish_step host step out).1.events ≡ out.1.events ++ e ∷ [])
        × IsNamed "step_finished" step.step_id e
  unfolding finish_step log get
  finish_step-IsNamed step (last, run) = (_, refl, (refl, refl))

  perform_step-Logged :
      (spec : ToolSpec W) (step : ToolCall) (ctx : ToolContext) (run : Run W)
      → Logged (step.step_id ∷ []) run.events (perform_step host spec step ctx run).1.events
  unfolding perform_step
  perform_step-Logged spec step ctx run =
      let ctx' : ToolContext = record ctx { step_id = step.step_id } in
      let begun = start_step host step run in
      let tried = attempts host spec step ctx' (rounds spec.retries) 1 none begun in
      let (first, starts, first_named) = start_step-IsNamed step run in
      let (retries, e, all) = attempts-Retried spec step ctx' (rounds spec.retries) 1 none begun in
      let (last, ends, last_named) = finish_step-IsNamed step tried in
      (
        first ∷ retries ++ last ∷ [],
        ends
            ∙ ap (λ l. l ++ last ∷ []) (e ∙ ap (λ l. l ++ retries) starts)
            ∙ append_assoc (run.events ++ first ∷ []) retries (last ∷ [])
            ∙ append_assoc run.events (first ∷ []) (retries ++ last ∷ []),
        IsLog-one step.step_id (first ∷ retries ++ last ∷ [])
            (inr (first, last, retries, refl, first_named, all, last_named)),
      )

  skip_step-Logged :
      (step : ToolCall) (run : Run W)
      → Logged (step.step_id ∷ []) run.events (skip_step host step run).1.events
  unfolding skip_step log get
  skip_step-Logged step run = (_, refl, IsLog-one step.step_id _ (inl (_, refl, (refl, refl))))

  -- A step logs one run of itself.
  pub run_step-Logged :
      (found : Option (ToolSpec W)) (step : ToolCall) (ctx : ToolContext) (run : Run W)
      → Logged (step.step_id ∷ []) run.events (run_step host found step ctx run).1.events
  unfolding run_step
  run_step-Logged none step ctx run = skip_step-Logged step run
  run_step-Logged (some spec) step ctx run = elim (Bool-cases (visible_to_role spec ctx.role)) [
    | inl sees ↦ rw sees (perform_step-Logged spec step ctx run)
    | inr not_sees ↦ rw not_sees (skip_step-Logged step run)
  ]
