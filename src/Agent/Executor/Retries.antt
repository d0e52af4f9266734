-- ===== src/Agent/Executor/Retries.antt =====
-- The retries of a step: how often its tool is called, and which call's result counts.
use research_assistant.Base.{
  ℕ, zero, suc, ◌+◌, ◌≤◌, ◌<◌, ◌≡◌, refl, sym, ap, ◌∙◌, subst, ◌⊎◌, inl, inr, Bool, true, false,
  ◌||◌, Option, none, some, arith, length, length-append, pos, Bool-cases, ◌==◌, string_eq,
}
use research_assistant.Agent.Tools.{ToolContext, ToolResult, ToolCall, ToolSpec}
use research_assistant.Agent.Trace.{Host, Run, log}
use research_assistant.Agent.Executor.{attempts, log_retry, exceeds, invoke, rounds}

or_true : (a b : Bool) → b ≡ true → (a || b) ≡ true
or_true a b h = ground arith

module _ (host : Host) {W : Type 0} (spec : ToolSpec W) (step : ToolCall) (ctx : ToolContext) where
  -- The world after so many calls of the tool.
  abbrev pub world_after : ℕ → W → W
  world_after zero w = w
  world_after (suc k) w = world_after k (invoke host spec step ctx w).1

  -- The result of the call that follows those.
  abbrev pub result_after : ℕ → W → ToolResult
  result_after k w = (invoke host spec step ctx (world_after k w)).0

  abbrev succeeds : ℕ → W → Bool
  succeeds k w = (result_after k w).status == "ok"

  -- From the world `w` with `e` events logged, `out` is what the tool gives after some failed
  -- calls, at most `limit`: all calls before failed, only the limit ends the retries while they
  -- fail, and each retry is one event.
  pub record Tried (limit : ℕ) (w : W) (e : ℕ) (out : Option ToolResult × Run W) : Type 0 where
    pub failures : ℕ
    pub within : failures ≤ limit
    pub result : out.0 ≡ some (result_after failures w)
    pub world : out.1.world ≡ world_after (suc failures) w
    pub failed : (j : ℕ) → j < failures → succeeds j w ≡ false
    pub stopped : (succeeds failures w ≡ true) ⊎ (failures ≡ limit)
    pub retry_events : length out.1.events ≡ e + failures

  failed-suc :
      (k : ℕ) (w : W)
      → succeeds 0 w ≡ false
      → ((j : ℕ) → j < k → succeeds j (world_after 1 w) ≡ false)
      → (j : ℕ) → j < suc k
      → succeeds j w ≡ false
  failed-suc k w first rest zero h = first
  failed-suc k w first rest (suc j) h = rest j (omega arith)

  stopped-suc :
      (k limit : ℕ) (w : W)
      → (succeeds k (world_after 1 w) ≡ true) ⊎ (k ≡ limit)
      → (succeeds (suc k) w ≡ true) ⊎ (suc k ≡ suc limit)
  stopped-suc k limit w (inl done) = inl done
  stopped-suc k limit w (inr last) = inr (ap suc last)

  Tried-suc :
      (limit : ℕ) (w : W) (e e' : ℕ) (out : Option ToolResult × Run W)
      → succeeds 0 w ≡ false
      → e' ≡ e + 1
      → Tried limit (world_after 1 w) e' out
      → Tried (suc limit) w e out
  Tried-suc limit w e e' out not_ok later t = record {
    failures = suc t.failures;
    within = omega (arith, t.within);
    result = t.result;
    world = t.world;
    failed = failed-suc t.failures w not_ok t.failed;
    stopped = stopped-suc t.failures limit w t.stopped;
    retry_events = omega (arith, t.retry_events);
  }

  Tried-zero :
      (limit : ℕ) (run : Run W)
      → (succeeds 0 run.world ≡ true) ⊎ (0 ≡ limit)
      → Tried limit run.world
          (length run.events)
          (some (result_after 0 run.world), record run { world = world_after 1 run.world })
  Tried-zero limit run stop = record {
    failures = 0;
    within = omega arith;
    result = refl;
    world = refl;
    failed = λ j h. absurd (omega arith);
    stopped = stop;
    retry_events = omega arith;
  }

  events-log_retry :
      (attempt : ℕ) (run : Run W)
      → length
          (log_retry host step attempt
            (result_after 0 run.world)
            (record run { world = world_after 1 run.world })).events
        ≡ length run.events + 1
  unfolding log_retry log
  events-log_retry attempt run = length-append run.events _

  Tried-attempts :
      (n left attempt : ℕ) (last : Option ToolResult) (run : Run W)
      → spec.retries ≡ pos n
      → left + attempt ≡ n + 1
      → Tried left run.world
          (length run.events)
          (attempts host spec step ctx (suc left) attempt last run)
  unfolding attempts log_retry log
  Tried-attempts n zero attempt last run retries total =
      let over : exceeds attempt spec.retries ≡ true =
        ap (exceeds attempt) retries ∙ ground arith in
      rw (or_true (succeeds 0 run.world) _ over) (Tried-zero 0 run (inr refl))
  Tried-attempts n (suc l) attempt last run retries total =
      let under : exceeds attempt spec.retries ≡ false =
        ap (exceeds attempt) retries ∙ ground arith in
      elim (Bool-cases (succeeds 0 run.world)) [
        | inl done ↦ rw done (Tried-zero (suc l) run (inl done))
        | inr failing ↦
            rw (failing, under)
              (Tried-suc l run.world (length run.events) _ _ failing (events-log_retry attempt run)
                (Tried-attempts n l (attempt + 1) (some (result_after 0 run.world))
                  (log_retry host step attempt (result_after 0 run.world)
                    (record run { world = world_after 1 run.world }))
                  retries (omega arith)))
      ]

  -- A step of a visible tool with `n` retries: the tool is called again after a failed call until
  -- one succeeds or `n + 1` were made; the last call's result counts, and nothing else is called.
  pub attempts-Tried :
      (n : ℕ) (run : Run W)
      → spec.retries ≡ pos n
      → Tried n run.world
          (length run.events)
          (attempts host spec step ctx (rounds spec.retries) 1 none run)
  attempts-Tried n run retries =
      let all_rounds : suc n ≡ rounds spec.retries = omega arith ∙ sym (ap rounds retries) in
      subst (λ k. Tried n run.world (length run.events) (attempts host spec step ctx k 1 none run))
        all_rounds (Tried-attempts n n 1 none run retries (omega arith))
