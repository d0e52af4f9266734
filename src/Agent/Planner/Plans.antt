-- ===== src/Agent/Planner/Plans.antt =====
-- What `Planner.plan` gives, whatever the provider answers.
use research_assistant.Base.{
  ◌≤◌, ◌≡◌, refl, subst, String, false, Option, none, some, List, arith, length, All, ◌==◌,
  string_eq,
}
use research_assistant.Base.Text.{strip}
use research_assistant.Core.Errors.{Result, ok, err, Exn}
use research_assistant.Agent.Json.{Fields}
use research_assistant.Agent.Tools.{ToolCall}
use research_assistant.Agent.Plan.{Plan, llm}
use research_assistant.Agent.Planner.{
  Completion, response, failure, Provider, parse_steps, fallback_plan, known_ids,
}
use research_assistant.Agent.Planner.Extract.{raises, IsCandidate, extract_json, extract_json-err}
use research_assistant.Agent.Planner.Service.{
  Codec, Planner, plan_of_text, plan_of_completion, messages, plan,
}
use research_assistant.Agent.Planner.Steps.{IsUsable, raw_steps, parse_steps-IsUsable}

-- A plan is the one step that searches for the query, or it comes from the model's text: then it is short
-- enough, and its steps are usable, with dependencies among the ids that the text has.
pub data Sound (codec : Codec) {W : Type 0} (planner : Planner W) (query role : String)
    : Plan → Type 0 where
  by_fallback : (reason : String) → Sound codec planner query role (fallback_plan query reason)
  by_model :
      (p : Plan) (text : String) (d : Fields)
      → extract_json codec.loads text ≡ ok (some d)
      → p.source ≡ llm
      → length p.steps ≤ planner.max_steps
      → All (IsUsable planner.registry role (known_ids (raw_steps d))) p.steps
      → Sound codec planner query role p

module _ (codec : Codec) {W : Type 0} (planner : Planner W) (query role : String) where
  -- The model's text is given to `json.loads`, in whole or in part, which raises the exception.
  abbrev pub IsUnreadable : (text : String) → Exn → Type 0
  IsUnreadable text e =
      (json : String) × (codec.loads json ≡ raises e) × IsCandidate codec.loads text json

  -- A sound plan, or an exception of `json.loads`.
  abbrev pub IsPlanned : (text : String) → Result Plan → Type 0
  IsPlanned text (ok p) = Sound codec planner query role p
  IsPlanned text (err e) = IsUnreadable text e

  plan_of_text-IsPlanned :
      (text : String) → IsPlanned text (plan_of_text codec planner query role text)
  unfolding plan_of_text
  plan_of_text-IsPlanned text = go (extract_json codec.loads text) refl
    where
      from_steps :
          (d : Fields) (x : Option (List ToolCall))
          → extract_json codec.loads text ≡ ok (some d)
          → parse_steps planner.registry role planner.max_steps d ≡ x
          → IsPlanned text (plan_of_text codec planner query role text)
      from_steps d none e f = rw (e, plan_of_text, f) (by_fallback _)
      from_steps d (some steps) e f =
          let (short, usable) =
            parse_steps-IsUsable planner.registry role planner.max_steps d steps f in
          rw (e, plan_of_text, f) (by_model _ text d e refl short usable)

      go :
          (x : Result (Option Fields))
          → extract_json codec.loads text ≡ x
          → IsPlanned text (plan_of_text codec planner query role text)
      go (err x) e = rw (e, plan_of_text) (extract_json-err codec.loads text x e)
      go (ok none) e = rw (e, plan_of_text) (by_fallback _)
      go (ok (some d)) e =
          from_steps d (parse_steps planner.registry role planner.max_steps d) e refl

  -- `plan` gives a sound plan, or raises what `json.loads` raised for the answer of the provider.
  abbrev pub IsOutcome : Result Plan → Type 0
  IsOutcome (ok p) = Sound codec planner query role p
  IsOutcome (err e) =
      (complete : Provider) × (text : String) × (planner.provider ≡ some complete)
      × (complete (messages codec planner query role) ≡ response text)
      × IsUnreadable text e

  plan_of_completion-IsOutcome :
      (complete : Provider) (c : Completion)
      → planner.provider ≡ some complete
      → complete (messages codec planner query role) ≡ c
      → IsOutcome (plan_of_completion codec planner query role c)
  unfolding plan_of_completion
  plan_of_completion-IsOutcome complete (failure name message) e f = by_fallback _
  plan_of_completion-IsOutcome complete (response text) e f =
      go (plan_of_text codec planner query role text) (plan_of_text-IsPlanned text)
    where
      go : (r : Result Plan) → IsPlanned text r → IsOutcome r
      go (ok p) sound = sound
      go (err x) unreadable = (complete, text, e, f, unreadable)

  pub plan-Sound : (strip query == "") ≡ false → IsOutcome (plan codec planner query role)
  unfolding plan
  plan-Sound h = go planner.provider refl
    where
      go : (x : Option Provider) → planner.provider ≡ x → IsOutcome (plan codec planner query role)
      go none e =
          let reason : String = "No LLM provider is configured for planning" in
          subst IsOutcome {x = ok (fallback_plan query reason)} (ground (arith, h, e))
            (by_fallback reason)
      go (some complete) e =
          let answer = complete (messages codec planner query role) in
          subst IsOutcome {x = plan_of_completion codec planner query role answer}
            (ground (arith, h, e)) (plan_of_completion-IsOutcome complete answer e refl)
