-- ===== src/Api/Runs.antt =====
-- Whom the agent works for, and what its answer shows.
use research_assistant.Base.{
  ℕ, ◌≡◌, ◌≤◌, refl, ap, arith, subst, String, true, Option, none, some, List, [], ◌∷◌, ◌||◌, Dict,
  get, All, ◌⊎◌, inl, inr, ◌==◌, string_eq, Bool-cases,
}
use research_assistant.Base.Text.{len}
use research_assistant.Core.Errors.{Result, ok, err, Exn, bind_ok, ◌>>=◌}
use research_assistant.Auth.{User, Store}
use research_assistant.Auth.Tokens.{Crypto, Settings}
use research_assistant.Agent.Tools.{ToolCall, ToolResult}
use research_assistant.Agent.Trace.{Host}
use research_assistant.Agent.Planner.Service.{Codec, Planner}
use research_assistant.Agent.Service.{RunResult, run_agent}
use research_assistant.Api.{Credentials, get_current_user, bounded, validated}
use research_assistant.Api.Signed.{
  IsSignedIn, get_current_user-IsSignedIn, configured-ok, validated-ok, bounded-nil,
}
use research_assistant.Api.Agents.{
  AgentStepOut, AgentRunResponse, step_out, step_outs, response_of, get_agent_service, run_for,
  post_run,
}

-- A step of the answer shows the result that the run has for it, and its status is one of two.
pub record IsStepOf (results : Dict String ToolResult) (out : AgentStepOut) : Type 0 where
  pub result : ToolResult
  pub found : get out.step_id results ≡ some result
  pub same_status : out.status ≡ result.status
  pub same_output : out.output ≡ result.output
  pub known_status : (out.status == "ok" || out.status == "error") ≡ true

step_out-IsStepOf :
    (results : Dict String ToolResult) (step : ToolCall) (result : ToolResult) (out : AgentStepOut)
    → get step.step_id results ≡ some result
    → step_out step result ≡ ok out
    → IsStepOf results out
unfolding step_out
step_out-IsStepOf results step result out found done =
    elim (Bool-cases (result.status == "ok" || result.status == "error")) [
      | inr unknown ↦ absurd (ground (arith, unknown, done))
      | inl known ↦
          let shown : AgentStepOut = record {
            step_id = step.step_id;
            tool = step.tool;
            status = result.status;
            args = step.args;
            output = result.output;
            error = result.error;
          } in
          let same : shown ≡ out = ground (arith, known, done) in
          subst (IsStepOf results) same (record {
            result = result;
            found = found;
            same_status = refl;
            same_output = refl;
            known_status = known;
          })
    ]

step_outs-AreSteps :
    (results : Dict String ToolResult) (steps : List ToolCall) (outs : List AgentStepOut)
    → step_outs steps results ≡ ok outs
    → All (IsStepOf results) outs
unfolding step_outs
step_outs-AreSteps results [] outs done =
    let same : [] ≡ outs = ground (arith, done) in subst (All (IsStepOf results)) same tt
step_outs-AreSteps results (step ∷ steps) outs done =
    go (get step.step_id results) refl (step_outs-AreSteps results steps)
  where
    Rest : Type 0
    Rest =
        (later : List AgentStepOut)
        → step_outs steps results ≡ ok later
        → All (IsStepOf results) later

    go : (o : Option ToolResult) → get step.step_id results ≡ o → Rest → All (IsStepOf results) outs
    go none e rest = rest outs (ground (arith, e, done))
    go (some result) e rest =
        let (out, shown, more) =
          bind_ok (step_out step result) (λ x. step_outs steps results >>= λ xs. ok (x ∷ xs)) outs
            (ground (arith, e, done)) in
        let (later, given, last) =
          bind_ok (step_outs steps results) (λ xs. ok (out ∷ xs)) outs more in
        let same : out ∷ later ≡ outs = ground (arith, last) in
        subst (All (IsStepOf results)) same
          (step_out-IsStepOf results step result out e shown, rest later given)

response_of-steps :
    (result : RunResult) (response : AgentRunResponse)
    → response_of result ≡ ok response
    → (response.final_answer ≡ result.final_answer) × All (IsStepOf result.results) response.steps
unfolding response_of
response_of-steps result response done =
    let (outs, given, last) =
      bind_ok (step_outs result.plan_used.steps result.results) _ response done in
    (
      ground (arith, last),
      subst (All (IsStepOf result.results)) (ground (arith, last))
          (step_outs-AreSteps result.results result.plan_used.steps outs given),
    )

module _ (lower : String → String) (crypto : Crypto) (host : Host) (codec : Codec)
    {W : Type 0} where
  -- The request was served by a run of the agent for the user of its token.
  pub record IsRunFor (auth_service : Option Settings) (agent_service : Option (Planner W))
      (given : Option Credentials) (now : ℕ) (store : Store) (query : String) (world : W)
      (served : Result AgentRunResponse × W) : Type 0 where
    pub user : User
    pub planner : Planner W
    pub signed_in : IsSignedIn lower crypto auth_service given now store user
    pub with_planner : agent_service ≡ some planner
    pub in_bounds : (1 ≤ len query) × (len query ≤ 2000)
    pub same_world :
        served.1 ≡ (run_agent host codec planner user.user_id user.role query world).1.world
    pub shown :
        (response : AgentRunResponse)
        → served.0 ≡ ok response
        → (result : RunResult) × ((run_agent host codec planner user.user_id user.role query
              world).0
            ≡ ok result)
          × (response.final_answer ≡ result.final_answer)
          × All (IsStepOf result.results) response.steps

  run_for-shown :
      (user : User) (planner : Planner W) (query : String) (world : W) (response : AgentRunResponse)
      → (run_for lower crypto host codec user planner query world).0 ≡ ok response
      → (result : RunResult) × ((run_agent host codec planner user.user_id user.role query world).0
          ≡ ok result)
        × (response.final_answer ≡ result.final_answer)
        × All (IsStepOf result.results) response.steps
  unfolding run_for
  run_for-shown user planner query world response done =
      let (result, ran, shown) =
        bind_ok (run_agent host codec planner user.user_id user.role query world).0 response_of
          response done in
      let (answer, steps) = response_of-steps result response shown in (result, ran, answer, steps)

  -- A request to run the agent either ends with an exception and no tool has been called, or it is a run
  -- for the user of its token, who is active, with that user's id and role and a query of 1 to 2000
  -- characters; an answer is then the run's, and each step of it shows the run's result for it.
  pub post_run-IsRunFor :
      (auth_service : Option Settings) (agent_service : Option (Planner W))
      (given : Option Credentials)
      → (now : ℕ) (store : Store) (query : String) (world : W)
      → ((e : Exn) × (post_run lower crypto host codec auth_service agent_service given now store
              query world
            ≡ (err e, world)))
        ⊎ IsRunFor auth_service agent_service given now store query world (
            post_run lower crypto host codec auth_service agent_service given now store query world)
  unfolding post_run get_agent_service run_for
  post_run-IsRunFor auth_service agent_service given now store query world =
      signed (get_current_user lower crypto auth_service given now store) refl
    where
      Goal : Type 0
      Goal =
          ((e : Exn) × (post_run lower crypto host codec auth_service agent_service given now store
                query world
              ≡ (err e, world)))
          ⊎ IsRunFor auth_service agent_service given now store query world (
              post_run lower crypto host codec auth_service agent_service given now store query
                world)

      valid :
          (user : User) (planner : Planner W) (v : Result String)
          → get_current_user lower crypto auth_service given now store ≡ ok user
          → get_agent_service lower crypto host codec agent_service ≡ ok planner
          → validated (bounded "query" 1 2000 query) query ≡ v
          → Goal
      valid user planner (err e) f g h = inl (e, rw (f, g, h) refl)
      valid user planner (ok body) f g h =
          let (no_error, same) = validated-ok (bounded "query" 1 2000 query) query body h in
          let same_run : run_for lower crypto host codec user planner query world
              ≡ post_run lower crypto host codec auth_service agent_service given now store query
                  world =
            rw (f, g, h) (ap (λ q. run_for lower crypto host codec user planner q world) same) in
          inr (
            subst (IsRunFor auth_service agent_service given now store query world) same_run
              (record {
                user = user;
                planner = planner;
                signed_in =
                    get_current_user-IsSignedIn lower crypto auth_service given now store user f;
                with_planner =
                    configured-ok
                      "The agent module is not configured; set DATABASE_URL to enable it"
                      agent_service planner g;
                in_bounds = bounded-nil "query" 1 2000 query no_error;
                same_world = refl;
                shown = run_for-shown user planner query world;
              }))

      served :
          (user : User) (p : Result (Planner W))
          → get_current_user lower crypto auth_service given now store ≡ ok user
          → get_agent_service lower crypto host codec agent_service ≡ p
          → Goal
      served user (err e) f g = inl (e, rw (f, g) refl)
      served user (ok planner) f g =
          valid user planner (validated (bounded "query" 1 2000 query) query) f g refl

      signed :
          (u : Result User) → get_current_user lower crypto auth_service given now store ≡ u → Goal
      signed (err e) f = inl (e, rw f refl)
      signed (ok user) f =
          served user (get_agent_service lower crypto host codec agent_service) f refl
