-- ===== src/Core/Health.antt =====
-- backend/app/core/health.py, and the probes of backend/app/api/routers/health.py. A check is a function
-- of the world, such as whether the database answers.
use research_assistant.Base.{
  ℕ, String, Bool, true, [], ◌∷◌, ◌&&◌, Dict, put, string_eq, if◌then◌else◌,
}

pub record HealthStatus : Type 0 where
  pub ok_now : Bool
  pub detail : String

abbrev pub HealthRegistry : Type 0 → Type 0
HealthRegistry W = Dict String (W → HealthStatus)

-- `register`
unfoldable pub register_check :
    {W : Type 0} → String → (W → HealthStatus) → HealthRegistry W → HealthRegistry W
unfolding put
register_check name check checks = put name check checks

unfoldable pub check_all : {W : Type 0} → HealthRegistry W → W → Dict String HealthStatus
check_all [] world = []
check_all ((name, check) ∷ checks) world = (name, check world) ∷ check_all checks world

-- `all(status.ok for status in results.values())`
unfoldable pub all_ok : Dict String HealthStatus → Bool
all_ok [] = true
all_ok ((name, status) ∷ results) = status.ok_now && all_ok results

-- The answer of a probe: the status code, the word, and the checks.
pub record ProbeAnswer : Type 0 where
  pub http_status : ℕ
  pub word : String
  pub checks : Dict String HealthStatus

-- `healthz`
abbrev pub healthz : ProbeAnswer
healthz = record { http_status = 200; word = "ok"; checks = [] }

-- `readyz`
unfoldable pub readyz : {W : Type 0} → HealthRegistry W → W → ProbeAnswer
unfolding check_all all_ok
readyz registry world =
    let results = check_all registry world in
    let healthy = all_ok results in
    record {
      http_status = if healthy then 200 else 503;
      word = if healthy then "ok" else "unavailable";
      checks = results;
    }
