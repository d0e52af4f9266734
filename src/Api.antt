-- ===== src/Api.antt =====
-- The HTTP endpoints: the routers, their schemas and dependencies under backend/app/modules. A request's
-- body has been decoded; the framework resolves the dependencies before it raises for an invalid body.
-- The texts of its messages are the validation library's, and abbreviated here.
pub mod Signed
pub mod Agents
pub mod Runs
pub mod Bodies
pub mod Library
pub mod Passages
pub mod Accounts
use research_assistant.Base.{
  ℕ, String, Bool, true, false, Option, none, some, List, [], ◌∷◌, ◌||◌, not, ltb, ◌==◌, string_eq,
  if◌then◌else◌,
}
use research_assistant.Base.Text.{len}
use research_assistant.Core.Errors.{
  Result, ok, err, Exn, Invalid, validation_error, raise_insight, configuration, unauthorized,
  ◌>>=◌,
}
use research_assistant.Auth.{User, Store}
use research_assistant.Auth.Tokens.{Crypto, Settings}
use research_assistant.Auth.Service.{authenticate_access_token}

-- `HTTPAuthorizationCredentials`: the header `Authorization`, if it has a scheme and a token.
pub record Credentials : Type 0 where
  pub scheme : String
  pub credentials : String

-- A service of the container, or the error that it is not configured.
unfoldable pub configured {ℓ} : {A : Type ℓ} → (detail : String) → Option A → Result A
unfolding raise_insight
configured detail none = err (raise_insight configuration detail)
configured detail (some service) = ok service

module _ (lower : String → String) (crypto : Crypto) where
  -- `get_auth_service`
  unfoldable pub get_auth_service : (auth_service : Option Settings) → Result Settings
  unfolding configured
  get_auth_service auth_service =
      configured "Authentication is not configured; set DATABASE_URL to enable the auth module"
        auth_service

  -- `get_current_user`
  unfoldable pub get_current_user :
      (auth_service : Option Settings) → Option Credentials → (now : ℕ) → Store → Result User
  unfolding get_auth_service authenticate_access_token raise_insight
  get_current_user auth_service none now store =
      err (raise_insight unauthorized "Authentication required")
  get_current_user auth_service (some given) now store =
      if not (lower given.scheme == "bearer")
      then err (raise_insight unauthorized "Authentication required")
      else (get_auth_service auth_service >>= λ settings.
          authenticate_access_token crypto settings now given.credentials store)

-- A handler behind its dependencies: a state is changed only if they are resolved.
abbrev pub behind {ℓ} :
    {A B : Type ℓ} {S : Type 0} → Result A → S → (A → Result B × S) → Result B × S
behind (err e) state handler = (err e, state)
behind (ok a) state handler = handler a

-- One entry of the errors of a field.
abbrev pub invalid : (loc type_name msg : String) → Invalid
invalid loc type_name msg = record { loc = loc; type_name = type_name; msg = msg }

-- `Field(min_length=…, max_length=…)`: the text, or the errors.
unfoldable pub bounded : (loc : String) (least most : ℕ) → String → List Invalid
unfolding len
bounded loc least most text =
    if ltb (len text) least
    then invalid loc "string_too_short" "String is too short" ∷ []
    else if ltb most (len text)
    then invalid loc "string_too_long" "String is too long" ∷ []
    else []

-- A body without errors.
unfoldable pub validated {ℓ} : {A : Type ℓ} → List Invalid → A → Result A
validated [] body = ok body
validated (e ∷ errors) body = err (validation_error (e ∷ errors))
