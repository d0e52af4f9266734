-- ===== src/Api/Signed.antt =====
-- Who the current user of a request is.
use research_assistant.Base.{
  ℕ, ◌≡◌, ◌≤◌, refl, arith, subst, String, true, Option, none, some, List, [], ◌∷◌, ◌==◌, string_eq,
  Bool-cases, inl, inr,
}
use research_assistant.Base.Text.{len}
use research_assistant.Core.Errors.{Result, ok, err, Invalid, bind_ok}
use research_assistant.Auth.{User, Store, get_by_id}
use research_assistant.Auth.Tokens.{Crypto, Settings, Payload, decode_access_token}
use research_assistant.Auth.Service.{authenticate_access_token}
use research_assistant.Api.{
  Credentials, configured, get_auth_service, get_current_user, bounded, validated,
}

-- The user of a request is stored and active, and the request has a bearer token that the authentication
-- service accepts for this user.
pub record IsSignedIn (lower : String → String) (crypto : Crypto) (auth_service : Option Settings)
    (given : Option Credentials) (now : ℕ) (store : Store) (user : User) : Type 0 where
  pub settings : Settings
  pub token : Credentials
  pub with_service : auth_service ≡ some settings
  pub with_token : given ≡ some token
  pub bearer : (lower token.scheme == "bearer") ≡ true
  pub accepted : authenticate_access_token crypto settings now token.credentials store ≡ ok user
  pub active : user.is_active ≡ true

authenticate_access_token-active :
    (crypto : Crypto) (settings : Settings) (now : ℕ) (token : String) (store : Store) (user : User)
    → authenticate_access_token crypto settings now token store ≡ ok user
    → user.is_active ≡ true
unfolding authenticate_access_token
authenticate_access_token-active crypto settings now token store user done =
    decoded (decode_access_token crypto token now settings.jwt_secret settings.jwt_algorithm) refl
  where
    row :
        (payload : Payload) (id : String) (o : Option User)
        → decode_access_token crypto token now settings.jwt_secret settings.jwt_algorithm
          ≡ ok payload
        → crypto.parse_uuid payload.sub ≡ some id
        → get_by_id id store.users ≡ o
        → user.is_active ≡ true
    row payload id none f g h = absurd (ground (arith, f, g, h, done))
    row payload id (some u) f g h = elim (Bool-cases u.is_active) [
      | inl active ↦
          let same : u ≡ user = ground (arith, f, g, h, active, done) in
          subst (λ (v : User). v.is_active ≡ true) same active
      | inr disabled ↦ absurd (ground (arith, f, g, h, disabled, done))
    ]

    named :
        (payload : Payload) (o : Option String)
        → decode_access_token crypto token now settings.jwt_secret settings.jwt_algorithm
          ≡ ok payload
        → crypto.parse_uuid payload.sub ≡ o
        → user.is_active ≡ true
    named payload none f g = absurd (ground (arith, f, g, done))
    named payload (some id) f g = row payload id (get_by_id id store.users) f g refl

    decoded :
        (r : Result Payload)
        → decode_access_token crypto token now settings.jwt_secret settings.jwt_algorithm ≡ r
        → user.is_active ≡ true
    decoded (err e) f = absurd (ground (arith, f, done))
    decoded (ok payload) f = named payload (crypto.parse_uuid payload.sub) f refl

pub configured-ok {ℓ} :
    {A : Type ℓ} (detail : String) (service : Option A) (a : A)
    → configured detail service ≡ ok a
    → service ≡ some a
unfolding configured
configured-ok detail none a done = absurd (ground (arith, done))
configured-ok detail (some service) a done = ground (arith, done)

pub validated-ok {ℓ} :
    {A : Type ℓ} (errors : List Invalid) (body a : A)
    → validated errors body ≡ ok a
    → (errors ≡ []) × (body ≡ a)
unfolding validated
validated-ok [] body a done = (refl, ground (arith, done))
validated-ok (e ∷ errors) body a done = absurd (ground (arith, done))

pub bounded-nil :
    (loc : String) (least most : ℕ) (text : String)
    → bounded loc least most text ≡ []
    → (least ≤ len text) × (len text ≤ most)
unfolding bounded
bounded-nil loc least most text none_wrong =
    (ground (arith, none_wrong), ground (arith, none_wrong))

pub get_current_user-IsSignedIn :
    (lower : String → String) (crypto : Crypto) (auth_service : Option Settings)
    → (given : Option Credentials) (now : ℕ) (store : Store) (user : User)
    → get_current_user lower crypto auth_service given now store ≡ ok user
    → IsSignedIn lower crypto auth_service given now store user
unfolding get_current_user get_auth_service
get_current_user-IsSignedIn lower crypto auth_service none now store user done =
    absurd (ground (arith, done))
get_current_user-IsSignedIn lower crypto auth_service (some token) now store user done =
    elim (Bool-cases (lower token.scheme == "bearer")) [
      | inr other_scheme ↦ absurd (ground (arith, other_scheme, done))
      | inl bearer ↦
          let (settings, service, accepted) =
            bind_ok (get_auth_service lower crypto auth_service)
              (λ s. authenticate_access_token crypto s now token.credentials store) user
              (ground (arith, bearer, done)) in
          record {
            settings = settings;
            token = token;
            with_service =
                configured-ok
                  "Authentication is not configured; set DATABASE_URL to enable the auth module"
                  auth_service settings service;
            with_token = refl;
            bearer = bearer;
            accepted = accepted;
            active =
                authenticate_access_token-active crypto settings now token.credentials store user
                  accepted;
          }
    ]
