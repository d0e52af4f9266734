-- ===== src/Auth/Tokens.antt =====
-- backend/app/modules/auth/tokens.py and security.py. The hashes and the signatures are made by
-- libraries: `Crypto` lists what the code calls of them.
use research_assistant.Base.{
  ℕ, ◌+◌, ◌*◌, String, Bool, false, Option, none, some, List, [], ◌∷◌, ◌==◌, string_eq,
  if◌then◌else◌,
}
use research_assistant.Core.Errors.{Result, ok, err, raise_insight, unauthorized}
use research_assistant.Auth.{User}

-- The payload that `create_access_token` signs. Times are microseconds.
pub record Claims : Type 0 where
  pub sub : String
  pub token_type : String
  pub iat : ℕ
  pub exp : ℕ
  pub jti : String

-- What the code reads of a decoded payload: `str` of its "sub", and its "type" if it has one.
pub record Payload : Type 0 where
  pub sub : String
  pub token_type : Option String

-- The libraries. `jwt_decode` has the time of the call as its last argument, and none for an
-- `InvalidTokenError`; `argon_verify` has none for one of its exceptions; `parse_uuid` has none for
-- a ValueError.
pub record Crypto : Type 0 where
  pub argon_hash : (salt password : String) → String
  pub argon_verify : (password_hash password : String) → Option Bool
  pub sha256 : String → String
  pub jwt_encode : Claims → (secret algorithm : String) → String
  pub jwt_decode : (token secret : String) → (algorithms : List String) → ℕ → Option Payload
  pub parse_uuid : String → Option String

-- The settings that the service reads.
pub record Settings : Type 0 where
  pub jwt_secret : String
  pub jwt_algorithm : String
  pub jwt_access_token_ttl_seconds : ℕ
  pub jwt_refresh_token_ttl_seconds : ℕ

abbrev pub access_token_type : String
access_token_type = "access"

-- `timedelta(seconds=...)`
abbrev pub microseconds : ℕ → ℕ
microseconds seconds = seconds * 1000000

module _ (crypto : Crypto) where
  unfoldable pub create_access_token :
      User → (now : ℕ) (jti : String) → (secret algorithm : String) → ℕ → String
  create_access_token user now jti secret algorithm ttl_seconds =
      crypto.jwt_encode
        (record {
          sub = user.user_id;
          token_type = access_token_type;
          iat = now;
          exp = now + microseconds ttl_seconds;
          jti = jti;
        })
        secret algorithm

  unfoldable pub decode_access_token :
      (token : String) (now : ℕ) → (secret algorithm : String) → Result Payload
  unfolding raise_insight
  decode_access_token token now secret algorithm =
      elim (crypto.jwt_decode token secret (algorithm ∷ []) now) [
        | none ↦ err (raise_insight unauthorized "Invalid or expired access token")
        | some payload ↦ elim payload.token_type [
          | none ↦ err (raise_insight unauthorized "Invalid or expired access token")
          | some name ↦
              if name == access_token_type
              then ok payload
              else err (raise_insight unauthorized "Invalid or expired access token")
        ]
      ]

  abbrev pub hash_refresh_token : String → String
  hash_refresh_token token = crypto.sha256 token

  abbrev pub hash_password : (salt password : String) → String
  hash_password salt password = crypto.argon_hash salt password

  abbrev pub verify_password : (password password_hash : String) → Bool
  verify_password password password_hash = elim (crypto.argon_verify password_hash password) [
    | none ↦ false
    | some answer ↦ answer
  ]
