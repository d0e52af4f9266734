-- ===== src/Core/Errors.antt =====
-- backend/app/core/exceptions.py: the exception classes with their class attributes, and the
-- handlers that turn an exception into a problem+json answer. `Result` is what a function that may
-- raise gives back.
use research_assistant.Base.{
  ◌≡◌, refl, arith, ℕ, String, List, [], ◌∷◌, Dict, put, ◌==◌, string_eq, if◌then◌else◌,
}

-- The subclasses of `InsightError`, and the class itself.
pub data ErrorClass : Type 0 where
  insight configuration unauthorized forbidden not_found : ErrorClass
  conflict invalid_file_type file_too_large : ErrorClass

unfoldable pub status_code : ErrorClass → ℕ
status_code unauthorized = 401
status_code forbidden = 403
status_code not_found = 404
status_code conflict = 409
status_code invalid_file_type = 422
status_code file_too_large = 413
status_code _ = 500

unfoldable pub code : ErrorClass → String
code insight = "insight_error"
code configuration = "configuration_error"
code unauthorized = "unauthorized"
code forbidden = "forbidden"
code not_found = "not_found"
code conflict = "conflict"
code invalid_file_type = "invalid_file_type"
code file_too_large = "file_too_large"

unfoldable pub title : ErrorClass → String
title insight = "Internal error"
title configuration = "Server configuration error"
title unauthorized = "Authentication required"
title forbidden = "Permission denied"
title not_found = "Resource not found"
title conflict = "Resource conflict"
title invalid_file_type = "Unsupported file type"
title file_too_large = "File too large"

-- One entry of `RequestValidationError.errors()`: the location joined by dots, without `body`.
pub record Invalid : Type 0 where
  pub loc : String
  pub type_name : String
  pub msg : String

-- What a request may raise. `other` is any exception that has no handler of its own.
pub data Exn : Type 0 where
  insight_error : ErrorClass → String → Exn
  http_exception : ℕ → String → Exn
  validation_error : List Invalid → Exn
  other : (type_name message : String) → Exn

-- `detail or self.title`
unfoldable pub raise_insight : ErrorClass → String → Exn
unfolding title
raise_insight c detail = insight_error c (if detail == "" then title c else detail)

pub data Result {ℓ} (A : Type ℓ) : Type ℓ where
  ok : A → Result A
  err : Exn → Result A

infixl 5 ◌>>=◌ ◌>>◌
abbrev pub ◌>>=◌ {ℓ κ} : {A : Type ℓ} {B : Type κ} → Result A → (A → Result B) → Result B
ok a >>= f = f a
err e >>= f = err e

abbrev pub ◌>>◌ {ℓ κ} : {A : Type ℓ} {B : Type κ} → Result A → Result B → Result B
m >> k = m >>= λ _. k

-- A chain that succeeds has succeeded at each link.
pub bind_ok {ℓ κ} :
    {A : Type ℓ} {B : Type κ} (m : Result A) (f : A → Result B) (b : B)
    → (m >>= f) ≡ ok b
    → (a : A) × (m ≡ ok a) × (f a ≡ ok b)
bind_ok (ok a) f b h = (a, refl, h)
bind_ok (err e) f b h = absurd (ground (arith, h))

-- The body of a problem+json answer. `type` is always "about:blank".
pub record Problem : Type 0 where
  pub status : ℕ
  pub heading : String
  pub detail : String
  pub code_name : String
  pub trace_id : String
  pub errors : Dict String (String × String)

-- The body of the loop of `_flatten_validation_errors`.
flatten_from : Dict String (String × String) → List Invalid → Dict String (String × String)
flatten_from errors [] = errors
flatten_from errors (item ∷ rest) =
    flatten_from (put (if item.loc == "" then "_" else item.loc) (item.type_name, item.msg) errors)
      rest

unfoldable pub flatten_validation_errors : List Invalid → Dict String (String × String)
unfolding flatten_from
flatten_validation_errors items = flatten_from [] items

-- The four handlers, chosen by the class of the exception.
unfoldable pub respond : String → Exn → Problem
unfolding status_code code title flatten_validation_errors
respond trace_id (insight_error c detail) = record {
  status = status_code c;
  heading = title c;
  detail = detail;
  code_name = code c;
  trace_id = trace_id;
  errors = [];
}
respond trace_id (http_exception status detail) = record {
  status = status;
  heading = "HTTP error";
  detail = detail;
  code_name = "http_error";
  trace_id = trace_id;
  errors = [];
}
respond trace_id (validation_error items) = record {
  status = 422;
  heading = "Validation error";
  detail = "Request validation failed";
  code_name = "validation_error";
  trace_id = trace_id;
  errors = flatten_validation_errors items;
}
respond trace_id (other type_name message) = record {
  status = 500;
  heading = "Internal server error";
  detail = "An unexpected error occurred";
  code_name = "internal_error";
  trace_id = trace_id;
  errors = [];
}
