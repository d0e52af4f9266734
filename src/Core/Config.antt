-- ===== src/Core/Config.antt =====
-- backend/app/core/config.py: the settings with the types and the validators of the class. `lower` is
-- Python's `str.lower`. How the values are read from the environment is the settings library's.
use Prim.Native.Char.{code}
use Prim.Native.String.{◌++◌ as cat}
use research_assistant.Base.{
  ◌≤◌, ◌≡◌, arith, String, Bool, true, false, Option, none, List, [], ◌∷◌, ◌&&◌, not, map, keep_if,
  ltb, eqb, ◌==◌, string_eq, if◌then◌else◌, ℤ, pos,
}
use research_assistant.Base.Text.{strip, len}
use research_assistant.Core.Errors.{Result, ok, err, other}
use research_assistant.Core.Float.{Float}

pub record Settings : Type 0 where
  pub app_name : String
  pub app_env : String
  pub debug : Bool
  pub log_level : String
  pub secret_key : String
  pub api_v1_prefix : String
  pub cors_origins : List String
  pub database_url : Option String
  pub database_echo : Bool
  pub jwt_secret_key : String
  pub jwt_algorithm : String
  pub jwt_access_token_ttl_seconds : ℤ
  pub jwt_refresh_token_ttl_seconds : ℤ
  pub storage_backend : String
  pub storage_local_root : String
  pub s3_endpoint : Option String
  pub s3_region : String
  pub s3_access_key : Option String
  pub s3_secret_key : Option String
  pub s3_bucket : String
  pub s3_force_path_style : Bool
  pub s3_presign_ttl_seconds : ℤ
  pub upload_max_size_bytes : ℤ
  pub active_llm_provider : String
  pub gemini_api_key : Option String
  pub gemini_model : String
  pub rag_splitter : String
  pub rag_chunk_size : ℤ
  pub rag_chunk_overlap : ℤ
  pub embedding_provider : String
  pub embedding_model : String
  pub embedding_dimensions : ℤ
  pub vector_store_backend : String
  pub vector_index_dir : String
  pub rag_top_k : ℤ
  pub rag_dense_oversample : ℤ
  pub rag_dense_weight : Float
  pub rag_lexical_weight : Float
  pub rag_enable_query_rewrite : Bool
  pub rag_query_rewrite_instruction : String
  pub agent_max_steps : ℤ
  pub agent_planner_instruction : String

-- The defaults; the two weights are 0.7 and 0.3.
abbrev pub default_settings : (dense_weight lexical_weight : Float) → Settings
default_settings dense_weight lexical_weight = record {
  app_name = "insight";
  app_env = "development";
  debug = false;
  log_level = "INFO";
  secret_key = "change-me";
  api_v1_prefix = "/api/v1";
  cors_origins = "http://localhost:3000" ∷ [];
  database_url = none;
  database_echo = false;
  jwt_secret_key = "";
  jwt_algorithm = "HS256";
  jwt_access_token_ttl_seconds = pos 900;
  jwt_refresh_token_ttl_seconds = pos 2592000;
  storage_backend = "local";
  storage_local_root = "./storage";
  s3_endpoint = none;
  s3_region = "us-east-1";
  s3_access_key = none;
  s3_secret_key = none;
  s3_bucket = "insight";
  s3_force_path_style = true;
  s3_presign_ttl_seconds = pos 900;
  upload_max_size_bytes = pos 104857600;
  active_llm_provider = "gemini";
  gemini_api_key = none;
  gemini_model = "gemini-2.0-flash";
  rag_splitter = "langchain";
  rag_chunk_size = pos 800;
  rag_chunk_overlap = pos 160;
  embedding_provider = "sentence_transformers";
  embedding_model = "all-MiniLM-L6-v2";
  embedding_dimensions = pos 384;
  vector_store_backend = "faiss";
  vector_index_dir = "./vector_index";
  rag_top_k = pos 8;
  rag_dense_oversample = pos 4;
  rag_dense_weight = dense_weight;
  rag_lexical_weight = lexical_weight;
  rag_enable_query_rewrite = false;
  rag_query_rewrite_instruction =
      "Rephrase the user's question as a focused, self-contained search query for retrieving relevant passages from a research corpus. Output only the rewritten query.";
  agent_max_steps = pos 5;
  agent_planner_instruction = "";
}

-- `value.split(",")`; `cur` is the item so far.
split_commas_from : (cur : String) → String → List String
split_commas_from cur String.[] = cur ∷ []
split_commas_from cur (String.◌∷◌ c s) =
    let next = cur ∷ split_commas_from "" s in
    let longer = split_commas_from (cat cur (String.◌∷◌ c String.[])) s in
    if eqb (code c) 44 then next else longer

-- What the validator of `cors_origins` may get: a text, or a list that is decoded already.
pub data OriginsValue : Type 0 where
  text : String → OriginsValue
  listed : List String → OriginsValue

-- `_split_cors_origins`
unfoldable pub split_cors_origins : OriginsValue → List String
unfolding split_commas_from strip keep_if
split_cors_origins (text value) =
    keep_if (λ origin. not (origin == "")) (map strip (split_commas_from "" value))
split_cors_origins (listed origins) = origins

-- `jwt_secret`
unfoldable pub jwt_secret : Settings → String
jwt_secret settings =
    if settings.jwt_secret_key == "" then settings.secret_key else settings.jwt_secret_key

unfoldable pub is_development : (lower : String → String) → Settings → Bool
is_development lower settings = lower settings.app_env == "development"

-- `_guard_jwt_secret_length`
unfoldable pub guard_jwt_secret_length : (lower : String → String) → Settings → Result Settings
unfolding jwt_secret len
guard_jwt_secret_length lower settings =
    if lower settings.app_env == "production" && ltb (len (jwt_secret settings)) 32
    then err (
        other "ValidationError"
          "JWT signing key must be at least 32 bytes in production; set JWT_SECRET_KEY (or SECRET_KEY) to a strong value")
    else ok settings

-- Settings that pass have a signing key of 32 characters at least in production, and are as they were.
pub guard_jwt_secret_length-ok :
    (lower : String → String) (settings guarded : Settings)
    → guard_jwt_secret_length lower settings ≡ ok guarded
    → (settings ≡ guarded)
      × ((lower settings.app_env == "production") ≡ true → 32 ≤ len (jwt_secret settings))
unfolding guard_jwt_secret_length
guard_jwt_secret_length-ok lower settings guarded done =
    (ground (arith, done), λ production. ground (arith, done, production))
