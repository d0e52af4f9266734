-- ===== src/Core/Container.antt =====
-- The composition root: backend/app/core/container.py with `create_app` of backend/app/main.py, as the
-- choices that they make from the settings. Each service stands for what it was built with. The
-- constructors of libraries, and the upload service, whose module is not in the repository, are the
-- record `Constructors`.
pub mod Wired
use research_assistant.Base.{
  ℕ, ◌≡◌, String, Bool, true, false, Option, none, some, List, [], ◌∷◌, map, ◌==◌, string_eq,
  if◌then◌else◌, ℤ,
}
use research_assistant.Base.Text.{◌<>◌}
use research_assistant.Core.Errors.{Result, ok, err, Exn, insight_error, configuration, ◌>>=◌, ◌>>◌}
use research_assistant.Core.Config.{Settings, guard_jwt_secret_length}
use research_assistant.Core.Float.{Float}
use research_assistant.Core.Health.{HealthStatus, HealthRegistry, register_check}
use research_assistant.Llm.{GeminiProvider, build_llm_provider}
use research_assistant.Rag.Embeddings.{Embedder, build_embedder}
use research_assistant.Rag.Stores.Search.{
  StoreKind, build_vector_store, SplitterKind, build_splitter,
}

pub data StorageKind : Type 0 where
  s3_storage :
      (bucket : String) (endpoint : Option String) (region : String)
      (access_key secret_key : Option String)
      → (path_style : Bool) → StorageKind
  local_storage : (root : String) → StorageKind

pub data RewriterKind : Type 0 where
  passthrough : RewriterKind
  llm_rewriter : GeminiProvider → (instruction : String) → RewriterKind

pub record IngestionWiring : Type 0 where
  pub storage : StorageKind
  pub splitter : SplitterKind
  pub chunk_size : ℤ
  pub chunk_overlap : ℤ
  pub embedder : Embedder
  pub vector_store : StoreKind
  pub model_name : String
  pub dimensions : ℤ

pub record RetrievalWiring : Type 0 where
  pub embedder : Embedder
  pub vector_store : StoreKind
  pub top_k : ℤ
  pub dense_oversample : ℤ
  pub dense_weight : Float
  pub lexical_weight : Float
  pub query_rewriter : RewriterKind

pub record AgentWiring : Type 0 where
  pub retrieval : RetrievalWiring
  pub provider : Option GeminiProvider
  pub max_steps : ℤ
  pub instruction : String

-- What is wired once there is a session factory; the authentication service has the settings.
pub record Services : Type 0 where
  pub storage : StorageKind
  pub auth_service : Settings
  pub upload_service : StorageKind
  pub embedder : Embedder
  pub vector_store : StoreKind
  pub ingestion_service : IngestionWiring
  pub retrieval_service : RetrievalWiring
  pub agent_service : AgentWiring

-- `W` is the world of the health checks. All of the services are there, or none of them.
pub record Container (W : Type 0) : Type 0 where
  pub settings : Settings
  pub health : HealthRegistry W
  pub engine : Option String
  pub services : Option Services

-- The library's constructors, which may raise, and the query of the health check with the text
-- of an exception.
pub record Constructors (W : Type 0) : Type 0 where
  pub build_engine : (database_url : String) (echo : Bool) → Result (Unit {0})
  pub build_client : StorageKind → Result (Unit {0})
  pub upload_service : StorageKind → Settings → Result (Unit {0})
  pub load_index : StoreKind → (index_dir : String) → (dims : ℤ) → Result (Unit {0})
  pub load_splitter : SplitterKind → Result (Unit {0})
  pub select_one : (database_url : String) → W → Result (Unit {0})
  pub named : Exn → String

-- `_build_storage`
abbrev pub storage_of : Settings → StorageKind
storage_of settings =
    if settings.storage_backend == "s3"
    then s3_storage settings.s3_bucket settings.s3_endpoint settings.s3_region
        settings.s3_access_key settings.s3_secret_key settings.s3_force_path_style
    else local_storage settings.storage_local_root

-- `_build_llm_provider`: without a provider if the settings do not give one.
unfoldable pub provider_or_none : Result GeminiProvider → Result (Option GeminiProvider)
provider_or_none (ok provider) = ok (some provider)
provider_or_none (err (insight_error configuration detail)) = ok none
provider_or_none (err e) = err e

abbrev pub ingestion_of : Settings → SplitterKind → Embedder → StoreKind → IngestionWiring
ingestion_of settings splitter embedder store = record {
  storage = storage_of settings;
  splitter = splitter;
  chunk_size = settings.rag_chunk_size;
  chunk_overlap = settings.rag_chunk_overlap;
  embedder = embedder;
  vector_store = store;
  model_name = settings.embedding_model;
  dimensions = settings.embedding_dimensions;
}

abbrev pub retrieval_of : Settings → Embedder → StoreKind → RewriterKind → RetrievalWiring
retrieval_of settings embedder store rewriter = record {
  embedder = embedder;
  vector_store = store;
  top_k = settings.rag_top_k;
  dense_oversample = settings.rag_dense_oversample;
  dense_weight = settings.rag_dense_weight;
  lexical_weight = settings.rag_lexical_weight;
  query_rewriter = rewriter;
}

abbrev pub services_of :
    Settings → SplitterKind → Embedder → StoreKind → RewriterKind → Option GeminiProvider → Services
services_of settings splitter embedder store rewriter provider =
    let retrieval = retrieval_of settings embedder store rewriter in
    record {
      storage = storage_of settings;
      auth_service = settings;
      upload_service = storage_of settings;
      embedder = embedder;
      vector_store = store;
      ingestion_service = ingestion_of settings splitter embedder store;
      retrieval_service = retrieval;
      agent_service = record {
        retrieval = retrieval;
        provider = provider;
        max_steps = settings.agent_max_steps;
        instruction = settings.agent_planner_instruction;
      };
    }

module _ {W : Type 0} (lower repr : String → String) (constructors : Constructors W) where
  -- `_build_query_rewriter`
  unfoldable pub build_query_rewriter : Settings → Result RewriterKind
  unfolding build_llm_provider
  build_query_rewriter settings =
      if settings.rag_enable_query_rewrite
      then (build_llm_provider lower repr settings >>= λ provider.
          ok (llm_rewriter provider settings.rag_query_rewrite_instruction))
      else ok passthrough

  -- `_wire_modules` with a session factory, and `_build_agent_service`
  unfoldable pub wire_modules : Settings → Result Services
  unfolding build_embedder build_vector_store build_splitter build_query_rewriter provider_or_none
      build_llm_provider
  wire_modules settings =
      constructors.build_client (storage_of settings)
      >> (constructors.upload_service (storage_of settings) settings
          >> (build_embedder lower repr settings >>= λ embedder.
              (build_vector_store lower repr settings.vector_store_backend >>= λ store.
              (constructors.load_index store settings.vector_index_dir settings.embedding_dimensions
                >> (build_splitter lower repr settings.rag_splitter >>= λ splitter.
                    (constructors.load_splitter splitter
                      >> (build_query_rewriter settings >>= λ rewriter.
                          (provider_or_none (build_llm_provider lower repr settings) >>= λ provider.
                          ok
                            (services_of settings splitter embedder store rewriter provider)))))))))

  -- `_database_check` with an engine
  unfoldable pub database_check : (database_url : String) → W → HealthStatus
  database_check database_url world = elim (constructors.select_one database_url world) [
    | ok u ↦ record { ok_now = true; detail = "reachable" }
    | err e ↦ record { ok_now = false; detail = constructors.named e }
  ]

  abbrev pub not_configured : HealthStatus
  not_configured = record { ok_now = true; detail = "not configured" }

  -- `Container.build` without a database: `_wire_modules` returns at once.
  abbrev pub without_database : Settings → Container W
  without_database settings = record {
    settings = settings;
    health = register_check "database" (λ world. not_configured) [];
    engine = none;
    services = none;
  }

  unfoldable pub with_database : Settings → (database_url : String) → Result (Container W)
  unfolding wire_modules database_check register_check
  with_database settings database_url =
      constructors.build_engine database_url settings.database_echo
      >> (wire_modules settings >>= λ services. ok (record {
        settings = settings;
        health = register_check "database" (database_check database_url) [];
        engine = some database_url;
        services = some services;
      }))

  -- `Container.build`
  unfoldable pub build_container : Settings → Result (Container W)
  unfolding with_database register_check
  build_container settings = elim settings.database_url [
    | none ↦ ok (without_database settings)
    | some database_url ↦
        if database_url == ""
        then ok (without_database settings)
        else with_database settings database_url
  ]

  -- The settings that pass their validators, and `Container.build` in `create_app`.
  unfoldable pub boot : Settings → Result (Container W)
  unfolding guard_jwt_secret_length build_container
  boot settings = guard_jwt_secret_length lower settings >>= λ guarded. build_container guarded
