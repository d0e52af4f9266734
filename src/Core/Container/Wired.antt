-- ===== src/Core/Container/Wired.antt =====
-- What a service that has booted is wired to.
use research_assistant.Base.{
  ◌≤◌, ◌≡◌, String, Bool, true, false, Option, none, some, ◌||◌, not, ◌⊎◌, ◌==◌, string_eq,
  if◌then◌else◌,
}
use research_assistant.Base.Text.{len}
use research_assistant.Core.Errors.{ok, err}
use research_assistant.Core.Config.{Settings, jwt_secret}
use research_assistant.Core.Health.{readyz}
use research_assistant.Llm.{GeminiProvider}
use research_assistant.Rag.Embeddings.{build_embedder}
use research_assistant.Rag.Stores.Search.{build_vector_store, build_splitter}
use research_assistant.Core.Container.{Services, Container, Constructors}

module _ {W : Type 0} (lower repr : String → String) (constructors : Constructors W) where
  -- Whether the database answers; it counts as one that does if none is configured.
  unfoldable pub answers : Option String → W → Bool
  answers none world = true
  answers (some database_url) world =
      database_url == ""
      || (elim (constructors.select_one database_url world) [ ok u ↦ true | err e ↦ false ])

  -- Whether a database is configured: its URL is there and not empty.
  abbrev pub has_database : Option String → Bool
  has_database none = false
  has_database (some database_url) = not (database_url == "")

  -- The embedder, the vector store and the splitter are those that the settings name, and the services
  -- that share one of them have the same; with the rewriting of queries the agent has a model too.
  pub record HasServices (settings : Settings) (services : Services) : Type 0 where
    pub known_embedder : build_embedder lower repr settings ≡ ok services.embedder
    pub known_store :
        build_vector_store lower repr settings.vector_store_backend ≡ ok services.vector_store
    pub known_splitter :
        build_splitter lower repr settings.rag_splitter ≡ ok services.ingestion_service.splitter
    pub same_embedder : services.retrieval_service.embedder ≡ services.ingestion_service.embedder
    pub same_store :
        services.retrieval_service.vector_store ≡ services.ingestion_service.vector_store
    pub same_storage : services.upload_service ≡ services.ingestion_service.storage
    pub same_retrieval : services.agent_service.retrieval ≡ services.retrieval_service
    pub with_provider :
        settings.rag_enable_query_rewrite ≡ true
        → (provider : GeminiProvider) × (services.agent_service.provider ≡ some provider)

  -- No service without a database, all of them with one.
  abbrev pub AreWired : Settings → Option Services → Type 0
  AreWired settings services =
      ((has_database settings.database_url ≡ false) × (services ≡ none))
      ⊎ ((has_database settings.database_url ≡ true)
          × ((s : Services) × (services ≡ some s) × HasServices settings s))

  pub record IsBooted (settings : Settings) (container : Container W) : Type 0 where
    pub strong_secret :
        (lower settings.app_env == "production") ≡ true → 32 ≤ len (jwt_secret settings)
    pub services_wired : AreWired settings container.services
    pub ready :
        (world : W)
        → (readyz container.health world).http_status
          ≡ (if answers settings.database_url world then 200 else 503)

  -- What holds of a container, however strong the secret is.
  abbrev IsBuilt : Settings → Container W → Type 0
  IsBuilt settings container =
      AreWired settings container.services
      × ((world : W)
          → (readyz container.health world).http_status
            ≡ (if answers settings.database_url world then 200 else 503))
