-- ===== src/Api/Library.antt =====
-- The endpoints of backend/app/modules/rag/router.py, with dependencies.py.
use research_assistant.Base.{ℕ, ◌++◌, String, Option, string_eq, ℤ}
use research_assistant.Core.Errors.{Result, ok, ◌>>=◌}
use research_assistant.Core.Float.{FloatOps}
use research_assistant.Auth.{Store}
use research_assistant.Auth.Tokens.{Crypto, Settings}
use research_assistant.Rag.Documents.{Library as Tables, chunk_count, delete}
use research_assistant.Rag.Pipeline.{IngestionService, IngestionDraws}
use research_assistant.Rag.Ingestion.{ingest}
use research_assistant.Rag.Listing.{list_documents}
use research_assistant.Rag.Retrieval.{RetrievalService, retrieve}
use research_assistant.Api.{Credentials, configured, get_current_user, behind, bounded, validated}
use research_assistant.Api.Bodies.{
  DocumentOut, IngestDocumentResponse, DocumentListResponse, RetrieveResponse, document_out,
  items_of, retrieve_response, in_range, in_range_or_none, at_least_zero_errors, magnitude,
}

module _ (lower : String → String) (crypto : Crypto) where
  -- `get_ingestion_service` and `get_retrieval_service`
  unfoldable pub get_ingestion_service : {A : Type 0} → Option A → Result A
  unfolding configured
  get_ingestion_service service =
      configured "RAG ingestion is not configured; set DATABASE_URL to enable the RAG module"
        service

  unfoldable pub get_retrieval_service : {A : Type 0} → Option A → Result A
  unfolding configured
  get_retrieval_service service =
      configured "RAG retrieval is not configured; set DATABASE_URL to enable the RAG module"
        service

  module _ {Bytes : Type 0} (draws : IngestionDraws) where
    -- What `ingest_document` does for a user.
    unfoldable pub ingest_for :
        (user_id upload_id : String)
        → IngestionService Bytes
        → Tables
        → Result IngestDocumentResponse × Tables
    unfolding ingest document_out
    ingest_for user_id upload_id service tables =
        let (outcome, tables') = ingest service draws user_id upload_id tables in
        (
          outcome >>= λ result.
              (document_out user_id result.document.document_id result.chunk_count tables'
                >>= λ document.
                    ok (record { document = document; chunk_count = result.chunk_count })),
          tables',
        )

    -- `POST /rag/documents`
    unfoldable pub post_document :
        (auth_service : Option Settings)
        → Option (IngestionService Bytes)
        → Option Credentials
        → (now : ℕ) → Store
        → (upload_id : String) → Tables
        → Result IngestDocumentResponse × Tables
    unfolding get_current_user get_ingestion_service ingest_for
    post_document auth_service service given now store upload_id tables =
        behind (get_current_user lower crypto auth_service given now store) tables λ user.
          behind (get_ingestion_service service) tables
            λ ingestion. ingest_for user.user_id upload_id ingestion tables

  -- `GET /rag/documents/{document_id}`
  unfoldable pub get_one :
      {A : Type 0}
      → (auth_service : Option Settings) → Option A
      → Option Credentials
      → (now : ℕ) → Store
      → (document_id : String) → Tables
      → Result DocumentOut
  unfolding get_current_user get_ingestion_service chunk_count document_out
  get_one auth_service service given now store document_id tables =
      get_current_user lower crypto auth_service given now store >>= λ user.
      (get_ingestion_service service >>= λ ingestion.
      (chunk_count user.user_id document_id tables >>= λ count.
      document_out user.user_id document_id count tables))

  -- What `list_documents` shows a user.
  unfoldable pub list_for :
      (user_id : String) (skip limit : ℕ) → Tables → Result DocumentListResponse
  unfolding list_documents items_of
  list_for user_id skip limit tables =
      let (documents, total, counts) = list_documents user_id skip limit tables in
      (items_of documents counts >>= λ items.
      ok (record { items = items; total = total; skip = skip; limit = limit }))

  -- `GET /rag/documents`
  unfoldable pub get_list :
      {A : Type 0}
      → (auth_service : Option Settings) → Option A
      → Option Credentials
      → (now : ℕ) → Store
      → (skip limit : ℤ) → Tables
      → Result DocumentListResponse
  unfolding get_current_user get_ingestion_service validated in_range at_least_zero_errors list_for
  get_list auth_service service given now store skip limit tables =
      get_current_user lower crypto auth_service given now store >>= λ user.
      (get_ingestion_service service >>= λ ingestion.
      (validated (at_least_zero_errors "skip" skip ++ in_range "limit" 1 100 limit) (magnitude skip)
        >>= λ from. list_for user.user_id from (magnitude limit) tables))

  -- `DELETE /rag/documents/{document_id}`
  unfoldable pub delete_one :
      {Bytes : Type 0}
      → (auth_service : Option Settings) → Option (IngestionService Bytes)
      → Option Credentials
      → (now : ℕ) → Store
      → (document_id : String) → Tables
      → Result (Unit {0}) × Tables
  unfolding get_current_user get_ingestion_service delete
  delete_one auth_service service given now store document_id tables =
      behind (get_current_user lower crypto auth_service given now store) tables λ user.
        behind (get_ingestion_service service) tables
          λ ingestion. delete ingestion.vector_store user.user_id document_id tables

  -- `POST /rag/retrieve`
  unfoldable pub post_retrieve :
      FloatOps
      → (auth_service : Option Settings) → Option RetrievalService
      → Option Credentials
      → (now : ℕ) → Store
      → (query : String) → (top_k : Option ℤ) → Tables
      → Result RetrieveResponse
  unfolding get_current_user get_retrieval_service bounded in_range_or_none validated retrieve
      retrieve_response
  post_retrieve F auth_service service given now store query top_k tables =
      get_current_user lower crypto auth_service given now store >>= λ user.
      (get_retrieval_service service >>= λ retrieval.
      (validated (bounded "query" 1 1000 query ++ in_range_or_none "top_k" 1 50 top_k) query
        >>= λ valid.
            (retrieve F retrieval user.user_id valid top_k tables.documents tables.chunks
              >>= λ result. retrieve_response result)))
