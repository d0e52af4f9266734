-- ===== src/Rag/Wired.antt =====
-- Ingestion as the container wires it: over a storage of objects, the loaders and an embedder of the
-- program.
use research_assistant.Base.{
  ℕ, ◌≡◌, String, Option, none, List, [], length, keep_if, ◌==◌, string_eq,
}
use research_assistant.Core.Errors.{ok, Exn}
use research_assistant.Core.Float.{FloatOps}
use research_assistant.Rag.Chunks.{ChunkManager}
use research_assistant.Rag.Documents.{Library, VectorBackend}
use research_assistant.Rag.Tables.{DocumentChunk}
use research_assistant.Rag.Stores.{Vector}
use research_assistant.Rag.Loaders.{Parsers, build_loader}
use research_assistant.Rag.Embeddings.{Models, Hashing, Embedder, embed}
use research_assistant.Rag.Embeddings.Dimensions.{embed-HasDimensions}
use research_assistant.Rag.Pipeline.{Upload, IngestionService, IngestionDraws}
use research_assistant.Rag.Ingestion.{IngestionResult, ingest}
use research_assistant.Rag.Ingestion.Added.{IsEmbedder}
use research_assistant.Rag.Ingestion.Written.{IsIngested, get_rows}
use research_assistant.Rag.Ingestion.Ready.{ingest-IsIngested}
use research_assistant.Shared.Paths.{Names}
use research_assistant.Shared.Storage.{Bytes, Disk, get_bytes}

-- The rest of what the service takes: the uploads, the splitter with its sizes, the settings, and the
-- database's answers.
pub record Surroundings : Type 0 where
  pub get_upload : (upload_id user_id : String) → Option Upload
  pub chunk_manager : ChunkManager
  pub vector_store : VectorBackend
  pub model_name : String
  pub dimensions : ℕ
  pub insert_error : DocumentChunk → Option Exn
  pub commit_error : Option Exn
  pub str_of : Exn → String

module _ (F : FloatOps) (hashing : Hashing) (models : Models) (embedder : Embedder)
    (parsers : Parsers Bytes) (repr : String → String) (hex : ℕ → String) (root : Names)
    (disk : Disk) (surroundings : Surroundings) where
  -- The service over the local storage, with the files of the disk.
  unfoldable pub local_ingestion : IngestionService Bytes
  unfolding embed build_loader get_bytes
  local_ingestion = record {
    get_upload = surroundings.get_upload;
    get_bytes = λ key. get_bytes repr hex root key none disk;
    loader_builder = build_loader parsers;
    chunk_manager = surroundings.chunk_manager;
    embed = embed F hashing models embedder;
    vector_store = surroundings.vector_store;
    model_name = surroundings.model_name;
    dimensions = surroundings.dimensions;
    insert_error = surroundings.insert_error;
    commit_error = surroundings.commit_error;
    str_of = surroundings.str_of;
  }

  local_ingestion-IsEmbedder :
      ((name : String) (ts : List String) (vs : List Vector)
        → models.encode name ts ≡ ok vs
        → length vs ≡ length ts)
      → IsEmbedder local_ingestion
  unfolding local_ingestion
  local_ingestion-IsEmbedder one texts vectors given =
      (embed-HasDimensions F hashing models embedder texts vectors one given).0

  -- `ingest` of a stored upload that succeeds, with either embedder of the program and a document id that
  -- was not in use, is an ingestion, provided that the model of sentence-transformers gives one vector
  -- for each text.
  pub ingest-local_ingestion :
      (draws : IngestionDraws) (user_id upload_id : String) (library : Library)
      (result : IngestionResult)
      → ((name : String) (ts : List String) (vs : List Vector)
          → models.encode name ts ≡ ok vs
          → length vs ≡ length ts)
      → get_rows draws.document_uuid library ≡ []
      → keep_if (λ d. d.document_id == draws.document_uuid) library.documents ≡ []
      → (ingest local_ingestion draws user_id upload_id library).0 ≡ ok result
      → IsIngested local_ingestion draws.document_uuid result library
          (ingest local_ingestion draws user_id upload_id library).1
  ingest-local_ingestion draws user_id upload_id library result one fresh unused done =
      ingest-IsIngested local_ingestion draws user_id upload_id library result
        (local_ingestion-IsEmbedder one) fresh unused done
