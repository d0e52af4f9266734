-- ===== src/Rag/Ingestion/Outcome.antt =====
-- What `ingest` leaves behind when it raises.
use research_assistant.Base.{
  ℕ, ◌≡◌, String, none, some, List, [], ◌∷◌, ◌++◌, map, ◌==◌, string_eq, if◌then◌else◌,
}
use research_assistant.Core.Errors.{ok, Exn}
use research_assistant.Rag.Chunks.{TextChunk}
use research_assistant.Rag.Tables.{Document}
use research_assistant.Rag.Stores.{Vector, zip}
use research_assistant.Rag.Documents.{Library, HasNoVectors, failed}
use research_assistant.Rag.Pipeline.{Upload, IngestionService, IngestionDraws, read_chunks}
use research_assistant.Rag.Ingestion.Added.{chunk_rows}
use research_assistant.Rag.Ingestion.Written.{IsWritten}

abbrev mark_row : (document_id error : String) → ℕ → Document → Document
mark_row document_id error at d = if d.document_id == document_id then failed error at d else d

-- The tables are the old ones with the document's row marked as failed, and no vector of the document
-- is left.
pub record IsRolledBack (document : Document) (error : String) (at : ℕ) (before behind : Library)
    : Type 0 where
  pub chunks_same : behind.chunks ≡ before.chunks
  pub embeddings_same : behind.embeddings ≡ before.embeddings
  pub documents_marked :
      behind.documents
      ≡ map (mark_row document.document_id error at) (before.documents ++ (document ∷ []))
  pub no_vectors : HasNoVectors document.document_id behind.store

-- The tables are the old ones with the document's row as it was inserted, and no vector of the document
-- is left.
pub record IsLeftPending (document : Document) (before behind : Library) : Type 0 where
  pub chunks_same : behind.chunks ≡ before.chunks
  pub embeddings_same : behind.embeddings ≡ before.embeddings
  pub documents_added : behind.documents ≡ before.documents ++ (document ∷ [])
  pub no_vectors : HasNoVectors document.document_id behind.store

module _ {Bytes : Type 0} (service : IngestionService Bytes) (draws : IngestionDraws) where
  -- What is left behind an accepted upload by an exception `e` of `ingest`. If the vector store can be
  -- saved, the ingestion is rolled back. If not, `e` is what `save` raised, and either the pipeline had
  -- failed before, and the document's row stays as it was inserted, or it had succeeded, and all that
  -- it wrote stays.
  pub data IsFailure (document : Document) (upload : Upload) (e : Exn) (before behind : Library)
      : Type 0 where
    rolled_back :
        service.vector_store.save_error ≡ none
        → IsRolledBack document (service.str_of e) draws.completed_at before behind
        → IsFailure document upload e before behind
    left_pending :
        service.vector_store.save_error ≡ some e
        → IsLeftPending document before behind
        → IsFailure document upload e before behind
    not_saved :
        service.vector_store.save_error ≡ some e
        → (parser : String) (chunks : List TextChunk) (vectors : List Vector)
        → read_chunks service draws upload ≡ ok (parser, chunks, vectors)
        → IsWritten service document.document_id parser draws.completed_at
            (chunk_rows draws document.document_id 0 (zip chunks vectors))
            vectors
            (record before { documents = before.documents ++ (document ∷ []) })
            behind
        → IsFailure document upload e before behind
