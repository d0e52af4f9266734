-- ===== src/Rag/Ingestion.antt =====
-- `ingest` of `IngestionService` of backend/app/modules/rag/services.py around its pipeline, with
-- `_mark_failed` and the save of the vector store.
pub mod Added
pub mod Written
pub mod Piped
pub mod Ready
pub mod Undone
pub mod Outcome
use research_assistant.Base.{
  ℕ, zero, suc, ◌+◌, String, Bool, true, false, Option, none, some, List, [], ◌∷◌, ◌++◌, map,
  length, keep_if, not, ◌==◌, string_eq, if◌then◌else◌,
}
use research_assistant.Base.Text.{◌<>◌}
use research_assistant.Core.Errors.{
  Result, ok, err, Exn, other, raise_insight, not_found, conflict, ◌>>=◌,
}
use research_assistant.Rag.Chunks.{LoadedDocument, TextChunk, ChunkManager, chunk_document}
use research_assistant.Rag.Tables.{Document, DocumentChunk}
use research_assistant.Rag.Stores.{Vector, zip, memory_add}
use research_assistant.Rag.Documents.{
  Library, VectorBackend, EmbeddingRecord, scalar, prefix_of, mark_failed, get_document_by_id,
}
use research_assistant.Rag.Pipeline.{
  Upload, IngestionService, IngestionDraws, new_document, pipeline,
}

pub record IngestionResult : Type 0 where
  pub document : Document
  pub chunk_count : ℕ

module _ {Bytes : Type 0} (service : IngestionService Bytes) (draws : IngestionDraws) where
  -- `_mark_failed` for an exception of the pipeline, which is raised again unless `_mark_failed` raises.
  unfoldable pub roll_back : Document → Exn → Library → Result IngestionResult × Library
  unfolding mark_failed
  roll_back document e library =
      let (raised, library') =
        mark_failed service.vector_store document.document_id (service.str_of e) draws.completed_at
          library in
      elim raised [ some other_error ↦ (err other_error, library') | none ↦ (err e, library') ]

  -- The end of `ingest` behind a pipeline that succeeded: `vector_store.save` and the result.
  unfoldable pub save_ingested :
      Document → List TextChunk → Library → Result IngestionResult × Library
  unfolding get_document_by_id
  save_ingested document chunks library = elim service.vector_store.save_error [
    | some e ↦ (err e, library)
    | none ↦ (
      ok (record {
        document = elim (get_document_by_id document.document_id library.documents) [
          | none ↦ document
          | some current ↦ current
        ];
        chunk_count = length chunks;
      }),
      library,
    )
  ]

  -- The second half of `ingest`, behind the commit of the new document.
  unfoldable pub run_pipeline : Document → Upload → Library → Result IngestionResult × Library
  unfolding pipeline roll_back save_ingested
  run_pipeline document upload library =
      let (outcome, library') = pipeline service draws document.document_id upload library in
      elim outcome [
        | err e ↦ roll_back document e library'
        | ok chunks ↦ save_ingested document chunks library'
      ]

  -- `ingest`
  unfoldable pub ingest : (user_id upload_id : String) → Library → Result IngestionResult × Library
  unfolding run_pipeline raise_insight
  ingest user_id upload_id library = elim (service.get_upload upload_id user_id) [
    | none ↦ (err (raise_insight not_found "Upload not found"), library)
    | some upload ↦
        let document = new_document draws user_id upload in
        if not (upload.status == "ready")
        then (
          err (
              raise_insight conflict
                "Upload is not ready; complete the upload before ingesting it"),
          library,
        )
        else run_pipeline document upload
            (record library { documents = library.documents ++ (document ∷ []) })
  ]
