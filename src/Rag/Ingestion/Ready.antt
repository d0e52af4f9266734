-- ===== src/Rag/Ingestion/Ready.antt =====
-- A call of `ingest` that succeeds.
use research_assistant.Base.{
  ◌≡◌, refl, ◌∙◌, subst, append-nil, not, true, String, Option, none, some, List, [], ◌∷◌, ◌++◌,
  arith, length, keep_if, keep_if-append, ◌==◌, string_eq, beq_refl, Bool-cases, inl, inr,
}
use research_assistant.Core.Errors.{Result, ok, err}
use research_assistant.Rag.Chunks.{TextChunk}
use research_assistant.Rag.Tables.{Document}
use research_assistant.Rag.Documents.{Library, delete_document}
use research_assistant.Rag.Pipeline.{
  Upload, IngestionService, IngestionDraws, new_document, pipeline, mark_ready,
}
use research_assistant.Rag.Ingestion.{
  IngestionResult, run_pipeline, save_ingested, roll_back, ingest,
}
use research_assistant.Rag.Ingestion.Added.{IsEmbedder}
use research_assistant.Rag.Ingestion.Written.{
  IsIngested, get_rows, keep_if_one, IsWritten-IsIngested,
}
use research_assistant.Rag.Ingestion.Piped.{read_chunks-length, read_chunks-IsRead, pipeline-ok}

delete_document-snoc :
    (document_id : String) (document : Document) (documents : List Document)
    → (document.document_id == document_id) ≡ true
    → delete_document document_id (documents ++ document ∷ [])
      ≡ delete_document document_id documents
unfolding keep_if
delete_document-snoc document_id document documents same =
    keep_if-append (λ d. not (d.document_id == document_id)) documents (document ∷ [])
    ∙ rw same (append-nil (delete_document document_id documents))

module _ {Bytes : Type 0} (service : IngestionService Bytes) (draws : IngestionDraws) where
  run_pipeline-ok :
      (document : Document) (upload : Upload) (library : Library) (result : IngestionResult)
      → IsEmbedder service
      → get_rows document.document_id library ≡ []
      → keep_if (λ d. d.document_id == document.document_id) library.documents ≡ document ∷ []
      → (run_pipeline service draws document upload library).0 ≡ ok result
      → IsIngested service document.document_id result library
          (run_pipeline service draws document upload library).1
  unfolding run_pipeline save_ingested roll_back
  run_pipeline-ok document upload library result one fresh alone done =
      go (pipeline service draws document.document_id upload library).0 refl
    where
      go :
          (r : Result (List TextChunk))
          → (pipeline service draws document.document_id upload library).0 ≡ r
          → IsIngested service document.document_id result library
              (run_pipeline service draws document upload library).1
      go (err e) f = absurd (ground (arith, f, done))
      go (ok chunks) f =
          let (parser, vectors, read, w) =
            pipeline-ok service draws document.document_id upload library chunks f in
          let behind = (pipeline service draws document.document_id upload library).1 in
          let ingested =
            IsWritten-IsIngested service draws document upload parser draws.completed_at chunks
              vectors library behind
              (read_chunks-length service draws upload parser chunks vectors one read)
              (read_chunks-IsRead service draws upload parser chunks vectors read) fresh alone w in
          let shown : IngestionResult = record {
            document = mark_ready parser draws.completed_at document;
            chunk_count = length chunks;
          } in
          let same : shown ≡ result = ground (arith, f, done, ingested.found) in
          let same_library : behind ≡ (run_pipeline service draws document upload library).1 =
            ground (arith, f) in
          subst (IsIngested service document.document_id result library) same_library
            (subst (λ r. IsIngested service document.document_id r library behind) same ingested)

  pub ingest-IsIngested :
      (user_id upload_id : String) (library : Library) (result : IngestionResult)
      → IsEmbedder service
      → get_rows draws.document_uuid library ≡ []
      → keep_if (λ d. d.document_id == draws.document_uuid) library.documents ≡ []
      → (ingest service draws user_id upload_id library).0 ≡ ok result
      → IsIngested service draws.document_uuid result library
          (ingest service draws user_id upload_id library).1
  unfolding ingest
  ingest-IsIngested user_id upload_id library result one fresh unused done =
      go (service.get_upload upload_id user_id) refl
    where
      go :
          (o : Option Upload)
          → service.get_upload upload_id user_id ≡ o
          → IsIngested service draws.document_uuid result library
              (ingest service draws user_id upload_id library).1
      go none f = absurd (ground (arith, f, done))
      go (some upload) f = elim (Bool-cases (upload.status == "ready")) [
        | inr unready ↦ absurd (ground (arith, f, unready, done))
        | inl is_ready ↦
            let document = new_document draws user_id upload in
            let added : Library = record library {
              documents = library.documents ++ (document ∷ []);
            } in
            let alone : keep_if (λ d. d.document_id == draws.document_uuid) added.documents
                ≡ document ∷ [] =
              rw
                (
                  keep_if-append (λ d. d.document_id == draws.document_uuid) library.documents
                      (document ∷ []),
                  unused,
                )
                (keep_if_one (λ d. d.document_id == draws.document_uuid) document
                  (beq_refl draws.document_uuid)) in
            let g =
              run_pipeline-ok document upload added result one fresh alone
                (ground (arith, f, is_ready, done)) in
            let ingested : IsIngested service draws.document_uuid result library
                (run_pipeline service draws document upload added).1 =
              record {
                found = g.found;
                is_ready = g.is_ready;
                other_documents =
                    g.other_documents
                    ∙ delete_document-snoc draws.document_uuid document library.documents
                        (beq_refl draws.document_uuid);
                counted = g.counted;
                others_same = g.others_same;
                embeddings_added = g.embeddings_added;
                vectors_added = g.vectors_added;
                vectors_counted = g.vectors_counted;
                read_from = g.read_from;
              } in
            subst (IsIngested service draws.document_uuid result library)
              (ground (arith, f, is_ready)) ingested
      ]
