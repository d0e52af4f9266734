-- ===== src/Rag/Ingestion/Undone.antt =====
-- A pipeline that raises leaves the tables as they were.
use research_assistant.Base.{
  ◌≡◌, refl, subst, String, Option, none, some, List, [], arith, string_eq,
}
use research_assistant.Core.Errors.{Result, ok, err, Exn}
use research_assistant.Rag.Chunks.{TextChunk}
use research_assistant.Rag.Tables.{Document}
use research_assistant.Rag.Stores.{Vector, zip}
use research_assistant.Rag.Documents.{Library, get_document_by_id}
use research_assistant.Rag.Pipeline.{
  Upload, IngestionService, IngestionDraws, Rows, add_rows, write_all, write_rows, read_chunks,
  pipeline,
}

-- The tables, without the vectors.
pub record SameTables (before behind : Library) : Type 0 where
  pub chunks_same : behind.chunks ≡ before.chunks
  pub embeddings_same : behind.embeddings ≡ before.embeddings
  pub documents_same : behind.documents ≡ before.documents

SameTables-refl : (library : Library) → SameTables library library
SameTables-refl library = record {
  chunks_same = refl;
  embeddings_same = refl;
  documents_same = refl;
}

module _ {Bytes : Type 0} (service : IngestionService Bytes) (draws : IngestionDraws) where
  write_all-err :
      (document_id parser : String) (vectors : List Vector) (library : Library) (rows : Rows)
      (e : Exn)
      → (write_all service draws document_id parser vectors library rows).0 ≡ err e
      → SameTables library (write_all service draws document_id parser vectors library rows).1
  unfolding write_all
  write_all-err document_id parser vectors library rows e raised = ground (arith, raised)

  write_rows-err :
      (document_id parser : String) (chunks : List TextChunk) (vectors : List Vector)
      (library : Library)
      → (e : Exn) → (write_rows service draws document_id parser chunks vectors library).0 ≡ err e
      → SameTables library (write_rows service draws document_id parser chunks vectors library).1
  unfolding write_rows
  write_rows-err document_id parser chunks vectors library e raised =
      go
        (add_rows service draws document_id 0 (zip chunks vectors)
          (record { chunks = library.chunks; embeddings = library.embeddings; vector_ids = [] }))
        refl
    where
      go :
          (r : Result Rows)
          → add_rows service draws document_id 0
              (zip chunks vectors)
              (record { chunks = library.chunks; embeddings = library.embeddings; vector_ids = [] })
            ≡ r
          → SameTables library
              (write_rows service draws document_id parser chunks vectors library).1
      go (err x) f = subst (SameTables library) (ground (arith, f)) (SameTables-refl library)
      go (ok rows) f =
          subst (SameTables library) (ground (arith, f))
            (write_all-err document_id parser vectors library rows e (ground (arith, f, raised)))

  pub pipeline-err :
      (document_id : String) (upload : Upload) (library : Library) (e : Exn)
      → (pipeline service draws document_id upload library).0 ≡ err e
      → SameTables library (pipeline service draws document_id upload library).1
  unfolding pipeline
  pipeline-err document_id upload library e raised = go (read_chunks service draws upload) refl
    where
      with_document :
          (parser : String) (chunks : List TextChunk) (vectors : List Vector)
          → (o : Option Document) → read_chunks service draws upload ≡ ok (parser, chunks, vectors)
          → get_document_by_id document_id library.documents ≡ o
          → SameTables library (pipeline service draws document_id upload library).1
      with_document parser chunks vectors none f g =
          subst (SameTables library) (ground (arith, f, g)) (SameTables-refl library)
      with_document parser chunks vectors (some d) f g =
          subst (SameTables library) (ground (arith, f, g)) (
            write_rows-err document_id parser chunks vectors library e
              (ground (arith, f, g, raised)))

      go :
          (r : Result (String × List TextChunk × List Vector))
          → read_chunks service draws upload ≡ r
          → SameTables library (pipeline service draws document_id upload library).1
      go (err x) f = subst (SameTables library) (ground (arith, f)) (SameTables-refl library)
      go (ok (parser, chunks, vectors)) f =
          with_document parser chunks vectors (get_document_by_id document_id library.documents) f
            refl
