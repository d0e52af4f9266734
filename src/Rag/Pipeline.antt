-- ===== src/Rag/Pipeline.antt =====
-- `_pipeline` of `IngestionService` of backend/app/modules/rag/services.py, over the tables and the
-- vectors of `Library`. Uploads, file storage, loaders and the embedder are ports; the database's answers
-- to an insertion and to the commit are ports too, and what `add` and `save` of the vector store raise is
-- its `VectorBackend`.
use research_assistant.Base.{
  ℕ, ◌+◌, String, false, Option, none, some, List, [], ◌∷◌, ◌++◌, map, ◌==◌, string_eq,
  if◌then◌else◌,
}
use research_assistant.Base.Text.{◌<>◌}
use research_assistant.Core.Errors.{Result, ok, err, Exn, other, ◌>>=◌}
use research_assistant.Rag.Chunks.{LoadedDocument, TextChunk, ChunkManager, chunk_document}
use research_assistant.Rag.Tables.{Document, DocumentChunk}
use research_assistant.Rag.Stores.{Vector, zip, memory_add}
use research_assistant.Rag.Documents.{
  Library, VectorBackend, EmbeddingRecord, prefix_of, get_document_by_id,
}

-- What the service reads of a row of the uploads.
pub record Upload : Type 0 where
  pub original_name : String
  pub content_type : String
  pub size_bytes : ℕ
  pub storage_key : String
  pub status : String

-- The port `DocumentLoader`; `Bytes` is what the storage gives.
pub record DocumentLoader (Bytes : Type 0) : Type 0 where
  pub parser : String
  pub load : Bytes → Result (List LoadedDocument)

pub record IngestionService (Bytes : Type 0) : Type 0 where
  pub get_upload : (upload_id user_id : String) → Option Upload
  pub get_bytes : String → Result Bytes
  pub loader_builder : String → Result (DocumentLoader Bytes)
  pub chunk_manager : ChunkManager
  pub embed : List String → Result (List Vector)
  pub vector_store : VectorBackend
  pub model_name : String
  pub dimensions : ℕ
  pub insert_error : DocumentChunk → Option Exn
  pub commit_error : Option Exn
  pub str_of : Exn → String

-- The random ids and the readings of the clock of one call.
pub record IngestionDraws : Type 0 where
  pub document_uuid : String
  pub chunk_uuid : ℕ → String
  pub embedding_uuid : ℕ → String
  pub created_at : ℕ
  pub completed_at : ℕ

-- What the loop of `_pipeline` adds to: the rows of two tables, and `vector_ids`.
pub record Rows : Type 0 where
  pub chunks : List DocumentChunk
  pub embeddings : List EmbeddingRecord
  pub vector_ids : List String

abbrev pub new_document : IngestionDraws → (user_id : String) → Upload → Document
new_document draws user_id upload = record {
  document_id = draws.document_uuid;
  uploader_id = user_id;
  name = upload.original_name;
  mime = upload.content_type;
  size_bytes = upload.size_bytes;
  storage_key = upload.storage_key;
  status = "processing";
  parser = "text";
  source_type = "upload";
  error = none;
  completed_at = none;
  created_at = draws.created_at;
}

-- The row of the chunk at a position.
abbrev pub chunk_row : IngestionDraws → (document_id : String) → ℕ → TextChunk → DocumentChunk
chunk_row draws document_id position chunk = record {
  chunk_id = draws.chunk_uuid position;
  document_id = document_id;
  index = chunk.index;
  content = chunk.content;
  token_count = chunk.token_count;
  page = chunk.page;
  heading = chunk.heading;
  metadata = chunk.metadata;
}

-- `mark_ready` of the repository, on the row.
abbrev pub mark_ready : (parser : String) → ℕ → Document → Document
mark_ready parser completed_at document = record document {
  status = "ready";
  parser = parser;
  error = none;
  completed_at = some completed_at;
}

abbrev pub set_ready : (document_id parser : String) → ℕ → List Document → List Document
set_ready document_id parser completed_at documents =
    map (λ d. if d.document_id == document_id then mark_ready parser completed_at d else d)
      documents

module _ {Bytes : Type 0} (service : IngestionService Bytes) (draws : IngestionDraws) where
  abbrev pub embedding_row : (document_id : String) → ℕ → EmbeddingRecord
  embedding_row document_id position = record {
    embedding_id = draws.embedding_uuid position;
    document_id = document_id;
    chunk_id = draws.chunk_uuid position;
    model_name = service.model_name;
    dimensions = service.dimensions;
    is_deleted = false;
  }

  abbrev pub add_row : (document_id : String) → ℕ → TextChunk → Rows → Rows
  add_row document_id position chunk rows = record {
    chunks = rows.chunks ++ (chunk_row draws document_id position chunk ∷ []);
    embeddings = rows.embeddings ++ (embedding_row document_id position ∷ []);
    vector_ids = rows.vector_ids ++ ((prefix_of document_id <> draws.chunk_uuid position) ∷ []);
  }

  -- The loop over `zip(chunks, vectors)`, from a position.
  unfoldable pub add_rows :
      (document_id : String) → ℕ → List (TextChunk × Vector) → Rows → Result Rows
  add_rows document_id position [] rows = ok rows
  add_rows document_id position ((chunk, vector) ∷ pairs) rows =
      let rest =
        add_rows document_id (position + 1) pairs (add_row document_id position chunk rows) in
      elim (service.insert_error (chunk_row draws document_id position chunk)) [
        | some e ↦ err e
        | none ↦ rest
      ]

  abbrev pub embed_contents : List TextChunk → Result (List Vector)
  embed_contents [] = ok []
  embed_contents (chunk ∷ chunks) = service.embed (map (λ c. c.content) (chunk ∷ chunks))

  -- The first lines of `_pipeline`: the parser, the chunks and their vectors.
  unfoldable pub read_chunks : Upload → Result (String × List TextChunk × List Vector)
  unfolding chunk_document
  read_chunks upload = service.get_bytes upload.storage_key >>= λ bytes.
      (service.loader_builder upload.content_type >>= λ loader.
      (loader.load bytes >>= λ loaded.
      let chunks = chunk_document service.chunk_manager loaded in
      (embed_contents chunks >>= λ vectors. ok (loader.parser, chunks, vectors))))

  -- What `if vectors: vector_store.add(vectors, vector_ids)` raises.
  abbrev pub refused : List Vector → Option Exn
  refused [] = none
  refused (vector ∷ vectors) = service.vector_store.add_error (vector ∷ vectors)

  -- The end of the transaction: `vector_store.add`, `mark_ready` and the commit. The vectors stay in
  -- the store if the commit fails, the rows do not.
  unfoldable pub write_all :
      (document_id parser : String) → List Vector → Library → Rows → Result (Unit {0}) × Library
  unfolding memory_add
  write_all document_id parser vectors library rows =
      let store = memory_add vectors rows.vector_ids library.store in
      elim (refused vectors) [
        | some e ↦ (err e, library)
        | none ↦ elim service.commit_error [
          | some e ↦ (err e, record library { store = store })
          | none ↦ (
            ok tt,
            record {
              documents = set_ready document_id parser draws.completed_at library.documents;
              chunks = rows.chunks;
              embeddings = rows.embeddings;
              store = store;
            },
          )
        ]
      ]

  -- The transaction of `_pipeline`, behind the look-up of the document.
  unfoldable pub write_rows :
      (document_id parser : String)
      → List TextChunk
      → List Vector
      → Library
      → Result (Unit {0}) × Library
  unfolding add_rows write_all zip
  write_rows document_id parser chunks vectors library =
      elim (add_rows document_id 0 (zip chunks vectors)
        (record { chunks = library.chunks; embeddings = library.embeddings; vector_ids = [] })) [
          | err e ↦ (err e, library)
          | ok rows ↦ write_all document_id parser vectors library rows
        ]

  -- `_pipeline`. The look-up finds nothing if another request has deleted the document.
  unfoldable pub pipeline :
      (document_id : String) → Upload → Library → Result (List TextChunk) × Library
  unfolding read_chunks write_rows get_document_by_id
  pipeline document_id upload library = elim (read_chunks upload) [
    | err e ↦ (err e, library)
    | ok (parser, chunks, vectors) ↦ elim (get_document_by_id document_id library.documents) [
      | none ↦ (err (other "AttributeError" "'NoneType' object has no attribute 'id'"), library)
      | some current ↦
          let written = write_rows document_id parser chunks vectors library in
          elim written.0 [ err e ↦ (err e, written.1) | ok done ↦ (ok chunks, written.1) ]
    ]
  ]
