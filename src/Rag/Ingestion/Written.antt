-- ===== src/Rag/Ingestion/Written.antt =====
-- What the transaction of an ingestion writes, and what that makes of the library.
use research_assistant.Base.{
  ℕ, ◌+◌, ◌≡◌, refl, String, Bool, true, false, some, List, [], ◌∷◌, ◌++◌, arith, map, length,
  length-append, keep_if, keep_if-append, append-nil, ◌==◌, string_eq, not, ◌⊎◌,
}
use research_assistant.Core.Errors.{ok}
use research_assistant.Rag.Chunks.{LoadedDocument, TextChunk, chunk_document}
use research_assistant.Rag.Tables.{Document, DocumentChunk}
use research_assistant.Rag.Stores.{Vector, zip, memory_add}
use research_assistant.Rag.Documents.{
  Library, EmbeddingRecord, get_document_by_id, count_for_document, delete_chunks, delete_document,
}
use research_assistant.Rag.Pipeline.{
  Upload, DocumentLoader, IngestionService, IngestionDraws, mark_ready, set_ready,
}
use research_assistant.Rag.Ingestion.{IngestionResult}
use research_assistant.Rag.Ingestion.Added.{
  chunk_rows, vector_id_of, said_by, said_of, keep_if-chunk_rows, length-chunk_rows,
  map-content-chunk_rows,
}

-- What the transaction writes for a document: its rows behind the old ones, an embedding record and a
-- vector for each row under the id that names the document and the row, and the status "ready".
pub record IsWritten {Bytes : Type 0} (service : IngestionService Bytes)
    (document_id parser : String) (at : ℕ) (rows : List DocumentChunk) (vectors : List Vector)
    (before behind : Library) : Type 0 where
  pub chunks : behind.chunks ≡ before.chunks ++ rows
  pub embeddings :
      (new : List EmbeddingRecord) × (behind.embeddings ≡ before.embeddings ++ new)
      × (map said_by new ≡ map (said_of service) rows)
  pub store : behind.store ≡ memory_add vectors (map vector_id_of rows) before.store
  pub documents : behind.documents ≡ set_ready document_id parser at before.documents

-- What is read of an upload: its stored bytes, loaded by the loader of its type, cut into chunks, and
-- one embedding of the texts of all of them.
pub record IsRead {Bytes : Type 0} (service : IngestionService Bytes) (upload : Upload)
    (parser : String) (chunks : List TextChunk) (vectors : List Vector) : Type 0 where
  pub bytes : Bytes
  pub loader : DocumentLoader Bytes
  pub loaded : List LoadedDocument
  pub fetched : service.get_bytes upload.storage_key ≡ ok bytes
  pub chosen : service.loader_builder upload.content_type ≡ ok loader
  pub parsed : loader.load bytes ≡ ok loaded
  pub named : parser ≡ loader.parser
  pub cut : chunks ≡ chunk_document service.chunk_manager loaded
  pub embedded :
      ((chunks ≡ []) × (vectors ≡ [])) ⊎ (service.embed (map (λ c. c.content) chunks) ≡ ok vectors)

-- What a call that succeeds leaves: a row in the state "ready" that the result shows and the other
-- documents as they were; the chunks that were read of the upload, counted as reported, with the texts
-- that they were read with, and the chunks of the other documents as they were; behind the old embedding
-- records one for each of the chunks, and no other; and behind the old vectors the embeddings of the
-- chunks, each under the id that names its chunk.
pub record IsIngested {Bytes : Type 0} (service : IngestionService Bytes) (document_id : String)
    (result : IngestionResult) (before behind : Library) : Type 0 where
  pub found : get_document_by_id document_id behind.documents ≡ some result.document
  pub is_ready : result.document.status ≡ "ready"
  pub other_documents :
      delete_document document_id behind.documents ≡ delete_document document_id before.documents
  pub counted : count_for_document document_id behind.chunks ≡ result.chunk_count
  pub others_same :
      delete_chunks document_id behind.chunks ≡ delete_chunks document_id before.chunks
  pub embeddings_added :
      (new : List EmbeddingRecord) × (behind.embeddings ≡ before.embeddings ++ new)
      × (map said_by new
          ≡ map (said_of service) (keep_if (λ c. c.document_id == document_id) behind.chunks))
  pub vectors_added :
      behind.store.ids
      ≡ before.store.ids
        ++ map vector_id_of (keep_if (λ c. c.document_id == document_id) behind.chunks)
  pub vectors_counted :
      length behind.store.vectors ≡ length before.store.vectors + result.chunk_count
  pub read_from :
      (upload : Upload) × (parser : String) × (chunks : List TextChunk) × (vectors : List Vector)
      × IsRead service upload parser chunks vectors
      × (map (λ c. c.content) (keep_if (λ c. c.document_id == document_id) behind.chunks)
          ≡ map (λ c. c.content) chunks)
      × (behind.store.vectors ≡ before.store.vectors ++ vectors)

abbrev pub get_rows : (document_id : String) → Library → List DocumentChunk
get_rows document_id library = keep_if (λ c. c.document_id == document_id) library.chunks

keep_if-set_ready :
    (document_id parser : String) (at : ℕ) (documents : List Document)
    → keep_if (λ d. d.document_id == document_id) (set_ready document_id parser at documents)
      ≡ map (mark_ready parser at) (keep_if (λ d. d.document_id == document_id) documents)
unfolding keep_if
keep_if-set_ready document_id parser at [] = refl
keep_if-set_ready document_id parser at (d ∷ documents) =
    go (d.document_id == document_id) refl (keep_if-set_ready document_id parser at documents)
  where
    go :
        (b : Bool)
        → (d.document_id == document_id) ≡ b
        → keep_if (λ x. x.document_id == document_id) (set_ready document_id parser at documents)
          ≡ map (mark_ready parser at) (keep_if (λ x. x.document_id == document_id) documents)
        → keep_if
            (λ x. x.document_id == document_id)
            (set_ready document_id parser at (d ∷ documents))
          ≡ map (mark_ready parser at) (keep_if (λ x. x.document_id == document_id) (d ∷ documents))
    go true e rest = rw (e, e, rest) refl
    go false e rest = rw (e, e, rest) refl

delete_document-set_ready :
    (document_id parser : String) (at : ℕ) (documents : List Document)
    → delete_document document_id (set_ready document_id parser at documents)
      ≡ delete_document document_id documents
unfolding keep_if
delete_document-set_ready document_id parser at [] = refl
delete_document-set_ready document_id parser at (d ∷ documents) =
    go (d.document_id == document_id) refl
      (delete_document-set_ready document_id parser at documents)
  where
    go :
        (b : Bool)
        → (d.document_id == document_id) ≡ b
        → delete_document document_id (set_ready document_id parser at documents)
          ≡ delete_document document_id documents
        → delete_document document_id (set_ready document_id parser at (d ∷ documents))
          ≡ delete_document document_id (d ∷ documents)
    go true e rest = rw (e, e, rest) refl
    go false e rest = rw (e, e, rest) refl

pub keep_if_one {ℓ} : {A : Type ℓ} (p : A → Bool) (x : A) → p x ≡ true → keep_if p (x ∷ []) ≡ x ∷ []
unfolding keep_if
keep_if_one p x holds = ground (arith, holds)

-- What is written is an ingestion, if the document's id was not in use.
pub IsWritten-IsIngested :
    {Bytes : Type 0} (service : IngestionService Bytes) (draws : IngestionDraws)
    (document : Document) (upload : Upload) (parser : String) (at : ℕ)
    → (chunks : List TextChunk) (vectors : List Vector) (before behind : Library)
    → length vectors ≡ length chunks
    → IsRead service upload parser chunks vectors
    → get_rows document.document_id before ≡ []
    → keep_if (λ d. d.document_id == document.document_id) before.documents ≡ document ∷ []
    → IsWritten service document.document_id parser at
        (chunk_rows draws document.document_id 0 (zip chunks vectors))
        vectors
        before
        behind
    → IsIngested service document.document_id
        (record { document = mark_ready parser at document; chunk_count = length chunks })
        before
        behind
unfolding get_document_by_id count_for_document memory_add
IsWritten-IsIngested service draws document upload parser at chunks vectors before behind same read
      fresh alone w =
    let id = document.document_id in
    let rows = chunk_rows draws id 0 (zip chunks vectors) in
    let (all, no_other) = keep_if-chunk_rows draws id 0 (zip chunks vectors) in
    let own : keep_if (λ c. c.document_id == id) behind.chunks ≡ rows =
      rw (w.chunks, keep_if-append (λ c. c.document_id == id) before.chunks rows, fresh, all)
        refl in
    let (new, added, said) = w.embeddings in
    record {
      found = rw (w.documents, keep_if-set_ready id parser at before.documents, alone) refl;
      is_ready = refl;
      other_documents = rw w.documents (delete_document-set_ready id parser at before.documents);
      counted = rw (own, length-chunk_rows draws id 0 chunks vectors same) refl;
      others_same =
          rw
            (
              w.chunks,
              keep_if-append (λ c. not (c.document_id == id)) before.chunks rows,
              no_other,
              append-nil (delete_chunks id before.chunks),
            )
            refl;
      embeddings_added = (new, added, rw own said);
      vectors_added = rw (w.store, own) refl;
      vectors_counted = rw (w.store, length-append before.store.vectors vectors, same) refl;
      read_from = (
        upload,
        parser,
        chunks,
        vectors,
        read,
        rw own (map-content-chunk_rows draws id 0 chunks vectors same),
        rw w.store refl,
      );
    }
