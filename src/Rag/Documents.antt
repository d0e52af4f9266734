-- ===== src/Rag/Documents.antt =====
-- The queries of backend/app/modules/rag/repositories.py for one document, and `get`, `chunk_count`,
-- `delete` and `_mark_failed` of services.py. The vectors are what either store holds, ids and vectors;
-- what `add` and `save` of the store raise is its `VectorBackend`.
pub mod Gone
pub mod Failed
pub mod Backends
use research_assistant.Base.{
  ℕ, ◌≡◌, refl, ap, subst, String, Bool, true, false, Option, none, some, List, [], ◌∷◌, ◌++◌,
  arith, not, ◌&&◌, map, keep_if, length, ◌==◌, beq_refl, string_eq, if◌then◌else◌, eq_iff, ◌⊎◌,
  inl, inr,
}
use research_assistant.Base.Text.{◌<>◌}
use research_assistant.Core.Errors.{Result, ok, err, Exn, other, raise_insight, not_found, ◌>>=◌}
use research_assistant.Rag.Tables.{Document, DocumentChunk}
use research_assistant.Rag.Stores.{
  Vector, InMemoryVectorStore, starts_with, memory_delete, memory_delete_by_prefix, zip,
  all_of_length, memory_add, FaissVectorStore, faiss_add,
}
use research_assistant.Rag.Stores.Purge.{purged}

pub record EmbeddingRecord : Type 0 where
  pub embedding_id : String
  pub document_id : String
  pub chunk_id : String
  pub model_name : String
  pub dimensions : ℕ
  pub is_deleted : Bool

-- What the vector store raises: `add`, for some vectors, which then changes nothing, and `save`, which
-- writes files for a FAISS store and nothing for the one in memory.
pub record VectorBackend : Type 0 where
  pub add_error : List Vector → Option Exn
  pub save_error : Option Exn

-- `InMemoryVectorStore` raises nothing.
abbrev pub memory_backend : VectorBackend
memory_backend = record { add_error = λ vectors. none; save_error = none }

-- `FAISSVectorStore` refuses vectors of another dimension; the file system decides about `save`.
unfoldable pub faiss_backend : (dims : ℕ) → Option Exn → VectorBackend
unfolding all_of_length
faiss_backend dims write_error = record {
  add_error = λ vectors.
      if all_of_length dims vectors
      then none
      else some (other "ValueError" "vectors must be (n, dims)");
  save_error = write_error;
}

-- The tables, and the vectors.
pub record Library : Type 0 where
  pub documents : List Document
  pub chunks : List DocumentChunk
  pub embeddings : List EmbeddingRecord
  pub store : InMemoryVectorStore

-- `session.scalar`: the first row, if there is one.
abbrev pub scalar {ℓ} : {A : Type ℓ} → List A → Option A
scalar [] = none
scalar (row ∷ rows) = some row

unfoldable pub get_for_user : (document_id user_id : String) → List Document → Option Document
unfolding keep_if
get_for_user document_id user_id documents =
    scalar (keep_if (λ d. d.document_id == document_id && d.uploader_id == user_id) documents)

-- `BaseRepository.get`
unfoldable pub get_document_by_id : (document_id : String) → List Document → Option Document
unfolding keep_if
get_document_by_id document_id documents =
    scalar (keep_if (λ d. d.document_id == document_id) documents)

unfoldable pub count_for_document : (document_id : String) → List DocumentChunk → ℕ
unfolding keep_if
count_for_document document_id chunks = length (keep_if (λ c. c.document_id == document_id) chunks)

unfoldable pub count_for_user : (user_id : String) → List Document → ℕ
unfolding keep_if
count_for_user user_id documents = length (keep_if (λ d. d.uploader_id == user_id) documents)

abbrev pub delete_chunks : (document_id : String) → List DocumentChunk → List DocumentChunk
delete_chunks document_id chunks = keep_if (λ c. not (c.document_id == document_id)) chunks

abbrev pub delete_embeddings : (document_id : String) → List EmbeddingRecord → List EmbeddingRecord
delete_embeddings document_id rows = keep_if (λ e. not (e.document_id == document_id)) rows

-- `BaseRepository.delete`
abbrev pub delete_document : (document_id : String) → List Document → List Document
delete_document document_id documents = keep_if (λ d. not (d.document_id == document_id)) documents

-- `mark_failed` of the repository, on the row.
abbrev pub failed : (error : String) → ℕ → Document → Document
failed error completed_at document = record document {
  status = "failed";
  error = some error;
  completed_at = some completed_at;
}

-- f"{document_id}:"
abbrev pub prefix_of : String → String
prefix_of document_id = document_id <> ":"

unfoldable pub get_document : (user_id document_id : String) → Library → Result Document
unfolding get_for_user raise_insight
get_document user_id document_id library =
    elim (get_for_user document_id user_id library.documents) [
      | none ↦ err (raise_insight not_found "Document not found")
      | some document ↦ ok document
    ]

unfoldable pub chunk_count : (user_id document_id : String) → Library → Result ℕ
unfolding get_document count_for_document
chunk_count user_id document_id library = get_document user_id document_id library >>= λ document.
    ok (count_for_document document_id library.chunks)

-- The vectors of a document leave the store.
abbrev pub drop_vectors : (document_id : String) → Library → Library
drop_vectors document_id library = record library {
  store = memory_delete_by_prefix (prefix_of document_id) library.store;
}

-- `delete` behind the look-up.
unfoldable pub purge : (document_id : String) → Library → Library
unfolding memory_delete_by_prefix keep_if
purge document_id library = record {
  documents = delete_document document_id library.documents;
  chunks = delete_chunks document_id library.chunks;
  embeddings = delete_embeddings document_id library.embeddings;
  store = memory_delete_by_prefix (prefix_of document_id) library.store;
}

-- The store is saved before the rows are deleted.
unfoldable pub delete :
    VectorBackend → (user_id document_id : String) → Library → Result (Unit {0}) × Library
unfolding get_document purge memory_delete_by_prefix
delete backend user_id document_id library = elim (get_document user_id document_id library) [
  | err e ↦ (err e, library)
  | ok document ↦ elim backend.save_error [
    | some e ↦ (err e, drop_vectors document_id library)
    | none ↦ (ok tt, purge document_id library)
  ]
]

-- `_mark_failed`, with what it raises
unfoldable pub mark_failed :
    VectorBackend → (document_id error : String) → ℕ → Library → Option Exn × Library
unfolding memory_delete_by_prefix
mark_failed backend document_id error completed_at library =
    let dropped = drop_vectors document_id library in
    elim backend.save_error [
      | some e ↦ (some e, dropped)
      | none ↦ (
        none,
        record dropped {
          documents =
              map (λ d. if d.document_id == document_id then failed error completed_at d else d)
                library.documents;
        },
      )
    ]

keep_if-map-purged :
    (q : String → Bool) (pairs : List (String × Vector))
    → keep_if q (map (λ (i, v). i) (keep_if (λ (i, v). not (q i)) pairs)) ≡ []
unfolding keep_if
keep_if-map-purged q [] = refl
keep_if-map-purged q ((i, v) ∷ pairs) = ground (arith, keep_if-map-purged q pairs)

-- No vector of the document is left.
abbrev pub HasNoVectors : String → InMemoryVectorStore → Type 0
HasNoVectors document_id store = keep_if (starts_with (prefix_of document_id)) store.ids ≡ []

pub memory_delete_by_prefix-HasNoVectors :
    (document_id : String) (store : InMemoryVectorStore)
    → HasNoVectors document_id (memory_delete_by_prefix (prefix_of document_id) store)
unfolding memory_delete_by_prefix memory_delete
memory_delete_by_prefix-HasNoVectors document_id store =
    rw (purged (prefix_of document_id) store.ids store.vectors)
      (keep_if-map-purged (starts_with (prefix_of document_id)) (zip store.ids store.vectors))
