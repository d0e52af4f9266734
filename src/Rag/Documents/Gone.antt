-- ===== src/Rag/Documents/Gone.antt =====
-- What `delete` leaves of a document.
use research_assistant.Base.{
  ◌≡◌, refl, ap, subst, String, Bool, true, false, Option, none, some, List, [], ◌∷◌, arith, not,
  ◌&&◌, keep_if, length, ◌==◌, string_eq, eq_iff, ◌⊎◌, inl, inr,
}
use research_assistant.Core.Errors.{Result, ok, err, Exn}
use research_assistant.Rag.Tables.{Document}
use research_assistant.Rag.Documents.{
  Library, VectorBackend, scalar, get_for_user, get_document, count_for_document, drop_vectors,
  purge, delete, HasNoVectors, memory_delete_by_prefix-HasNoVectors,
}

keep_if-keep_if-not {ℓ} :
    {A : Type ℓ} (p : A → Bool) (xs : List A) → keep_if p (keep_if (λ x. not (p x)) xs) ≡ []
unfolding keep_if
keep_if-keep_if-not p [] = refl
keep_if-keep_if-not p (x ∷ xs) = ground (arith, keep_if-keep_if-not p xs)

keep_if-keep_if_wider {ℓ} :
    {A : Type ℓ} (p q : A → Bool)
    → ((x : A) → p x ≡ true → q x ≡ true)
    → (xs : List A) → keep_if p (keep_if q xs) ≡ keep_if p xs
unfolding keep_if
keep_if-keep_if_wider p q wider [] = refl
keep_if-keep_if_wider p q wider (x ∷ xs) =
    ground (arith, wider x, keep_if-keep_if_wider p q wider xs)

-- No row, chunk, embedding or vector of the document is left, and every other document is found as
-- before, with as many chunks.
pub record IsGone (document_id : String) (before behind : Library) : Type 0 where
  pub no_document : keep_if (λ d. d.document_id == document_id) behind.documents ≡ []
  pub no_chunks : count_for_document document_id behind.chunks ≡ 0
  pub no_embeddings : keep_if (λ e. e.document_id == document_id) behind.embeddings ≡ []
  pub no_vectors : HasNoVectors document_id behind.store
  pub others_found :
      (other_id user_id : String)
      → (other_id == document_id) ≡ false
      → get_for_user other_id user_id behind.documents
        ≡ get_for_user other_id user_id before.documents
  pub others_counted :
      (other_id : String)
      → (other_id == document_id) ≡ false
      → count_for_document other_id behind.chunks ≡ count_for_document other_id before.chunks

purge-IsGone :
    (document_id : String) (library : Library)
    → IsGone document_id library (purge document_id library)
unfolding purge count_for_document get_for_user
purge-IsGone document_id library = record {
  no_document = keep_if-keep_if-not (λ d. d.document_id == document_id) library.documents;
  no_chunks = ap length (keep_if-keep_if-not (λ c. c.document_id == document_id) library.chunks);
  no_embeddings = keep_if-keep_if-not (λ e. e.document_id == document_id) library.embeddings;
  no_vectors = memory_delete_by_prefix-HasNoVectors document_id library.store;
  others_found = λ other_id user_id apart. ap scalar (
      keep_if-keep_if_wider (λ d. d.document_id == other_id && d.uploader_id == user_id)
        (λ d. not (d.document_id == document_id))
        (λ d own. ground (
          arith,
          own,
          apart,
          eq_iff d.document_id other_id,
          eq_iff other_id document_id,
          eq_iff d.document_id document_id,
        ))
        library.documents);
  others_counted = λ other_id apart. ap length (
      keep_if-keep_if_wider (λ c. c.document_id == other_id)
        (λ c. not (c.document_id == document_id))
        (λ c own. ground (
          arith,
          own,
          apart,
          eq_iff c.document_id other_id,
          eq_iff other_id document_id,
          eq_iff c.document_id document_id,
        ))
        library.chunks);
}

-- All rows are as they were, but the document has no vectors.
pub record IsHalfDeleted (document_id : String) (before behind : Library) : Type 0 where
  pub documents_same : behind.documents ≡ before.documents
  pub chunks_same : behind.chunks ≡ before.chunks
  pub embeddings_same : behind.embeddings ≡ before.embeddings
  pub no_vectors : HasNoVectors document_id behind.store

pub delete-IsGone :
    (backend : VectorBackend) (user_id document_id : String) (library : Library)
    (document : Document)
    → get_document user_id document_id library ≡ ok document
    → ((backend.save_error ≡ none)
        × ((delete backend user_id document_id library).0 ≡ ok tt)
        × IsGone document_id library (delete backend user_id document_id library).1)
      ⊎ ((e : Exn) × (backend.save_error ≡ some e)
          × ((delete backend user_id document_id library).0 ≡ err e)
          × IsHalfDeleted document_id library (delete backend user_id document_id library).1)
unfolding delete
delete-IsGone backend user_id document_id library document found = go backend.save_error refl
  where
    go :
        (o : Option Exn)
        → backend.save_error ≡ o
        → ((backend.save_error ≡ none)
            × ((delete backend user_id document_id library).0 ≡ ok tt)
            × IsGone document_id library (delete backend user_id document_id library).1)
          ⊎ ((e : Exn) × (backend.save_error ≡ some e)
              × ((delete backend user_id document_id library).0 ≡ err e)
              × IsHalfDeleted document_id library (delete backend user_id document_id library).1)
    go none f = inl (
      f,
      ground (arith, found, f),
      subst (IsGone document_id library) {x = purge document_id library} (ground (arith, found, f))
          (purge-IsGone document_id library),
    )
    go (some e) f = inr (
      e,
      f,
      ground (arith, found, f),
      subst (IsHalfDeleted document_id library) {x = drop_vectors document_id library}
          (ground (arith, found, f))
          (record {
            documents_same = refl;
            chunks_same = refl;
            embeddings_same = refl;
            no_vectors = memory_delete_by_prefix-HasNoVectors document_id library.store;
          }),
    )

-- A deletion that succeeds leaves nothing of the document.
pub delete_ok-IsGone :
    (backend : VectorBackend) (user_id document_id : String) (library : Library)
    → (delete backend user_id document_id library).0 ≡ ok tt
    → IsGone document_id library (delete backend user_id document_id library).1
unfolding delete
delete_ok-IsGone backend user_id document_id library done =
    go (get_document user_id document_id library) refl
  where
    go :
        (r : Result Document)
        → get_document user_id document_id library ≡ r
        → IsGone document_id library (delete backend user_id document_id library).1
    go (err e) f = absurd (ground (arith, f, done))
    go (ok document) f = elim (delete-IsGone backend user_id document_id library document f) [
      | inl (_, _, gone) ↦ gone
      | inr (e, _, raised, _) ↦ absurd (ground (arith, raised, done))
    ]
