-- ===== src/Rag/Forgotten.antt =====
-- Retrieval after the deletion of a document.
use research_assistant.Base.{
  ◌≡◌, refl, arith, String, true, false, Option, none, List, [], ◌∷◌, keep_if, All, All-mono,
  eq_iff, ◌==◌, string_eq, Bool-cases, inl, inr, ℤ,
}
use research_assistant.Core.Errors.{ok}
use research_assistant.Core.Float.{FloatOps}
use research_assistant.Rag.Tables.{DocumentChunk}
use research_assistant.Rag.Documents.{Library, VectorBackend, count_for_document, delete}
use research_assistant.Rag.Documents.Gone.{delete_ok-IsGone}
use research_assistant.Rag.Retrieval.{RetrievalService, RetrievalResult, retrieve}
use research_assistant.Rag.Retrieval.Scope.{IsOwn, some_chunk, shows}
use research_assistant.Rag.Retrieval.Answers.{retrieve-IsAnswer}

some_chunk-uncounted :
    (document_id chunk_id shown content : String) (chunks : List DocumentChunk)
    → count_for_document document_id chunks ≡ 0
    → (shown == document_id) ≡ true
    → some_chunk (shows chunk_id shown content) chunks ≡ false
unfolding some_chunk count_for_document keep_if
some_chunk-uncounted document_id chunk_id shown content [] uncounted same = refl
some_chunk-uncounted document_id chunk_id shown content (c ∷ chunks) uncounted same = ground (
  arith,
  uncounted,
  same,
  eq_iff shown document_id,
  eq_iff c.document_id shown,
  eq_iff c.document_id document_id,
  some_chunk-uncounted document_id chunk_id shown content chunks,
)

-- What is deleted is not found again: after a `delete` of a document that succeeds, no retrieval of any
-- user shows a passage of it, whatever ids the search for vectors still gives, provided that no reranker
-- is wired.
pub delete-unseen :
    (F : FloatOps) (service : RetrievalService) (backend : VectorBackend)
    (owner document_id : String) (library : Library)
    → (user_id query : String) (top_k : Option ℤ) (result : RetrievalResult) → service.rerank ≡ none
    → (delete backend owner document_id library).0 ≡ ok tt
    → retrieve F service user_id query top_k
        (delete backend owner document_id library).1.documents
        (delete backend owner document_id library).1.chunks
      ≡ ok result
    → All (λ hit. (hit.document_id == document_id) ≡ false) result.hits
delete-unseen F service backend owner document_id library user_id query top_k result plain deleted
      done =
    let after = (delete backend owner document_id library).1 in
    let gone = delete_ok-IsGone backend owner document_id library deleted in
    let answer =
      retrieve-IsAnswer F service user_id query top_k after.documents after.chunks result plain
        done in
    All-mono (IsOwn user_id after.documents after.chunks)
      (λ hit. (hit.document_id == document_id) ≡ false)
      (λ hit own. elim (Bool-cases (hit.document_id == document_id)) [
        | inr other ↦ other
        | inl same ↦ absurd (
            ground (
              arith,
              own.stored,
              some_chunk-uncounted document_id hit.chunk_id hit.document_id hit.content after.chunks
                  gone.no_chunks same,
            ))
      ])
      result.hits answer.own
