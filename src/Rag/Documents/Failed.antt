-- ===== src/Rag/Documents/Failed.antt =====
-- What `_mark_failed` leaves of a document.
use research_assistant.Base.{
  ℕ, ◌≡◌, refl, String, Bool, true, false, none, List, [], ◌∷◌, arith, not, ◌&&◌, map, keep_if,
  ◌==◌, beq_refl, string_eq, if◌then◌else◌,
}
use research_assistant.Rag.Tables.{Document}
use research_assistant.Rag.Documents.{
  Library, VectorBackend, failed, mark_failed, HasNoVectors, memory_delete_by_prefix-HasNoVectors,
}

-- The rows of the document that do not say that it failed.
abbrev pub unfailed : String → Document → Bool
unfailed document_id d = d.document_id == document_id && not (d.status == "failed")

unfailed_row :
    (document_id error : String) (at : ℕ) (d : Document) (b : Bool)
    → (d.document_id == document_id) ≡ b
    → unfailed document_id (if b then failed error at d else d) ≡ false
unfailed_row document_id error at d true e = ground (arith, e, beq_refl {A = String} "failed")
unfailed_row document_id error at d false e = ground (arith, e)

keep_if_out {ℓ} :
    {A : Type ℓ} (p : A → Bool) (x : A) (xs : List A)
    → p x ≡ false
    → keep_if p xs ≡ []
    → keep_if p (x ∷ xs) ≡ []
unfolding keep_if
keep_if_out p x xs out rest = ground (arith, out, rest)

unfailed-map :
    (document_id error : String) (at : ℕ) (documents : List Document)
    → keep_if
        (unfailed document_id)
        (map (λ d. if d.document_id == document_id then failed error at d else d) documents)
      ≡ []
unfolding keep_if
unfailed-map document_id error at [] = refl
unfailed-map document_id error at (d ∷ documents) =
    keep_if_out (unfailed document_id)
      (if d.document_id == document_id then failed error at d else d) _
      (unfailed_row document_id error at d (d.document_id == document_id) refl)
      (unfailed-map document_id error at documents)

-- A failure of ingestion leaves no orphans: after `_mark_failed`, if the store can be saved, no vector of
-- the document is in the store, and no row of the document says anything but "failed".
pub mark_failed-unfailed :
    (backend : VectorBackend) (document_id error : String) (at : ℕ) (library : Library)
    → backend.save_error ≡ none
    → HasNoVectors document_id (mark_failed backend document_id error at library).1.store
      × (keep_if
            (unfailed document_id)
            (mark_failed backend document_id error at library).1.documents
          ≡ [])
unfolding mark_failed
mark_failed-unfailed backend document_id error at library saves = (
  rw (mark_failed, saves) (memory_delete_by_prefix-HasNoVectors document_id library.store),
  rw (mark_failed, saves) (unfailed-map document_id error at library.documents),
)
