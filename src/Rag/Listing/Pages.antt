-- ===== src/Rag/Listing/Pages.antt =====
-- What a page of a user's documents shows.
use research_assistant.Base.{
  ℕ, zero, suc, ◌≤◌, ◌≡◌, refl, String, Bool, true, false, List, [], ◌∷◌, arith, map, keep_if,
  length, take, All, All-take, length-take-le, mem, Dict, ltb, ◌==◌, string_eq, beq_refl,
  if◌then◌else◌,
}
use research_assistant.Rag.Tables.{Document}
use research_assistant.Rag.Documents.{Library, count_for_document, count_for_user}
use research_assistant.Rag.Listing.{
  insert_newest, newest_first, drop, list_for_user, counts_for_documents, list_documents,
  count_or_zero, count_or_zero-counts_for_documents,
}

-- A page of a user's documents: every one is the user's, there are at most `limit` of them, and the
-- number shown with each is the number of its chunks.
pub record IsPage (user_id : String) (limit : ℕ) (library : Library)
    (page : List Document × ℕ × Dict String ℕ) : Type 0 where
  pub own : All (λ d. (d.uploader_id == user_id) ≡ true) page.0
  pub few : length page.0 ≤ limit
  pub total : page.1 ≡ count_for_user user_id library.documents
  pub counted :
      All
        (λ d. count_or_zero d.document_id page.2 ≡ count_for_document d.document_id library.chunks)
        page.0

All-insert_newest :
    (P : Document → Type 0) (d : Document) (documents : List Document)
    → P d
    → All P documents
    → All P (insert_newest d documents)
unfolding insert_newest
All-insert_newest P d [] p h = (p, tt)
All-insert_newest P d (next ∷ rest) p h =
    go (ltb d.created_at next.created_at) (All-insert_newest P d rest p h.1)
  where
    go :
        (b : Bool)
        → All P (insert_newest d rest)
        → All P (if b then next ∷ insert_newest d rest else d ∷ next ∷ rest)
    go true later = (h.0, later)
    go false later = (p, h)

All-newest_first :
    (P : Document → Type 0) (documents : List Document)
    → All P documents
    → All P (newest_first documents)
unfolding newest_first
All-newest_first P [] h = tt
All-newest_first P (d ∷ documents) h =
    All-insert_newest P d (newest_first documents) h.0 (All-newest_first P documents h.1)

All-drop {ℓ} : {A : Type ℓ} (P : A → Type 0) (n : ℕ) (xs : List A) → All P xs → All P (drop n xs)
unfolding drop
All-drop P zero xs h = h
All-drop P (suc n) [] h = tt
All-drop P (suc n) (x ∷ xs) h = All-drop P n xs h.1

All-keep_if_holds {ℓ} :
    {A : Type ℓ} (p : A → Bool) (xs : List A) → All (λ x. p x ≡ true) (keep_if p xs)
unfolding keep_if
All-keep_if_holds p [] = tt
All-keep_if_holds p (x ∷ xs) = go (p x) refl (All-keep_if_holds p xs)
  where
    go :
        (b : Bool)
        → p x ≡ b
        → All (λ y. p y ≡ true) (keep_if p xs)
        → All (λ y. p y ≡ true) (if b then x ∷ keep_if p xs else keep_if p xs)
    go true e rest = (e, rest)
    go false e rest = rest

-- What holds at each document of a list whose id is in the list of their ids.
All-document_id :
    (P : String → Type 0) (documents : List Document)
    → ((i : String) → mem i (map (λ d. d.document_id) documents) ≡ true → P i)
    → All (λ d. P d.document_id) documents
unfolding mem
All-document_id P [] h = tt
All-document_id P (d ∷ documents) h = (
  h d.document_id (ground (arith, beq_refl d.document_id)),
  All-document_id P documents λ i m. h i (ground (arith, m)),
)

-- A page of the list holds documents of the user only and at most `limit` of them, tells the number of
-- all of them, and shows with each document the number of its chunks that `chunk_count` gives.
pub list_documents-IsPage :
    (user_id : String) (skip limit : ℕ) (library : Library)
    → IsPage user_id limit library (list_documents user_id skip limit library)
unfolding list_documents list_for_user
list_documents-IsPage user_id skip limit library =
    let own = keep_if (λ d. d.uploader_id == user_id) library.documents in
    let behind = drop skip (newest_first own) in
    record {
      own =
          All-take (λ d. (d.uploader_id == user_id) ≡ true) limit behind
            (All-drop (λ d. (d.uploader_id == user_id) ≡ true) skip (newest_first own)
              (All-newest_first (λ d. (d.uploader_id == user_id) ≡ true) own
                (All-keep_if_holds (λ d. d.uploader_id == user_id) library.documents)));
      few = length-take-le limit behind;
      total = refl;
      counted =
          All-document_id
            (λ i.
              count_or_zero i
                (counts_for_documents (map (λ d. d.document_id) (take limit behind)) library.chunks)
              ≡ count_for_document i library.chunks)
            (take limit behind)
            λ i m.
              count_or_zero-counts_for_documents i (map (λ d. d.document_id) (take limit behind))
                library.chunks m;
    }
