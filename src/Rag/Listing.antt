-- ===== src/Rag/Listing.antt =====
-- A user's documents in pages: `list_for_user` and `counts_for_documents` of
-- backend/app/modules/rag/repositories.py, and `IngestionService.list` of services.py.
pub mod Pages
use research_assistant.Base.{
  ℕ, zero, suc, ◌+◌, ◌≤◌, ◌≡◌, refl, ap, String, Bool, true, false, Option, none, some, List, [],
  ◌∷◌, ◌++◌, arith, map, keep_if, length, take, length-take-le, mem, Dict, get, put, get-put, ltb,
  ◌==◌, string_eq, eq_iff, beq_refl, Bool-cases, inl, inr, if◌then◌else◌,
}
use research_assistant.Rag.Lexical.{count_term, count_terms}
use research_assistant.Rag.Tables.{Document, DocumentChunk}
use research_assistant.Rag.Documents.{Library, count_for_document, count_for_user}

-- `ORDER BY created_at DESC`: the newest first, rows of the same time in the table's order.
unfoldable pub insert_newest : Document → List Document → List Document
insert_newest d [] = d ∷ []
insert_newest d (next ∷ rest) =
    let later = insert_newest d rest in
    if ltb d.created_at next.created_at then next ∷ later else d ∷ next ∷ rest

unfoldable pub newest_first : List Document → List Document
unfolding insert_newest
newest_first [] = []
newest_first (d ∷ documents) = insert_newest d (newest_first documents)

-- `OFFSET`
unfoldable pub drop {ℓ} : {A : Type ℓ} → ℕ → List A → List A
drop zero xs = xs
drop (suc n) [] = []
drop (suc n) (x ∷ xs) = drop n xs

-- `LIMIT`, if there is one
abbrev pub limited {ℓ} : {A : Type ℓ} → Option ℕ → List A → List A
limited none xs = xs
limited (some limit) xs = take limit xs

unfoldable pub list_for_user :
    (user_id : String) → (skip : ℕ) → (limit : Option ℕ) → List Document → List Document
unfolding newest_first drop keep_if take
list_for_user user_id skip limit documents =
    limited limit (drop skip (newest_first (keep_if (λ d. d.uploader_id == user_id) documents)))

unfoldable pub counts_for_documents : List String → List DocumentChunk → Dict String ℕ
unfolding count_terms keep_if mem
counts_for_documents [] chunks = []
counts_for_documents (i ∷ ids) chunks =
    count_terms [] (map (λ c. c.document_id) (keep_if (λ c. mem c.document_id (i ∷ ids)) chunks))

unfoldable pub list_documents :
    (user_id : String) (skip limit : ℕ) → Library → List Document × ℕ × Dict String ℕ
unfolding list_for_user counts_for_documents count_for_user
list_documents user_id skip limit library =
    let documents = list_for_user user_id skip (some limit) library.documents in
    (
      documents,
      count_for_user user_id library.documents,
      counts_for_documents (map (λ d. d.document_id) documents) library.chunks,
    )

take-nil {ℓ} : {A : Type ℓ} (n : ℕ) → take {A = A} n [] ≡ []
unfolding take
take-nil zero = refl
take-nil (suc n) = refl

drop-nil {ℓ} : {A : Type ℓ} (n : ℕ) → drop {A = A} n [] ≡ []
unfolding drop
drop-nil zero = refl
drop-nil (suc n) = refl

take-drop {ℓ} :
    {A : Type ℓ} (m n : ℕ) (xs : List A) → take (m + n) xs ≡ take m xs ++ take n (drop m xs)
unfolding take drop
take-drop zero n xs = ground arith
take-drop (suc m) n [] =
    let longer : suc m + n ≡ suc (m + n) = omega arith in rw (longer, take-nil n) refl
take-drop (suc m) n (x ∷ xs) =
    let longer : suc m + n ≡ suc (m + n) = omega arith in rw (longer, take-drop m n xs) refl

drop-drop {ℓ} : {A : Type ℓ} (m n : ℕ) (xs : List A) → drop (m + n) xs ≡ drop n (drop m xs)
unfolding drop
drop-drop zero n xs = ground arith
drop-drop (suc m) n [] =
    let longer : suc m + n ≡ suc (m + n) = omega arith in rw (longer, drop-nil n) refl
drop-drop (suc m) n (x ∷ xs) =
    let longer : suc m + n ≡ suc (m + n) = omega arith in rw (longer, drop-drop m n xs) refl

-- `counts.get(document_id, 0)`
abbrev pub count_or_zero : String → Dict String ℕ → ℕ
count_or_zero i counts = elim (get i counts) [ none ↦ 0 | some n ↦ n ]

count_or_zero-count_term :
    (i term : String) (df : Dict String ℕ)
    → count_or_zero i (count_term df term) ≡ (if term == i then 1 else 0) + count_or_zero i df
unfolding count_term
count_or_zero-count_term i term df = go (get term df) refl
  where
    go :
        (o : Option ℕ)
        → get term df ≡ o
        → count_or_zero i (count_term df term) ≡ (if term == i then 1 else 0) + count_or_zero i df
    go none e = ground (arith, e, get-put term i 1 df, eq_iff term i)
    go (some n) e = ground (arith, e, get-put term i (n + 1) df, eq_iff term i)

count_or_zero-count_terms :
    (i : String) (df : Dict String ℕ) (terms : List String)
    → count_or_zero i (count_terms df terms)
      ≡ length (keep_if (λ t. t == i) terms) + count_or_zero i df
unfolding count_terms keep_if
count_or_zero-count_terms i df [] = omega arith
count_or_zero-count_terms i df (term ∷ terms) = ground (
  arith,
  count_or_zero-count_term i term df,
  count_or_zero-count_terms i (count_term df term) terms,
)

length-keep_if-wanted :
    (i : String) (ids : List String) (chunks : List DocumentChunk)
    → mem i ids ≡ true
    → length (
        keep_if
          (λ t. t == i)
          (map (λ c. c.document_id) (keep_if (λ c. mem c.document_id ids) chunks)))
      ≡ count_for_document i chunks
unfolding keep_if count_for_document
length-keep_if-wanted i ids [] m = refl
length-keep_if-wanted i ids (c ∷ chunks) m =
    ground (arith, m, eq_iff c.document_id i, length-keep_if-wanted i ids chunks m)

-- The count that a list of documents shows for one of them is the number that `chunk_count` gives.
pub count_or_zero-counts_for_documents :
    (i : String) (ids : List String) (chunks : List DocumentChunk)
    → mem i ids ≡ true
    → count_or_zero i (counts_for_documents ids chunks) ≡ count_for_document i chunks
unfolding counts_for_documents get
count_or_zero-counts_for_documents i [] chunks m = absurd (ground (arith, m))
count_or_zero-counts_for_documents i (j ∷ ids) chunks m = omega (
  arith,
  count_or_zero-count_terms i []
      (map (λ c. c.document_id) (keep_if (λ c. mem c.document_id (j ∷ ids)) chunks)),
  length-keep_if-wanted i (j ∷ ids) chunks m,
)

-- Pages join without a gap: the first `m` documents behind an offset and the `n` behind those are the
-- first `m + n`.
pub list_for_user-pages :
    (user_id : String) (skip m n : ℕ) (documents : List Document)
    → list_for_user user_id skip (some (m + n)) documents
      ≡ list_for_user user_id skip (some m) documents
        ++ list_for_user user_id (skip + m) (some n) documents
unfolding list_for_user
list_for_user-pages user_id skip m n documents =
    let all = newest_first (keep_if (λ d. d.uploader_id == user_id) documents) in
    rw (take-drop m n (drop skip all), drop-drop skip m all) refl
