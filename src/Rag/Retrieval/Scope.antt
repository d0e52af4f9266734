-- ===== src/Rag/Retrieval/Scope.antt =====
-- What a retrieval may show: passages of the user's own documents, and no more than asked for.
use research_assistant.Base.{
  ◌≡◌, refl, subst, String, Bool, true, false, Option, none, some, List, [], ◌∷◌, ◌&&◌, ◌||◌, arith,
  map, keep_if, mem, Dict, get, put, keys, values, get_absent, mem-keys-put, All, All-mono, ◌==◌,
  string_eq, beq_refl, Bool-cases, inl, inr, ℤ,
}
use research_assistant.Core.Float.{Float, FloatOps}
use research_assistant.Rag.Citations.{RetrievalHit}
use research_assistant.Rag.Tables.{Document, DocumentChunk, get_many, get_many_for_user}
use research_assistant.Rag.Retrieval.{
  RetrievalService, parse_chunk_ids, score_chunks, document_names, add_hit, dense_hit,
  hits_by_chunk, ordered_hits, oversampled, limit_of, candidates,
}

abbrev pub document_ids : List Document → List String
document_ids documents = map (λ d. d.document_id) documents

unfoldable pub some_chunk : (DocumentChunk → Bool) → List DocumentChunk → Bool
some_chunk p [] = false
some_chunk p (chunk ∷ chunks) = p chunk || some_chunk p chunks

abbrev pub shows : (chunk_id document_id content : String) → DocumentChunk → Bool
shows chunk_id document_id content chunk =
    chunk.chunk_id == chunk_id && (chunk.document_id == document_id && chunk.content == content)

-- The hit shows a stored chunk, and its document is the user's.
pub record IsOwn (user_id : String) (documents : List Document) (chunks : List DocumentChunk)
    (hit : RetrievalHit) : Type 0 where
  pub of_user :
      mem hit.document_id (document_ids (keep_if (λ d. d.uploader_id == user_id) documents)) ≡ true
  pub stored : some_chunk (shows hit.chunk_id hit.document_id hit.content) chunks ≡ true

mem-document_names :
    (d : String) (names : Dict String String) (documents : List Document)
    → mem d (keys (document_names names documents)) ≡ true
    → (mem d (keys names) || mem d (document_ids documents)) ≡ true
unfolding document_names mem
mem-document_names d names [] m = ground (arith, m)
mem-document_names d names (x ∷ documents) m = ground (
  arith,
  mem-document_names d (put x.document_id x.name names) documents m,
  mem-keys-put d x.document_id x.name names,
)

mem-keys_of_get :
    (d n : String) (names : Dict String String) → get d names ≡ some n → mem d (keys names) ≡ true
mem-keys_of_get d n names found = elim (Bool-cases (mem d (keys names))) [
  | inl there ↦ there
  | inr absent ↦ absurd (ground (arith, found, get_absent d names absent))
]

mem-get_many_for_user :
    (d user_id : String) (wanted : List String) (documents : List Document)
    → mem d (document_ids (get_many_for_user wanted user_id documents)) ≡ true
    → mem d (document_ids (keep_if (λ x. x.uploader_id == user_id) documents)) ≡ true
unfolding get_many_for_user keep_if mem
mem-get_many_for_user d user_id wanted [] m = ground (arith, m)
mem-get_many_for_user d user_id wanted (x ∷ documents) m =
    ground (arith, m, mem-get_many_for_user d user_id wanted documents)

All-values-put {ℓ} :
    {V : Type ℓ} (P : V → Type 0) (k : String) (v : V) (d : Dict String V)
    → P v
    → All P (values d)
    → All P (values (put k v d))
unfolding put
All-values-put P k v [] p h = (p, tt)
All-values-put P k v ((j, w) ∷ d) p h = elim (Bool-cases (j == k)) [
  | inl same ↦ rw same (p, h.1)
  | inr other ↦ rw other (h.0, All-values-put P k v d p h.1)
]

All-of_get {ℓ} :
    {V : Type ℓ} (P : V → Type 0) (k : String) (d : Dict String V) (v : V)
    → get k d ≡ some v
    → All P (values d)
    → P v
unfolding get
All-of_get P k [] v found h = absurd (ground (arith, found))
All-of_get P k ((j, w) ∷ d) v found h = elim (Bool-cases (j == k)) [
  | inl same ↦ subst P (ground (arith, found, same)) h.0
  | inr other ↦ All-of_get P k d v (ground (arith, found, other)) h.1
]

All-ordered_hits :
    (P : RetrievalHit → Type 0) (by_chunk : Dict String RetrievalHit) (chunk_ids : List String)
    → All P (values by_chunk)
    → All P (ordered_hits by_chunk chunk_ids)
unfolding ordered_hits
All-ordered_hits P by_chunk [] h = tt
All-ordered_hits P by_chunk (chunk_id ∷ chunk_ids) h =
    go (get chunk_id by_chunk) refl (All-ordered_hits P by_chunk chunk_ids h)
  where
    go :
        (o : Option RetrievalHit)
        → get chunk_id by_chunk ≡ o
        → All P (ordered_hits by_chunk chunk_ids)
        → All P (ordered_hits by_chunk (chunk_id ∷ chunk_ids))
    go none e rest = subst (All P) (ground (arith, e)) rest
    go (some hit) e rest =
        let both : All P (hit ∷ ordered_hits by_chunk chunk_ids) =
          (All-of_get P chunk_id by_chunk hit e h, rest) in
        subst (All P) {x = hit ∷ ordered_hits by_chunk chunk_ids} (ground (arith, e)) both

-- The hits that the loop over the chunks files satisfy what each chunk with a name does.
All-add_hit :
    (P : RetrievalHit → Type 0) (z : Float) (scores : Dict String Float)
    (names : Dict String String)
    → (chunk : DocumentChunk) (by_chunk : Dict String RetrievalHit)
    → ((x : Float) (n : String) → get chunk.document_id names ≡ some n → P (dense_hit chunk n x z))
    → All P (values by_chunk)
    → All P (values (add_hit z scores names chunk by_chunk))
unfolding add_hit
All-add_hit P z scores names chunk by_chunk p h =
    go (get chunk.chunk_id scores) (get chunk.document_id names) refl refl
  where
    go :
        (o : Option Float) (u : Option String)
        → get chunk.chunk_id scores ≡ o
        → get chunk.document_id names ≡ u
        → All P (values (add_hit z scores names chunk by_chunk))
    go none u e f =
        let same : by_chunk ≡ add_hit z scores names chunk by_chunk = ground (arith, e) in
        subst (λ d. All P (values d)) same h
    go (some x) none e f =
        let same : by_chunk ≡ add_hit z scores names chunk by_chunk = ground (arith, e, f) in
        subst (λ d. All P (values d)) same h
    go (some x) (some n) e f =
        let hit = dense_hit chunk n x z in
        let same : put chunk.chunk_id hit by_chunk ≡ add_hit z scores names chunk by_chunk =
          ground (arith, e, f) in
        subst (λ d. All P (values d)) same
          (All-values-put P chunk.chunk_id hit by_chunk (p x n f) h)

All-hits_by_chunk :
    (P : RetrievalHit → Type 0) (z : Float) (scores : Dict String Float)
    (names : Dict String String)
    → (chunks : List DocumentChunk) (by_chunk : Dict String RetrievalHit)
    → All
        (λ chunk.
          (x : Float) (n : String)
          → get chunk.document_id names ≡ some n
          → P (dense_hit chunk n x z))
        chunks
    → All P (values by_chunk)
    → All P (values (hits_by_chunk z scores names chunks by_chunk))
unfolding hits_by_chunk
All-hits_by_chunk P z scores names [] by_chunk p h = h
All-hits_by_chunk P z scores names (chunk ∷ chunks) by_chunk p h =
    All-hits_by_chunk P z scores names chunks (add_hit z scores names chunk by_chunk) p.1
      (All-add_hit P z scores names chunk by_chunk p.0 h)

shows_self :
    (chunk : DocumentChunk) → shows chunk.chunk_id chunk.document_id chunk.content chunk ≡ true
shows_self chunk =
    ground (arith, beq_refl chunk.chunk_id, beq_refl chunk.document_id, beq_refl chunk.content)

-- Each chunk of a table is stored in it.
stored_in :
    (table xs : List DocumentChunk)
    → ((p : DocumentChunk → Bool) → some_chunk p xs ≡ true → some_chunk p table ≡ true)
    → All (λ c. some_chunk (shows c.chunk_id c.document_id c.content) table ≡ true) xs
unfolding some_chunk
stored_in table [] more = tt
stored_in table (c ∷ xs) more = (
  more (shows c.chunk_id c.document_id c.content) (ground (arith, shows_self c)),
  stored_in table xs λ p m. more p (ground (arith, m)),
)

All-keep_if {ℓ} :
    {A : Type ℓ} (P : A → Type 0) (q : A → Bool) (xs : List A) → All P xs → All P (keep_if q xs)
unfolding keep_if
All-keep_if P q [] h = tt
All-keep_if P q (x ∷ xs) h = go (q x) refl (All-keep_if P q xs h.1)
  where
    go : (t : Bool) → q x ≡ t → All P (keep_if q xs) → All P (keep_if q (x ∷ xs))
    go true e rest =
        let both : All P (x ∷ keep_if q xs) = (h.0, rest) in
        subst (All P) {x = x ∷ keep_if q xs} (ground (arith, e)) both
    go false e rest = subst (All P) (ground (arith, e)) rest

module _ (F : FloatOps) (service : RetrievalService) where
  pub candidates-IsOwn :
      (user_id query : String) (top_k : Option ℤ) (documents : List Document)
      → (table : List DocumentChunk)
      → All
          (IsOwn user_id documents table)
          (candidates F service user_id query top_k documents table)
  unfolding candidates get_many
  candidates-IsOwn user_id query top_k documents table =
      let dense_hits =
        service.search (service.embed (service.rewrite query))
          (oversampled (limit_of F service top_k) service.dense_oversample) in
      let chunk_ids = parse_chunk_ids service.parse_uuid dense_hits in
      let chunks = get_many chunk_ids table in
      let owned = get_many_for_user (map (λ c. c.document_id) chunks) user_id documents in
      let names = document_names [] owned in
      let scores = score_chunks [] dense_hits chunk_ids in
      All-ordered_hits (IsOwn user_id documents table)
        (hits_by_chunk F.zero_float scores names chunks []) chunk_ids
        (All-hits_by_chunk (IsOwn user_id documents table) F.zero_float scores names chunks []
          (All-mono (λ c. some_chunk (shows c.chunk_id c.document_id c.content) table ≡ true)
            (λ c.
              (x : Float) (n : String)
              → get c.document_id names ≡ some n
              → IsOwn user_id documents table (dense_hit c n x F.zero_float))
            (λ c there x n named. record {
              of_user =
                  mem-get_many_for_user c.document_id user_id (map (λ k. k.document_id) chunks)
                    documents
                    (mem-document_names c.document_id [] owned
                      (mem-keys_of_get c.document_id n names named));
              stored = there;
            })
            chunks
            (All-keep_if (λ c. some_chunk (shows c.chunk_id c.document_id c.content) table ≡ true)
              (λ c. mem c.chunk_id chunk_ids) table (stored_in table table λ p m. m)))
          tt)
