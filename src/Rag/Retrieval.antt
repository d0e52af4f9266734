-- ===== src/Rag/Retrieval.antt =====
-- `RetrievalService` and `_parse_chunk_id` of backend/app/modules/rag/retrieval.py. The rewriter, the
-- embedder, the vector store and the reranker are ports of the service.
pub mod Scope
pub mod Answers
use Prim.Native.Char.{Char, code}
use research_assistant.Base.{
  ℕ, zero, suc, ◌+◌, ◌-◌, ◌*◌, String, Bool, true, false, Option, none, some, List, [], ◌∷◌, map,
  keep_if, length, take, mem, Dict, get, put, keys, eqb, ◌==◌, string_eq, if◌then◌else◌, ℤ, pos,
  negsuc,
}
use research_assistant.Core.Errors.{Result, ok, err, ◌>>=◌}
use research_assistant.Core.Float.{Float, FloatOps}
use research_assistant.Rag.Citations.{RetrievalHit, Citation, build}
use research_assistant.Rag.Lexical.{fit, score, normalize}
use research_assistant.Rag.Tables.{Document, DocumentChunk, get_many, get_many_for_user}

pub record VectorHit : Type 0 where
  pub vector_id : String
  pub score : Float

pub record RetrievalResult : Type 0 where
  pub query : String
  pub rewritten_query : String
  pub hits : List RetrievalHit
  pub citations : List Citation

-- What the service is built with. `parse_uuid` and `terms_of` are functions of the libraries.
pub record RetrievalService : Type 0 where
  pub rewrite : String → String
  pub embed : String → List Float
  pub search : List Float → ℤ → List VectorHit
  pub rerank : Option (String → List RetrievalHit → ℤ → List RetrievalHit)
  pub default_top_k : ℤ
  pub dense_oversample : ℕ
  pub dense_weight : Float
  pub lexical_weight : Float
  pub parse_uuid : String → Option String
  pub terms_of : String → List String
  pub half : Float
  pub k1 : Float
  pub b : Float

-- `text.split(":", 1)[1]`; none for an IndexError.
unfoldable pub after_colon : String → Option String
after_colon String.[] = none
after_colon (String.◌∷◌ c s) = let rest = after_colon s in if eqb (code c) 58 then some s else rest

-- `_parse_chunk_id`
unfoldable pub parse_chunk_id : (String → Option String) → String → Option String
unfolding after_colon
parse_chunk_id parse_uuid vector_id = elim (after_colon vector_id) [
  | none ↦ none
  | some text ↦ parse_uuid text
]

unfoldable pub parse_chunk_ids : (String → Option String) → List VectorHit → List String
unfolding parse_chunk_id
parse_chunk_ids parse_uuid [] = []
parse_chunk_ids parse_uuid (hit ∷ hits) =
    let rest = parse_chunk_ids parse_uuid hits in
    elim (parse_chunk_id parse_uuid hit.vector_id) [ none ↦ rest | some chunk_id ↦ chunk_id ∷ rest ]

-- The loop over `zip(dense_hits, chunk_ids)`.
unfoldable pub score_chunks : Dict String Float → List VectorHit → List String → Dict String Float
score_chunks scores [] chunk_ids = scores
score_chunks scores (hit ∷ hits) [] = scores
score_chunks scores (hit ∷ hits) (chunk_id ∷ chunk_ids) =
    score_chunks (put chunk_id hit.score scores) hits chunk_ids

abbrev pub dense_hit : DocumentChunk → String → Float → Float → RetrievalHit
dense_hit chunk name dense_score zero_score = record {
  chunk_id = chunk.chunk_id;
  document_id = chunk.document_id;
  document_name = name;
  content = chunk.content;
  score = dense_score;
  page = chunk.page;
  heading = chunk.heading;
  bm25_score = zero_score;
  fused_score = zero_score;
}

-- `doc_names`
unfoldable pub document_names : Dict String String → List Document → Dict String String
document_names names [] = names
document_names names (document ∷ documents) =
    document_names (put document.document_id document.name names) documents

-- The body of the loop over the chunks.
unfoldable pub add_hit :
    Float
    → Dict String Float
    → Dict String String
    → DocumentChunk
    → Dict String RetrievalHit
    → Dict String RetrievalHit
add_hit zero_score scores names chunk by_chunk = elim (get chunk.chunk_id scores) [
  | none ↦ by_chunk
  | some dense_score ↦ elim (get chunk.document_id names) [
    | none ↦ by_chunk
    | some name ↦ put chunk.chunk_id (dense_hit chunk name dense_score zero_score) by_chunk
  ]
]

unfoldable pub hits_by_chunk :
    Float
    → Dict String Float
    → Dict String String
    → List DocumentChunk
    → Dict String RetrievalHit
    → Dict String RetrievalHit
unfolding add_hit
hits_by_chunk zero_score scores names [] by_chunk = by_chunk
hits_by_chunk zero_score scores names (chunk ∷ chunks) by_chunk =
    hits_by_chunk zero_score scores names chunks (add_hit zero_score scores names chunk by_chunk)

-- `[by_chunk[chunk_id] for chunk_id in chunk_ids if chunk_id in by_chunk]`
unfoldable pub ordered_hits : Dict String RetrievalHit → List String → List RetrievalHit
ordered_hits by_chunk [] = []
ordered_hits by_chunk (chunk_id ∷ chunk_ids) =
    let rest = ordered_hits by_chunk chunk_ids in
    elim (get chunk_id by_chunk) [ none ↦ rest | some hit ↦ hit ∷ rest ]

-- `xs[:k]`, which for a negative k leaves out the last items.
unfoldable pub first_items {ℓ} : {A : Type ℓ} → ℤ → List A → List A
first_items (pos n) xs = take n xs
first_items (negsuc n) xs = take (length xs - suc n) xs

abbrev pub oversampled : ℤ → ℕ → ℤ
oversampled (pos k) factor = pos (k * factor)
oversampled (negsuc k) zero = pos 0
oversampled (negsuc k) (suc factor) = negsuc (suc k * suc factor - 1)

module _ (F : FloatOps) (service : RetrievalService) where
  -- `top_k or self._top_k`
  unfoldable pub limit_of : Option ℤ → ℤ
  limit_of none = service.default_top_k
  limit_of (some (pos zero)) = service.default_top_k
  limit_of (some (pos (suc k))) = pos (suc k)
  limit_of (some (negsuc k)) = negsuc k

  -- The loop over `zip(ordered, dense_norm, lexical_norm)`.
  unfoldable pub fuse : List RetrievalHit → (dense lexical : List Float) → List RetrievalHit
  fuse [] dense lexical = []
  fuse (hit ∷ hits) [] lexical = []
  fuse (hit ∷ hits) (d ∷ dense) [] = []
  fuse (hit ∷ hits) (d ∷ dense) (l ∷ lexical) =
      record hit {
        bm25_score = l;
        fused_score = F.plus (F.times service.dense_weight d) (F.times service.lexical_weight l);
      }
      ∷ fuse hits dense lexical

  -- `sorted(..., key=fused_score, reverse=True)`, which keeps the order of hits with equal scores.
  unfoldable pub insert_hit : RetrievalHit → List RetrievalHit → List RetrievalHit
  insert_hit hit [] = hit ∷ []
  insert_hit hit (next ∷ hits) =
      let later = insert_hit hit hits in
      if F.lt hit.fused_score next.fused_score then next ∷ later else hit ∷ next ∷ hits

  unfoldable pub sort_hits : List RetrievalHit → List RetrievalHit
  unfolding insert_hit
  sort_hits [] = []
  sort_hits (hit ∷ hits) = insert_hit hit (sort_hits hits)

  unfoldable pub rerank_or_keep : String → ℤ → List RetrievalHit → List RetrievalHit
  rerank_or_keep query limit ranked = elim service.rerank [
    | none ↦ ranked
    | some rerank ↦ rerank query ranked limit
  ]

  -- `retrieve` up to the list `ordered`.
  unfoldable pub candidates :
      (user_id query : String) → Option ℤ → List Document → List DocumentChunk → List RetrievalHit
  unfolding parse_chunk_ids get_many get_many_for_user score_chunks document_names hits_by_chunk
      ordered_hits limit_of
  candidates user_id query top_k documents chunk_table =
      let vector = service.embed (service.rewrite query) in
      let dense_hits =
        service.search vector (oversampled (limit_of top_k) service.dense_oversample) in
      let chunk_ids = parse_chunk_ids service.parse_uuid dense_hits in
      let chunks = get_many chunk_ids chunk_table in
      let owned = get_many_for_user (map (λ c. c.document_id) chunks) user_id documents in
      let scores = score_chunks [] dense_hits chunk_ids in
      ordered_hits (hits_by_chunk F.zero_float scores (document_names [] owned) chunks []) chunk_ids

  -- The end of `retrieve`, from the two lists of scores.
  unfoldable pub rank :
      (query : String) → Option ℤ → List RetrievalHit → List Float → RetrievalResult
  unfolding fuse sort_hits rerank_or_keep first_items limit_of build normalize
  rank query top_k ordered lexical =
      let dense =
        normalize F service.terms_of service.half service.k1 service.b
          (map (λ h. h.score) ordered) in
      let ranked =
        first_items (limit_of top_k)
          (rerank_or_keep query (limit_of top_k) (sort_hits (fuse ordered dense lexical))) in
      record {
        query = query;
        rewritten_query = service.rewrite query;
        hits = ranked;
        citations = build ranked;
      }

  unfoldable pub retrieve :
      (user_id query : String)
      → Option ℤ
      → List Document
      → List DocumentChunk
      → Result RetrievalResult
  unfolding candidates rank fit score
  retrieve user_id query top_k documents chunk_table =
      elim (candidates user_id query top_k documents chunk_table) [
        | [] ↦ ok (record {
          query = query;
          rewritten_query = service.rewrite query;
          hits = [];
          citations = [];
        })
        | hit ∷ hits ↦
            score F service.terms_of service.half service.k1 service.b
              (fit F service.terms_of service.half service.k1 service.b
                (map (λ h. h.content) (hit ∷ hits)))
              query
            >>= λ lexical. ok (rank query top_k (hit ∷ hits) lexical)
      ]
