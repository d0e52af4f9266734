-- ===== src/Rag/Retrieval/Answers.antt =====
-- What `retrieve` answers.
use research_assistant.Base.{
  ℕ, leb, suc, ◌-◌, ◌≡◌, refl, subst, String, Bool, true, false, Option, none, List, [], ◌∷◌, arith,
  map, length, All, All-take, if◌then◌else◌, ℤ, pos, negsuc, length-take-le,
}
use research_assistant.Core.Errors.{Result, ok, err}
use research_assistant.Core.Float.{Float, FloatOps}
use research_assistant.Rag.Citations.{RetrievalHit, build, IsCited, build-IsCited}
use research_assistant.Rag.Lexical.{fit, score, normalize}
use research_assistant.Rag.Tables.{Document, DocumentChunk}
use research_assistant.Rag.Retrieval.{
  RetrievalResult, RetrievalService, first_items, limit_of, fuse, insert_hit, sort_hits,
  rerank_or_keep, candidates, rank, retrieve,
}
use research_assistant.Rag.Retrieval.Scope.{IsOwn, candidates-IsOwn}

All-first_items {ℓ} :
    {A : Type ℓ} (P : A → Type 0) (k : ℤ) (xs : List A) → All P xs → All P (first_items k xs)
unfolding first_items
All-first_items P (pos n) xs h = All-take P n xs h
All-first_items P (negsuc n) xs h = All-take P (length xs - suc n) xs h

IsCited-none : IsCited 0 [] []
unfolding build
IsCited-none = build-IsCited []

-- At most as many as a limit; a limit below 0 leaves some out, and bounds nothing.
unfoldable pub fits : ℤ → ℕ → Bool
fits (pos k) n = leb n k
fits (negsuc k) n = true

fits-first_items :
    {A : Type 0} (limit : ℤ) (xs : List A) → fits limit (length (first_items limit xs)) ≡ true
unfolding fits first_items
fits-first_items (pos k) xs = ground (arith, length-take-le k xs)
fits-first_items (negsuc k) xs = refl

fits_none : (limit : ℤ) → fits limit 0 ≡ true
unfolding fits
fits_none (pos k) = ground arith
fits_none (negsuc k) = refl

-- The answer shows passages of the user's own documents, no more than the limit, and cites each.
pub record IsAnswer (user_id : String) (documents : List Document) (table : List DocumentChunk)
    (limit : ℤ) (result : RetrievalResult) : Type 0 where
  pub own : All (IsOwn user_id documents table) result.hits
  pub few : fits limit (length result.hits) ≡ true
  pub cited : IsCited 0 result.hits result.citations

module _ (F : FloatOps) (service : RetrievalService) where
  module _ (user_id : String) (documents : List Document) (table : List DocumentChunk) where
    -- A hit with other scores shows the same passage.
    fuse-IsOwn :
        (hits : List RetrievalHit) (dense lexical : List Float)
        → All (IsOwn user_id documents table) hits
        → All (IsOwn user_id documents table) (fuse F service hits dense lexical)
    unfolding fuse
    fuse-IsOwn [] dense lexical h = tt
    fuse-IsOwn (hit ∷ hits) [] lexical h = tt
    fuse-IsOwn (hit ∷ hits) (d ∷ dense) [] h = tt
    fuse-IsOwn (hit ∷ hits) (d ∷ dense) (l ∷ lexical) h =
        (record { of_user = h.0.of_user; stored = h.0.stored }, fuse-IsOwn hits dense lexical h.1)

  All-insert_hit :
      (P : RetrievalHit → Type 0) (hit : RetrievalHit) (hits : List RetrievalHit)
      → P hit
      → All P hits
      → All P (insert_hit F service hit hits)
  unfolding insert_hit
  All-insert_hit P hit [] p h = (p, tt)
  All-insert_hit P hit (next ∷ hits) p h =
      go (F.lt hit.fused_score next.fused_score) (All-insert_hit P hit hits p h.1)
    where
      go :
          (b : Bool)
          → All P (insert_hit F service hit hits)
          → All P (if b then next ∷ insert_hit F service hit hits else hit ∷ next ∷ hits)
      go true later = (h.0, later)
      go false later = (p, h)

  All-sort_hits :
      (P : RetrievalHit → Type 0) (hits : List RetrievalHit)
      → All P hits
      → All P (sort_hits F service hits)
  unfolding sort_hits
  All-sort_hits P [] h = tt
  All-sort_hits P (hit ∷ hits) h =
      All-insert_hit P hit (sort_hits F service hits) h.0 (All-sort_hits P hits h.1)

  rank-IsAnswer :
      (user_id query : String) (top_k : Option ℤ) (documents : List Document)
      → (table : List DocumentChunk) (ordered : List RetrievalHit) (lexical : List Float)
      → service.rerank ≡ none
      → All (IsOwn user_id documents table) ordered
      → IsAnswer user_id documents table
          (limit_of F service top_k)
          (rank F service query top_k ordered lexical)
  unfolding rank rerank_or_keep first_items
  rank-IsAnswer user_id query top_k documents table ordered lexical plain own =
      let dense =
        normalize F service.terms_of service.half service.k1 service.b
          (map (λ h. h.score) ordered) in
      let sorted = sort_hits F service (fuse F service ordered dense lexical) in
      let shown : List RetrievalHit = first_items (limit_of F service top_k) sorted in
      let same : shown ≡ (rank F service query top_k ordered lexical).hits = rw plain refl in
      record {
        own = subst (All (IsOwn user_id documents table)) same (
            All-first_items (IsOwn user_id documents table) (limit_of F service top_k) sorted (
              All-sort_hits (IsOwn user_id documents table) (fuse F service ordered dense lexical)
                (fuse-IsOwn user_id documents table ordered dense lexical own)));
        few =
            subst (λ hits. fits (limit_of F service top_k) (length hits) ≡ true) same
              (fits-first_items (limit_of F service top_k) sorted);
        cited = build-IsCited (rank F service query top_k ordered lexical).hits;
      }

  -- Retrieval keeps to the user's documents: if no reranker is wired and `retrieve` does not raise,
  -- then each hit shows a chunk that is stored and whose document is one of the user's own, there are
  -- at most as many hits as the limit in force if that is not negative, and the citations are the
  -- hits', numbered from 1.
  pub retrieve-IsAnswer :
      (user_id query : String) (top_k : Option ℤ) (documents : List Document)
      → (table : List DocumentChunk) (result : RetrievalResult) → service.rerank ≡ none
      → retrieve F service user_id query top_k documents table ≡ ok result
      → IsAnswer user_id documents table (limit_of F service top_k) result
  unfolding retrieve
  retrieve-IsAnswer user_id query top_k documents table result plain done =
      go (candidates F service user_id query top_k documents table) refl
        (candidates-IsOwn F service user_id query top_k documents table)
    where
      from_scores :
          (hit : RetrievalHit) (hits : List RetrievalHit) (r : Result (List Float))
          → candidates F service user_id query top_k documents table ≡ hit ∷ hits
          → score F service.terms_of service.half service.k1 service.b
              (fit F service.terms_of service.half service.k1 service.b
                (map (λ h. h.content) (hit ∷ hits)))
              query
            ≡ r
          → All (IsOwn user_id documents table) (hit ∷ hits)
          → IsAnswer user_id documents table (limit_of F service top_k) result
      from_scores hit hits (err raised) e f own = absurd (ground (arith, done, e, f))
      from_scores hit hits (ok lexical) e f own =
          let same : rank F service query top_k (hit ∷ hits) lexical ≡ result =
            ground (arith, done, e, f) in
          subst (IsAnswer user_id documents table (limit_of F service top_k)) same
            (rank-IsAnswer user_id query top_k documents table (hit ∷ hits) lexical plain own)

      go :
          (ordered : List RetrievalHit)
          → candidates F service user_id query top_k documents table ≡ ordered
          → All (IsOwn user_id documents table) ordered
          → IsAnswer user_id documents table (limit_of F service top_k) result
      go [] e own =
          let nothing : RetrievalResult = record {
            query = query;
            rewritten_query = service.rewrite query;
            hits = [];
            citations = [];
          } in
          let same : nothing ≡ result = ground (arith, done, e) in
          let answer : IsAnswer user_id documents table (limit_of F service top_k) nothing =
            record { own = tt; few = fits_none (limit_of F service top_k); cited = IsCited-none } in
          subst (IsAnswer user_id documents table (limit_of F service top_k)) same answer
      go (hit ∷ hits) e own =
          from_scores hit hits
            (score F service.terms_of service.half service.k1 service.b
              (fit F service.terms_of service.half service.k1 service.b
                (map (λ h. h.content) (hit ∷ hits)))
              query)
            e refl own
