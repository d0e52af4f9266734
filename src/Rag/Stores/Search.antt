-- ===== src/Rag/Stores/Search.antt =====
-- The searches of both stores, and the choice of a store and of a splitter by its setting.
use research_assistant.Base.{
  ℕ, zero, suc, String, Option, none, some, List, [], ◌∷◌, map, ◌||◌, ◌==◌, string_eq,
  if◌then◌else◌, ℤ, pos, negsuc,
}
use research_assistant.Base.Text.{strip, ◌<>◌}
use research_assistant.Core.Errors.{Result, ok, err, raise_insight, configuration}
use research_assistant.Core.Float.{Float, FloatOps}
use research_assistant.Rag.Retrieval.{VectorHit, first_items}
use research_assistant.Rag.Stores.{Vector, InMemoryVectorStore, FaissVectorStore, zip}

module _ (F : FloatOps) where
  -- `sum(a * b for a, b in zip(left, right))`, from `total`
  unfoldable pub dot : Float → Vector → Vector → Float
  dot total [] right = total
  dot total (a ∷ left) [] = total
  dot total (a ∷ left) (b ∷ right) = dot (F.plus total (F.times a b)) left right

  -- `math.sqrt(sum(value * value for value in vector)) or 1.0`
  unfoldable pub norm_of : Vector → Float
  unfolding dot
  norm_of vector =
      let norm = F.sqrt (dot F.zero_float vector vector) in
      if F.lt F.zero_float norm || F.lt norm F.zero_float then norm else F.one_float

  unfoldable pub score_entry : Vector → String × Vector → VectorHit
  unfolding dot norm_of
  score_entry vector (vector_id, entry) = record {
    vector_id = vector_id;
    score = F.quotient (dot F.zero_float vector entry) (F.times (norm_of vector) (norm_of entry));
  }

  -- `sort` by the score, the highest first, which keeps the order of hits with equal scores.
  unfoldable pub insert_scored : VectorHit → List VectorHit → List VectorHit
  insert_scored hit [] = hit ∷ []
  insert_scored hit (next ∷ hits) =
      let later = insert_scored hit hits in
      if F.lt hit.score next.score then next ∷ later else hit ∷ next ∷ hits

  unfoldable pub sort_scored : List VectorHit → List VectorHit
  unfolding insert_scored
  sort_scored [] = []
  sort_scored (hit ∷ hits) = insert_scored hit (sort_scored hits)

  unfoldable pub memory_search : Vector → ℤ → InMemoryVectorStore → List VectorHit
  unfolding score_entry sort_scored zip first_items
  memory_search vector top_k store =
      first_items top_k (sort_scored (map (score_entry vector) (zip store.ids store.vectors)))

-- `self._ids[position]`
unfoldable pub id_at : ℕ → List String → Option String
id_at position [] = none
id_at zero (i ∷ ids) = some i
id_at (suc position) (i ∷ ids) = id_at position ids

-- The loop over the scores and positions that the index gives.
unfoldable pub faiss_hits : List String → List (Float × ℤ) → List VectorHit
unfolding id_at
faiss_hits ids [] = []
faiss_hits ids ((score, negsuc n) ∷ found) = faiss_hits ids found
faiss_hits ids ((score, pos n) ∷ found) =
    let rest = faiss_hits ids found in
    elim (id_at n ids) [ none ↦ rest | some i ↦ record { vector_id = i; score = score } ∷ rest ]

-- `look_up` is the search of the index.
unfoldable pub faiss_search :
    (look_up : List Vector → Vector → ℤ → List (Float × ℤ))
    → Vector
    → ℤ
    → FaissVectorStore
    → List VectorHit
unfolding faiss_hits
faiss_search look_up vector top_k store = elim store.index [
  | [] ↦ []
  | v ∷ rest ↦ faiss_hits store.ids (look_up (v ∷ rest) vector top_k)
]

pub data StoreKind : Type 0 where
  faiss memory : StoreKind

-- `build_vector_store`; `lower` and `repr` are Python's.
unfoldable pub build_vector_store : (lower repr : String → String) → String → Result StoreKind
unfolding strip raise_insight
build_vector_store lower repr backend =
    let key = lower (strip backend) in
    if key == "faiss"
    then ok faiss
    else if key == "memory"
    then ok memory
    else err (
        raise_insight configuration
          ("Unknown vector store backend " <> repr backend <> "; expected 'faiss' or 'memory'"))

pub data SplitterKind : Type 0 where
  langchain llamaindex : SplitterKind

-- `build_splitter`
unfoldable pub build_splitter : (lower repr : String → String) → String → Result SplitterKind
unfolding strip raise_insight
build_splitter lower repr setting =
    let key = lower (strip setting) in
    if key == "langchain"
    then ok langchain
    else if key == "llamaindex"
    then ok llamaindex
    else err (
        raise_insight configuration
          ("Unknown RAG splitter " <> repr setting <> "; expected 'langchain' or 'llamaindex'"))
