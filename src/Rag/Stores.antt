-- ===== src/Rag/Stores.antt =====
-- backend/app/modules/rag/vectorstore.py: the two stores. A FAISS index is the list of its vectors in
-- the order of their positions; its search is the library's. Files are left out.
pub mod Purge
pub mod Search
pub mod Files
use Prim.Native.Char.{Char, code}
use research_assistant.Base.{
  ℕ, ◌≡◌, refl, ap, String, Bool, true, false, List, [], ◌∷◌, ◌++◌, arith, not, ◌&&◌, ◌||◌, map,
  keep_if, length, length-append, mem, mem-keep_if, eqb, ◌==◌, string_eq, eq_iff, beq_refl,
  Bool-cases, inl, inr, if◌then◌else◌,
}
use research_assistant.Core.Errors.{Result, ok, err, other}
use research_assistant.Core.Float.{Float}

abbrev pub Vector : Type 0
Vector = List Float

pub record InMemoryVectorStore : Type 0 where
  pub vectors : List Vector
  pub ids : List String

pub record FaissVectorStore : Type 0 where
  pub dims : ℕ
  pub index : List Vector
  pub vectors : List Vector
  pub ids : List String

unfoldable pub zip {ℓ κ} : {A : Type ℓ} {B : Type κ} → List A → List B → List (A × B)
zip [] ys = []
zip (x ∷ xs) [] = []
zip (x ∷ xs) (y ∷ ys) = (x, y) ∷ zip xs ys

-- `vector_id.startswith(prefix)`, as `starts_with prefix vector_id`
unfoldable pub starts_with : String → String → Bool
starts_with String.[] s = true
starts_with (String.◌∷◌ c prefix) String.[] = false
starts_with (String.◌∷◌ c prefix) (String.◌∷◌ d s) = eqb (code c) (code d) && starts_with prefix s

unfoldable pub memory_add : List Vector → List String → InMemoryVectorStore → InMemoryVectorStore
memory_add vectors ids store = record { vectors = store.vectors ++ vectors; ids = store.ids ++ ids }

-- The pairs whose id is not to be removed.
unfoldable pub kept_pairs : List String → List String → List Vector → List (String × Vector)
unfolding keep_if zip mem
kept_pairs remove ids vectors = keep_if (λ (i, v). not (mem i remove)) (zip ids vectors)

unfoldable pub memory_delete : List String → InMemoryVectorStore → InMemoryVectorStore
unfolding kept_pairs
memory_delete remove store = record {
  vectors = map (λ (i, v). v) (kept_pairs remove store.ids store.vectors);
  ids = map (λ (i, v). i) (kept_pairs remove store.ids store.vectors);
}

unfoldable pub memory_delete_by_prefix : String → InMemoryVectorStore → InMemoryVectorStore
unfolding memory_delete keep_if starts_with
memory_delete_by_prefix prefix store = memory_delete (keep_if (starts_with prefix) store.ids) store

unfoldable pub all_of_length : ℕ → List Vector → Bool
all_of_length dims [] = true
all_of_length dims (v ∷ vectors) = eqb (length v) dims && all_of_length dims vectors

unfoldable pub faiss_add : List Vector → List String → FaissVectorStore → Result FaissVectorStore
unfolding all_of_length
faiss_add [] ids store = ok store
faiss_add (v ∷ vectors) ids store =
    if all_of_length store.dims (v ∷ vectors)
    then ok (record {
      dims = store.dims;
      index = store.index ++ (v ∷ vectors);
      vectors = store.vectors ++ (v ∷ vectors);
      ids = store.ids ++ ids;
    })
    else err (other "ValueError" "vectors must be (n, dims)")

unfoldable pub faiss_delete : List String → FaissVectorStore → FaissVectorStore
unfolding kept_pairs keep_if mem
faiss_delete [] store = store
faiss_delete (r ∷ remove) store =
    let keep_vectors = map (λ (i, v). v) (kept_pairs (r ∷ remove) store.ids store.vectors) in
    record {
      dims = store.dims;
      index = keep_vectors;
      vectors = keep_vectors;
      ids = keep_if (λ i. not (mem i (r ∷ remove))) store.ids;
    }

unfoldable pub faiss_delete_by_prefix : String → FaissVectorStore → FaissVectorStore
unfolding faiss_delete keep_if starts_with
faiss_delete_by_prefix prefix store = faiss_delete (keep_if (starts_with prefix) store.ids) store
