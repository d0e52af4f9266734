-- ===== src/Rag/Documents/Backends.antt =====
-- What `VectorBackend` has to do with `add` of the FAISS store.
use research_assistant.Base.{
  ◌≡◌, refl, String, Option, none, some, List, ◌∷◌, ◌++◌, arith, string_eq,
}
use research_assistant.Core.Errors.{ok, err, Exn}
use research_assistant.Rag.Stores.{Vector, FaissVectorStore, faiss_add, memory_add}
use research_assistant.Rag.Documents.{faiss_backend}

-- What `add` of the FAISS store does to vectors that are there: it raises what the backend says, or it
-- stores them as the store in memory does.
pub faiss_add-refused :
    (v : Vector) (vs : List Vector) (ids : List String) (store : FaissVectorStore)
    (write_error : Option Exn) (e : Exn)
    → (faiss_backend store.dims write_error).add_error (v ∷ vs) ≡ some e
    → faiss_add (v ∷ vs) ids store ≡ err e
unfolding faiss_backend faiss_add
faiss_add-refused v vs ids store write_error e refused = ground (arith, refused)

pub faiss_add-memory_add :
    (v : Vector) (vs : List Vector) (ids : List String) (store : FaissVectorStore)
    (write_error : Option Exn)
    → (faiss_backend store.dims write_error).add_error (v ∷ vs) ≡ none
    → (behind : FaissVectorStore) × (faiss_add (v ∷ vs) ids store ≡ ok behind)
      × (behind.vectors
          ≡ (memory_add (v ∷ vs) ids (record { vectors = store.vectors; ids = store.ids })).vectors)
      × (behind.ids
          ≡ (memory_add (v ∷ vs) ids (record { vectors = store.vectors; ids = store.ids })).ids)
unfolding faiss_backend faiss_add memory_add
faiss_add-memory_add v vs ids store write_error accepted =
    let behind : FaissVectorStore = record {
      dims = store.dims;
      index = store.index ++ (v ∷ vs);
      vectors = store.vectors ++ (v ∷ vs);
      ids = store.ids ++ ids;
    } in
    (behind, ground (arith, accepted), refl, refl)
