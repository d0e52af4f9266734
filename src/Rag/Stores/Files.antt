-- ===== src/Rag/Stores/Files.antt =====
-- `save` and `_load` of the FAISS store: an index file and a file of ids beside it. Reading back an index
-- gives the vectors that were written.
use research_assistant.Base.{
  ℕ, zero, suc, ◌+◌, ◌-◌, ◌≤◌, ◌≡◌, refl, ap, arith, String, Bool, true, false, Option, none, some,
  List, [], ◌∷◌, ◌++◌, append-nil, length, length-append,
}
use research_assistant.Base.Text.{◌<>◌}
use research_assistant.Rag.Stores.{Vector, FaissVectorStore}

-- The two files at the path of the index.
pub record IndexFiles : Type 0 where
  pub index : Option (List Vector)
  pub sidecar : Option (List String)

-- `save`, if the store has a path
unfoldable pub save : (has_path : Bool) → FaissVectorStore → IndexFiles → IndexFiles
save false store files = files
save true store files = record { index = some store.index; sidecar = some store.ids }

-- The ids `unknown:<position>` from a position.
unfoldable pub unknown_from : (decimal : ℕ → String) → (position n : ℕ) → List String
unknown_from decimal position zero = []
unknown_from decimal position (suc n) =
    ("unknown:" <> decimal position) ∷ unknown_from decimal (position + 1) n

abbrev ids_of : Option (List String) → List String
ids_of none = []
ids_of (some ids) = ids

-- `_load` of an index that exists
unfoldable pub load_index :
    (decimal : ℕ → String) → (dims : ℕ) → List Vector → List String → FaissVectorStore
unfolding unknown_from
load_index decimal dims index ids = record {
  dims = dims;
  index = index;
  vectors = index;
  ids = ids ++ unknown_from decimal (length ids) (length index - length ids);
}

-- `_load`
unfoldable pub load :
    (decimal : ℕ → String) → (has_path : Bool) → (dims : ℕ) → IndexFiles → FaissVectorStore
unfolding load_index
load decimal false dims files = record { dims = dims; index = []; vectors = []; ids = [] }
load decimal true dims files = elim files.index [
  | none ↦ record { dims = dims; index = []; vectors = []; ids = [] }
  | some index ↦ load_index decimal dims index (ids_of files.sidecar)
]

length-unknown_from :
    (decimal : ℕ → String) (position n : ℕ) → length (unknown_from decimal position n) ≡ n
unfolding unknown_from
length-unknown_from decimal position zero = refl
length-unknown_from decimal position (suc n) = ap suc (length-unknown_from decimal (position + 1) n)

-- After a load every position of the index has an id.
pub load_index-ids :
    (decimal : ℕ → String) (dims : ℕ) (index : List Vector) (ids : List String)
    → length index ≤ length (load_index decimal dims index ids).ids
unfolding load_index
load_index-ids decimal dims index ids = omega (
  arith,
  length-append ids (unknown_from decimal (length ids) (length index - length ids)),
  length-unknown_from decimal (length ids) (length index - length ids),
)

-- A store that is saved and loaded is the same, if its lists agree.
pub load-save :
    (decimal : ℕ → String) (store : FaissVectorStore) (files : IndexFiles)
    → store.vectors ≡ store.index
    → length store.ids ≡ length store.index
    → load decimal true store.dims (save true store files) ≡ store
unfolding load load_index save unknown_from
load-save decimal store files same aligned =
    let nothing_missing : length store.index - length store.ids ≡ 0 = omega (arith, aligned) in
    let padded : store.ids
          ++ unknown_from decimal (length store.ids) (length store.index - length store.ids)
        ≡ store.ids =
      rw nothing_missing (append-nil store.ids) in
    ground (arith, same, padded)
