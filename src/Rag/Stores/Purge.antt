-- ===== src/Rag/Stores/Purge.antt =====
-- Purging a document's vectors: both stores do the same.
use research_assistant.Base.{
  ℕ, ◌≡◌, refl, ap, subst, sym, ◌∙◌, String, Bool, true, List, [], ◌∷◌, arith, not, map, keep_if,
  length, length-map, mem, mem-keep_if, string_eq, beq_refl,
}
use research_assistant.Rag.Stores.{
  Vector, FaissVectorStore, zip, starts_with, kept_pairs, memory_delete, memory_delete_by_prefix,
  faiss_delete, faiss_delete_by_prefix,
}

-- What a store holds: vectors by id.
abbrev pub entries : List String → List Vector → List (String × Vector)
entries ids vectors = zip ids vectors

-- The registry of ids has an entry for each position, and the index holds the stored vectors.
pub record IsAligned (store : FaissVectorStore) : Type 0 where
  pub same_index : store.index ≡ store.vectors
  pub same_length : length store.ids ≡ length store.vectors

zip-unzip :
    (pairs : List (String × Vector))
    → zip (map (λ (i, v). i) pairs) (map (λ (i, v). v) pairs) ≡ pairs
unfolding zip
zip-unzip [] = refl
zip-unzip ((i, v) ∷ pairs) = ap (λ l. (i, v) ∷ l) (zip-unzip pairs)

-- With as many ids as vectors, the ids kept are those of the pairs kept.
keep_if-zip :
    (q : String → Bool) (ids : List String) (vectors : List Vector)
    → length ids ≡ length vectors
    → keep_if q ids ≡ map (λ (i, v). i) (keep_if (λ (i, v). q i) (zip ids vectors))
unfolding keep_if zip
keep_if-zip q [] vectors e = refl
keep_if-zip q (i ∷ ids) [] e = absurd (omega (arith, e))
keep_if-zip q (i ∷ ids) (v ∷ vectors) e =
    ground (arith, keep_if-zip q ids vectors (omega (arith, e)))

kept_ids :
    (remove ids : List String) (vectors : List Vector)
    → length ids ≡ length vectors
    → keep_if (λ i. not (mem i remove)) ids ≡ map (λ (i, v). i) (kept_pairs remove ids vectors)
unfolding kept_pairs
kept_ids remove ids vectors e = keep_if-zip (λ i. not (mem i remove)) ids vectors e

-- The two tests agree on the ids that are there.
keep_if_same :
    (q r : String → Bool) (ids : List String) (vectors : List Vector)
    → ((i : String) → mem i ids ≡ true → q i ≡ r i)
    → keep_if (λ (i, v). q i) (zip ids vectors) ≡ keep_if (λ (i, v). r i) (zip ids vectors)
unfolding keep_if zip mem
keep_if_same q r [] vectors same = refl
keep_if_same q r (i ∷ ids) [] same = refl
keep_if_same q r (i ∷ ids) (v ∷ vectors) same = ground (
  arith,
  same i (ground (arith, beq_refl i)),
  keep_if_same q r ids vectors λ j m. same j (ground (arith, m)),
)

-- The pairs that a purge by prefix keeps.
pub purged :
    (prefix : String) (ids : List String) (vectors : List Vector)
    → kept_pairs (keep_if (starts_with prefix) ids) ids vectors
      ≡ keep_if (λ (i, v). not (starts_with prefix i)) (zip ids vectors)
unfolding kept_pairs
purged prefix ids vectors =
    keep_if_same (λ i. not (mem i (keep_if (starts_with prefix) ids)))
      (λ i. not (starts_with prefix i)) ids vectors
      λ i m. ground (arith, m, mem-keep_if (starts_with prefix) i ids)

map-zip-first :
    (ids : List String) (vectors : List Vector)
    → length ids ≡ length vectors
    → map (λ (i, v). i) (kept_pairs [] ids vectors) ≡ ids
unfolding kept_pairs keep_if zip mem
map-zip-first [] vectors e = refl
map-zip-first (i ∷ ids) [] e = absurd (omega (arith, e))
map-zip-first (i ∷ ids) (v ∷ vectors) e =
    ap (λ l. i ∷ l) (map-zip-first ids vectors (omega (arith, e)))

map-zip-second :
    (ids : List String) (vectors : List Vector)
    → length ids ≡ length vectors
    → map (λ (i, v). v) (kept_pairs [] ids vectors) ≡ vectors
unfolding kept_pairs keep_if zip mem
map-zip-second [] [] e = refl
map-zip-second [] (v ∷ vectors) e = absurd (omega (arith, e))
map-zip-second (i ∷ ids) [] e = absurd (omega (arith, e))
map-zip-second (i ∷ ids) (v ∷ vectors) e =
    ap (λ l. v ∷ l) (map-zip-second ids vectors (omega (arith, e)))

-- The store of the pairs.
abbrev of_pairs : ℕ → List (String × Vector) → FaissVectorStore
of_pairs dims pairs = record {
  dims = dims;
  index = map (λ (i, v). v) pairs;
  vectors = map (λ (i, v). v) pairs;
  ids = map (λ (i, v). i) pairs;
}

faiss_delete-pairs :
    (remove : List String) (store : FaissVectorStore)
    → IsAligned store
    → faiss_delete remove store ≡ of_pairs store.dims (kept_pairs remove store.ids store.vectors)
unfolding faiss_delete
faiss_delete-pairs [] store a =
    let first = map-zip-first store.ids store.vectors a.same_length in
    let second = map-zip-second store.ids store.vectors a.same_length in
    ground (arith, first, second, a.same_index)
faiss_delete-pairs (r ∷ remove) store a =
    let kept = kept_ids (r ∷ remove) store.ids store.vectors a.same_length in ground (arith, kept)

of_pairs-IsAligned : (dims : ℕ) (pairs : List (String × Vector)) → IsAligned (of_pairs dims pairs)
of_pairs-IsAligned dims pairs = record {
  same_index = refl;
  same_length = length-map (λ (i, v). i) pairs ∙ sym (length-map (λ (i, v). v) pairs);
}

-- A purge by prefix keeps the entries whose id does not start with the prefix, and no others.
pub record IsPurged (prefix : String) (store behind : FaissVectorStore) : Type 0 where
  pub aligned : IsAligned behind
  pub kept :
      entries behind.ids behind.vectors
      ≡ keep_if (λ (i, v). not (starts_with prefix i)) (entries store.ids store.vectors)

-- Purging a document from a FAISS store whose registry and index agree removes exactly the entries
-- whose id starts with the prefix and leaves a store whose registry and index agree; the in-memory
-- store that holds the same ids and vectors holds the same again behind its own purge.
pub faiss_delete_by_prefix-IsPurged :
    (prefix : String) (store : FaissVectorStore)
    → IsAligned store
    → IsPurged prefix store (faiss_delete_by_prefix prefix store)
      × (memory_delete_by_prefix prefix (record { vectors = store.vectors; ids = store.ids })
          ≡ record {
            vectors = (faiss_delete_by_prefix prefix store).vectors;
            ids = (faiss_delete_by_prefix prefix store).ids;
          })
unfolding faiss_delete_by_prefix memory_delete_by_prefix memory_delete
faiss_delete_by_prefix-IsPurged prefix store a =
    let remove = keep_if (starts_with prefix) store.ids in
    let pairs = kept_pairs remove store.ids store.vectors in
    let same = faiss_delete-pairs remove store a in
    (
      subst (IsPurged prefix store) (sym same) (record {
        aligned = of_pairs-IsAligned store.dims pairs;
        kept = zip-unzip pairs ∙ purged prefix store.ids store.vectors;
      }),
      rw same refl,
    )
