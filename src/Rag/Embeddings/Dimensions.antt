-- ===== src/Rag/Embeddings/Dimensions.antt =====
-- What the embedders promise to the vector store and to ingestion.
use research_assistant.Base.{
  ℕ, zero, suc, ◌+◌, ◌≡◌, refl, ap, subst, ◌∙◌, arith, String, true, List, [], ◌∷◌, length,
  length-map, All, Bool-cases, inl, inr, ℤ, pos, negsuc,
}
use research_assistant.Core.Errors.{ok, bind_ok}
use research_assistant.Core.Float.{Float, FloatOps}
use research_assistant.Rag.Stores.{Vector}
use research_assistant.Rag.Embeddings.{
  Models, Hashing, has_length, zeros, at_least_zero, check_rows, embed_sentences, add_token,
  add_tokens, hash_text, embed_hashes, Embedder, sentence_transformer, hashing_embedder, embed,
}

abbrev pub dims_of : Embedder → ℤ
dims_of (sentence_transformer model_name dims) = dims
dims_of (hashing_embedder dims) = dims

length-zeros : (x : Float) (n : ℕ) → length (zeros x n) ≡ n
unfolding zeros
length-zeros x zero = refl
length-zeros x (suc n) = ap suc (length-zeros x n)

module _ (F : FloatOps) (hashing : Hashing) where
  length-add_token :
      (token : String) (i : ℕ) (vector : Vector)
      → length (add_token F hashing token i vector) ≡ length vector
  unfolding add_token
  length-add_token token i [] = refl
  length-add_token token i (x ∷ vector) = ap suc (length-add_token token (i + 1) vector)

  length-add_tokens :
      (tokens : List String) (vector : Vector)
      → length (add_tokens F hashing tokens vector) ≡ length vector
  unfolding add_tokens
  length-add_tokens [] vector = refl
  length-add_tokens (token ∷ tokens) vector =
      length-add_tokens tokens (add_token F hashing token 0 vector)
      ∙ length-add_token token 0 vector

  length-hash_text :
      (dims : ℤ) (text : String) → length (hash_text F hashing dims text) ≡ at_least_zero dims
  unfolding hash_text
  length-hash_text dims text =
      length-map _
        (add_tokens F hashing (hashing.words_of text) (zeros F.zero_float (at_least_zero dims)))
      ∙ length-add_tokens (hashing.words_of text) (zeros F.zero_float (at_least_zero dims))
      ∙ length-zeros F.zero_float (at_least_zero dims)

  All-embed_hashes :
      (dims : ℤ) (texts : List String)
      → All (λ v. length v ≡ at_least_zero dims) (embed_hashes F hashing dims texts)
  unfolding embed_hashes
  All-embed_hashes dims [] = tt
  All-embed_hashes dims (text ∷ texts) = (length-hash_text dims text, All-embed_hashes dims texts)

has_length_eq : (dims : ℤ) (m : ℕ) → has_length dims m ≡ true → m ≡ at_least_zero dims
has_length_eq (pos n) m h = ground (arith, h)
has_length_eq (negsuc n) m h = absurd (ground (arith, h))

check_rows-ok :
    (models : Models) (model_name : String) (dims : ℤ) (rows checked : List Vector)
    → check_rows models model_name dims rows ≡ ok checked
    → (rows ≡ checked) × All (λ v. length v ≡ at_least_zero dims) rows
unfolding check_rows
check_rows-ok models model_name dims [] checked done = (ground (arith, done), tt)
check_rows-ok models model_name dims (row ∷ rows) checked done =
    elim (Bool-cases (has_length dims (length row))) [
      | inr wrong ↦ absurd (ground (arith, wrong, done))
      | inl right ↦
          let (rest, given, last) =
            bind_ok (check_rows models model_name dims rows) (λ c. ok (row ∷ c)) checked
              (ground (arith, right, done)) in
          let (same, all) = check_rows-ok models model_name dims rows rest given in
          (ground (arith, last, same), (has_length_eq dims (length row) right, all))
    ]

-- As many vectors as texts, each of the dimensions.
abbrev pub HasDimensions : ℤ → List String → List Vector → Type 0
HasDimensions dims texts vectors =
    (length vectors ≡ length texts) × All (λ v. length v ≡ at_least_zero dims) vectors

-- An embedder that answers gives one vector for each text, each of the configured dimensions, provided
-- that the model of sentence-transformers gives one vector for each text: a vector of any other size is
-- an error.
pub embed-HasDimensions :
    (F : FloatOps) (hashing : Hashing) (models : Models) (embedder : Embedder)
    → (texts : List String) (vectors : List Vector)
    → ((name : String) (ts : List String) (vs : List Vector)
        → models.encode name ts ≡ ok vs
        → length vs ≡ length ts)
    → embed F hashing models embedder texts ≡ ok vectors
    → HasDimensions (dims_of embedder) texts vectors
unfolding embed embed_sentences embed_hashes
embed-HasDimensions F hashing models (hashing_embedder dims) texts vectors one done =
    let same : embed_hashes F hashing dims texts ≡ vectors = ground (arith, done) in
    subst (HasDimensions dims texts) same
      (length-map (hash_text F hashing dims) texts, All-embed_hashes F hashing dims texts)
embed-HasDimensions F hashing models (sentence_transformer name dims) [] vectors one done =
    let same : [] ≡ vectors = ground (arith, done) in subst (HasDimensions dims []) same (refl, tt)
embed-HasDimensions F hashing models (sentence_transformer name dims) (text ∷ texts) vectors one
      done =
    let (rows, encoded, checked) =
      bind_ok (models.encode name (text ∷ texts)) (check_rows models name dims) vectors done in
    let (same, all) = check_rows-ok models name dims rows vectors checked in
    subst (HasDimensions dims (text ∷ texts)) same (one name (text ∷ texts) rows encoded, all)
