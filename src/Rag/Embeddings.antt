-- ===== src/Rag/Embeddings.antt =====
-- backend/app/modules/rag/embeddings.py: the two embedders and the choice between them. The model of
-- sentence-transformers is a parameter, and so are the random numbers, the tokens and the sum of
-- floats of the other embedder.
pub mod Dimensions
use research_assistant.Base.{
  ℕ, zero, suc, ◌+◌, ◌≡◌, String, Bool, true, false, Option, none, some, List, [], ◌∷◌, map, length,
  not, eqb, ◌==◌, string_eq, if◌then◌else◌, ℤ, pos, negsuc,
}
use research_assistant.Base.Text.{◌<>◌, strip}
use research_assistant.Core.Errors.{Result, ok, err, raise_insight, configuration, ◌>>=◌}
use research_assistant.Core.Config.{Settings}
use research_assistant.Core.Float.{Float, FloatOps}
use research_assistant.Rag.Stores.{Vector}

-- `encode` of a model, by its name.
pub record Models : Type 0 where
  pub encode : (model_name : String) → List String → Result (List Vector)
  pub decimal : ℕ → String
  pub decimal_of : ℤ → String
  pub repr : String → String

-- `_WORD_RE.findall(text.lower())`, the draws of `random.Random(token)` by their number, and `sum`.
pub record Hashing : Type 0 where
  pub words_of : String → List String
  pub uniform : (token : String) → ℕ → Float
  pub sum : List Float → Float
  pub is_zero : Float → Bool

-- `len(row) != self.dims`
abbrev pub has_length : ℤ → ℕ → Bool
has_length (pos n) m = eqb n m
has_length (negsuc n) m = false

-- `[0.0] * dims`
unfoldable pub zeros : (zero_float : Float) → ℕ → Vector
zeros zero_float zero = []
zeros zero_float (suc n) = zero_float ∷ zeros zero_float n

abbrev pub at_least_zero : ℤ → ℕ
at_least_zero (pos n) = n
at_least_zero (negsuc n) = 0

module _ (models : Models) where
  -- The loop over the vectors of `SentenceTransformerEmbedder.embed`.
  unfoldable pub check_rows : (model_name : String) (dims : ℤ) → List Vector → Result (List Vector)
  unfolding raise_insight
  check_rows model_name dims [] = ok []
  check_rows model_name dims (row ∷ rows) =
      let rest = check_rows model_name dims rows in
      if not (has_length dims (length row))
      then err (
          raise_insight configuration (
            "Embedding model "
            <> models.repr model_name
            <> " produced "
            <> models.decimal (length row)
            <> " dimensions but EMBEDDING_DIMENSIONS="
            <> models.decimal_of dims))
      else (rest >>= λ checked. ok (row ∷ checked))

  unfoldable pub embed_sentences :
      (model_name : String) (dims : ℤ) → List String → Result (List Vector)
  unfolding check_rows
  embed_sentences model_name dims [] = ok []
  embed_sentences model_name dims (text ∷ texts) =
      models.encode model_name (text ∷ texts) >>= λ vectors. check_rows model_name dims vectors

module _ (F : FloatOps) (hashing : Hashing) where
  -- `vector[i] += rng.uniform(-1.0, 1.0)` for each position from `i`.
  unfoldable pub add_token : (token : String) (i : ℕ) → Vector → Vector
  add_token token i [] = []
  add_token token i (x ∷ vector) =
      F.plus x (hashing.uniform token i) ∷ add_token token (i + 1) vector

  unfoldable pub add_tokens : List String → Vector → Vector
  unfolding add_token
  add_tokens [] vector = vector
  add_tokens (token ∷ tokens) vector = add_tokens tokens (add_token token 0 vector)

  -- `math.sqrt(sum(...)) or 1.0`
  unfoldable pub norm_or_one : Vector → Float
  norm_or_one vector =
      let norm = F.sqrt (hashing.sum (map (λ x. F.times x x) vector)) in
      if hashing.is_zero norm then F.one_float else norm

  -- `HashingEmbedder._embed`
  unfoldable pub hash_text : (dims : ℤ) → String → Vector
  unfolding add_tokens norm_or_one zeros
  hash_text dims text =
      let vector = add_tokens (hashing.words_of text) (zeros F.zero_float (at_least_zero dims)) in
      map (λ x. F.quotient x (norm_or_one vector)) vector

  unfoldable pub embed_hashes : (dims : ℤ) → List String → List Vector
  unfolding hash_text
  embed_hashes dims texts = map (hash_text dims) texts

pub data Embedder : Type 0 where
  sentence_transformer : (model_name : String) (dims : ℤ) → Embedder
  hashing_embedder : (dims : ℤ) → Embedder

unfoldable pub build_embedder : (lower repr : String → String) → Settings → Result Embedder
unfolding strip raise_insight
build_embedder lower repr settings =
    let key = lower (strip settings.embedding_provider) in
    if key == "sentence_transformers"
    then ok (sentence_transformer settings.embedding_model settings.embedding_dimensions)
    else if key == "memory"
    then ok (hashing_embedder settings.embedding_dimensions)
    else err (
        raise_insight configuration (
          "Unknown embedding provider "
          <> repr settings.embedding_provider
          <> "; expected 'sentence_transformers' or 'memory'"))

-- The port's `embed`.
unfoldable pub embed : FloatOps → Hashing → Models → Embedder → List String → Result (List Vector)
unfolding embed_sentences embed_hashes
embed F hashing models (sentence_transformer model_name dims) texts =
    embed_sentences models model_name dims texts
embed F hashing models (hashing_embedder dims) texts = ok (embed_hashes F hashing dims texts)
