-- ===== src/Rag/Lexical.antt =====
-- The class `BM25` and `_normalize` of backend/app/modules/rag/retrieval.py. `terms_of` is
-- `_TOKEN_RE.findall(text.lower())`; the arithmetic of floats is a parameter.
use research_assistant.Base.{
  ℕ, suc, ◌+◌, ◌≡◌, refl, arith, All, String, Bool, false, none, some, List, [], ◌∷◌, map, keep_if,
  length, mem, Dict, get, put, ◌||◌, ◌==◌, string_eq, eqb, if◌then◌else◌,
}
use research_assistant.Core.Errors.{Result, ok, err, Exn, other, ◌>>=◌}
use research_assistant.Core.Float.{Float, FloatOps}

-- What a division by 0.0 raises. Of the divisors only the average length can be zero: the others are
-- positive by a constant, guarded by `or 1.0`, or the difference of two that are not equal.
abbrev pub zero_division : Exn
zero_division = other "ZeroDivisionError" "float division by zero"

-- `set(terms)`, in the order of the first occurrences.
unfoldable pub unique_from : List String → List String → List String
unfolding mem
unique_from seen [] = []
unique_from seen (term ∷ terms) =
    let known = unique_from seen terms in
    let more = unique_from (term ∷ seen) terms in if mem term seen then known else term ∷ more

-- `df[term] = df.get(term, 0) + 1`
unfoldable pub count_term : Dict String ℕ → String → Dict String ℕ
count_term df term = put term (elim (get term df) [ none ↦ 1 | some n ↦ n + 1 ]) df

unfoldable pub count_terms : Dict String ℕ → List String → Dict String ℕ
unfolding count_term
count_terms df [] = df
count_terms df (term ∷ terms) = count_terms (count_term df term) terms

unfoldable pub document_frequency : Dict String ℕ → List (List String) → Dict String ℕ
unfolding count_terms unique_from
document_frequency df [] = df
document_frequency df (terms ∷ docs) =
    document_frequency (count_terms df (unique_from [] terms)) docs

unfoldable pub total_length : List (List String) → ℕ
total_length [] = 0
total_length (terms ∷ docs) = length terms + total_length docs

-- The state of a `BM25` that is fitted.
pub record Fitted : Type 0 where
  pub docs : List (List String)
  pub idf : Dict String Float
  pub average_length : Float

module _ (F : FloatOps) (terms_of : String → List String) (half k1 b : Float) where
  -- `math.log((n - count + 0.5) / (count + 0.5) + 1.0)`
  unfoldable pub idf_of : ℕ → ℕ → Float
  idf_of n count = F.log (
      F.plus
        (F.quotient (F.plus (F.minus (F.of_nat n) (F.of_nat count)) half)
          (F.plus (F.of_nat count) half))
        F.one_float)

  unfoldable pub fit : List String → Fitted
  unfolding document_frequency total_length idf_of
  fit documents =
      let docs = map terms_of documents in
      record {
        docs = docs;
        idf =
            map (λ (term, count). (term, idf_of (length docs) count)) (document_frequency [] docs);
        average_length =
            if eqb (length docs) 0
            then F.one_float
            else F.quotient (F.of_nat (total_length docs)) (F.of_nat (length docs));
      }

  -- A float that is not zero counts as true.
  abbrev pub is_nonzero : Float → Bool
  is_nonzero x = F.lt x F.zero_float || F.lt F.zero_float x

  abbrev pub nonzero_or_one : Float → Float
  nonzero_or_one x = if is_nonzero x then x else F.one_float

  -- The loop over the query's terms, from the variable `total`.
  unfoldable pub score_terms : Fitted → List String → (norm total : Float) → List String → Float
  unfolding keep_if
  score_terms fitted doc_terms norm total [] = total
  score_terms fitted doc_terms norm total (term ∷ terms) =
      let frequency = F.of_nat (length (keep_if (λ candidate. candidate == term) doc_terms)) in
      let idf : Float = elim (get term fitted.idf) [ none ↦ F.zero_float | some x ↦ x ] in
      let share =
        F.quotient (F.times idf (F.times frequency (F.plus k1 F.one_float)))
          (F.plus frequency norm) in
      let total' = if is_nonzero idf then F.plus total share else total in
      score_terms fitted doc_terms norm total' terms

  -- `doc_len / self._avgdl`
  unfoldable pub length_ratio : Fitted → List String → Result Float
  length_ratio fitted doc_terms =
      if is_nonzero fitted.average_length
      then ok (F.quotient (F.of_nat (length doc_terms)) fitted.average_length)
      else err zero_division

  unfoldable pub score_doc : Fitted → (terms doc_terms : List String) → Result Float
  unfolding score_terms length_ratio
  score_doc fitted terms doc_terms = length_ratio fitted doc_terms >>= λ ratio. ok (
      score_terms fitted doc_terms (F.times k1 (F.plus (F.minus F.one_float b) (F.times b ratio)))
        F.zero_float terms)

  -- The loop over the documents.
  unfoldable pub score_docs : Fitted → List String → List (List String) → Result (List Float)
  unfolding score_doc
  score_docs fitted terms [] = ok []
  score_docs fitted terms (doc_terms ∷ docs) = score_doc fitted terms doc_terms >>= λ total.
      (score_docs fitted terms docs >>= λ results. ok (total ∷ results))

  -- `max` and `min` of a list that starts with `x`.
  unfoldable pub largest : Float → List Float → Float
  largest x [] = x
  largest x (y ∷ ys) = largest (if F.lt x y then y else x) ys

  unfoldable pub smallest : Float → List Float → Float
  smallest x [] = x
  smallest x (y ∷ ys) = smallest (if F.lt y x then y else x) ys

  unfoldable pub relative : List Float → List Float
  unfolding largest
  relative [] = []
  relative (x ∷ xs) =
      let maximum = nonzero_or_one (largest x xs) in
      map (λ value. F.quotient value maximum) (x ∷ xs)

  unfoldable pub score : Fitted → String → Result (List Float)
  unfolding score_docs relative
  score fitted query = elim (terms_of query) [
    | [] ↦ ok (map (λ d. F.zero_float) fitted.docs)
    | t ∷ ts ↦ score_docs fitted (t ∷ ts) fitted.docs >>= λ results. ok (relative results)
  ]

  unfoldable pub normalize : List Float → List Float
  unfolding largest smallest
  normalize [] = []
  normalize (x ∷ xs) =
      let low = smallest x xs in
      let high = largest x xs in
      if F.lt low high
      then map (λ value. F.quotient (F.minus value low) (F.minus high low)) (x ∷ xs)
      else map (λ value. F.zero_float) (x ∷ xs)

  total_length-blank :
      (docs : List (List String)) → All (λ terms. terms ≡ []) docs → total_length docs ≡ 0
  unfolding total_length
  total_length-blank [] h = refl
  total_length-blank (terms ∷ docs) h = ground (arith, h.0, total_length-blank docs h.1)

  -- A query with a term raises ZeroDivisionError if no document has any: if there are documents and no
  -- text of them contains a term, as with a text that is not written in Latin letters, then `score`
  -- raises, provided that 0 divided by a positive number is 0.0, which does not count as true.
  pub score-blank :
      (document : String) (documents : List String) (query term : String) (terms : List String)
      → ((n : ℕ) → F.quotient (F.of_nat 0) (F.of_nat (suc n)) ≡ F.zero_float)
      → F.lt F.zero_float F.zero_float ≡ false
      → All (λ found. found ≡ []) (map terms_of (document ∷ documents))
      → terms_of query ≡ term ∷ terms
      → score (fit (document ∷ documents)) query ≡ err zero_division
  unfolding score fit score_docs score_doc length_ratio
  score-blank document documents query term terms zero_of irreflexive blank asked = ground (
    arith,
    asked,
    irreflexive,
    zero_of (length (map terms_of documents)),
    total_length-blank (map terms_of (document ∷ documents)) blank,
  )
