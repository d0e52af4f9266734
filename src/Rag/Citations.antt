-- ===== src/Rag/Citations.antt =====
-- backend/app/modules/rag/citations.py
use research_assistant.Base.{
  ℕ, ◌+◌, ◌≤◌, ◌≡◌, refl, ap, String, Option, List, [], ◌∷◌, arith, map, length, All,
}
use research_assistant.Base.Text.{strip, words, join, len, slice, len-slice-le, len-strip-le}
use research_assistant.Core.Float.{Float}
use research_assistant.Rag.Chunks.{range_from}

pub record RetrievalHit : Type 0 where
  pub chunk_id : String
  pub document_id : String
  pub document_name : String
  pub content : String
  pub score : Float
  pub page : Option ℕ
  pub heading : Option String
  pub bm25_score : Float
  pub fused_score : Float

pub record Citation : Type 0 where
  pub index : ℕ
  pub chunk_id : String
  pub document_id : String
  pub document_name : String
  pub page : Option ℕ
  pub heading : Option String
  pub snippet : String
  pub score : Float

abbrev pub snippet_chars : ℕ
snippet_chars = 220

-- `_snippet`
unfoldable pub snippet : String → String
unfolding strip slice join words
snippet content = strip (slice snippet_chars (join " " (words content)))

-- `build` for the hits from `position`
unfoldable pub build_from : ℕ → List RetrievalHit → List Citation
unfolding snippet
build_from position [] = []
build_from position (hit ∷ hits) =
    record {
      index = position + 1;
      chunk_id = hit.chunk_id;
      document_id = hit.document_id;
      document_name = hit.document_name;
      page = hit.page;
      heading = hit.heading;
      snippet = snippet hit.content;
      score = hit.fused_score;
    }
    ∷ build_from (position + 1) hits

unfoldable pub build : List RetrievalHit → List Citation
unfolding build_from
build hits = build_from 0 hits

-- The citations show the hits in order, are numbered without a gap, and their snippets are short.
pub record IsCited (position : ℕ) (hits : List RetrievalHit) (citations : List Citation)
    : Type 0 where
  pub numbered : map (λ c. c.index) citations ≡ range_from (position + 1) (length hits)
  pub same_chunks : map (λ c. c.chunk_id) citations ≡ map (λ h. h.chunk_id) hits
  pub same_documents : map (λ c. c.document_id) citations ≡ map (λ h. h.document_id) hits
  pub short : All (λ c. len c.snippet ≤ snippet_chars) citations

len-snippet-le : (content : String) → len (snippet content) ≤ snippet_chars
unfolding snippet
len-snippet-le content =
    let text = join " " (words content) in
    omega (arith, len-strip-le (slice snippet_chars text), len-slice-le snippet_chars text)

build_from-IsCited :
    (position : ℕ) (hits : List RetrievalHit) → IsCited position hits (build_from position hits)
unfolding build_from range_from
build_from-IsCited position [] = record {
  numbered = refl;
  same_chunks = refl;
  same_documents = refl;
  short = tt;
}
build_from-IsCited position (hit ∷ hits) =
    let rest = build_from-IsCited (position + 1) hits in
    record {
      numbered = ap (λ l. (position + 1) ∷ l) rest.numbered;
      same_chunks = ap (λ l. hit.chunk_id ∷ l) rest.same_chunks;
      same_documents = ap (λ l. hit.document_id ∷ l) rest.same_documents;
      short = (len-snippet-le hit.content, rest.short);
    }

-- The citations of a list of hits are one for each hit, in the order of the hits and for the same
-- chunks and documents, numbered from 1 without a gap, each with a snippet of at most 220 characters.
pub build-IsCited : (hits : List RetrievalHit) → IsCited 0 hits (build hits)
unfolding build
build-IsCited hits = build_from-IsCited 0 hits
