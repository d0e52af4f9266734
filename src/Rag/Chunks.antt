-- ===== src/Rag/Chunks.antt =====
-- backend/app/modules/rag/chunking.py, with the token estimate of splitters.py and the units of
-- loaders.py. The splitter is a library's.
use research_assistant.Base.{
  ℕ, zero, suc, ◌+◌, ◌/◌, ◌≡◌, refl, String, Option, List, [], ◌∷◌, ◌++◌, arith, max, not, map,
  keep_if, length, length-append, map-append, Dict, put, ◌==◌, string_eq, if◌then◌else◌,
}
use research_assistant.Base.Text.{strip, len}

pub record LoadedDocument : Type 0 where
  pub page_content : String
  pub source : String
  pub page : Option ℕ
  pub heading : Option String
  pub metadata : Dict String String

pub record TextChunk : Type 0 where
  pub content : String
  pub index : ℕ
  pub token_count : ℕ
  pub page : Option ℕ
  pub heading : Option String
  pub metadata : Dict String String

-- The port `TextSplitter`, and the settings of the manager.
pub record ChunkManager : Type 0 where
  pub split : String → (chunk_size chunk_overlap : ℕ) → List String
  pub chunk_size : ℕ
  pub chunk_overlap : ℕ

unfoldable pub estimate_tokens : String → ℕ
unfolding len
estimate_tokens text = max 1 ((len text + 3) / 4)

-- `{**left, **right}`
unfoldable pub merge : Dict String String → Dict String String → Dict String String
merge left [] = left
merge left ((key, value) ∷ right) = merge (put key value left) right

abbrev pub new_chunk : LoadedDocument → String → ℕ → TextChunk
new_chunk document content index = record {
  content = content;
  index = index;
  token_count = estimate_tokens content;
  page = document.page;
  heading = document.heading;
  metadata = merge (("source", document.source) ∷ []) document.metadata;
}

-- The inner loop: the chunks that it appends, from the variable `index`.
unfoldable pub chunk_pieces : LoadedDocument → ℕ → List String → List TextChunk
unfolding strip
chunk_pieces document index [] = []
chunk_pieces document index (piece ∷ pieces) =
    let content = strip piece in
    let skipped = chunk_pieces document index pieces in
    let more = chunk_pieces document (index + 1) pieces in
    if content == "" then skipped else new_chunk document content index ∷ more

module _ (manager : ChunkManager) where
  abbrev pub pieces_of : LoadedDocument → List String
  pieces_of document = manager.split document.page_content manager.chunk_size manager.chunk_overlap

  -- The outer loop, from the variable `index`, which the inner loop moves by one for each chunk.
  unfoldable pub chunk_from : ℕ → List LoadedDocument → List TextChunk
  unfolding chunk_pieces
  chunk_from index [] = []
  chunk_from index (document ∷ loaded) =
      let chunks = chunk_pieces document index (pieces_of document) in
      chunks ++ chunk_from (index + length chunks) loaded

  unfoldable pub chunk_document : List LoadedDocument → List TextChunk
  unfolding chunk_from
  chunk_document loaded = chunk_from 0 loaded

-- `n` numbers from `start`.
unfoldable pub range_from : (start n : ℕ) → List ℕ
range_from start zero = []
range_from start (suc n) = start ∷ range_from (start + 1) n

pub range_from-append :
    (start m n : ℕ) → range_from start (m + n) ≡ range_from start m ++ range_from (start + m) n
unfolding range_from
range_from-append start zero n = ground arith
range_from-append start (suc m) n =
    let longer : suc m + n ≡ suc (m + n) = omega arith in
    let later : start + suc m ≡ (start + 1) + m = omega arith in
    rw (longer, later, range_from-append (start + 1) m n)

-- What a chunk shows of its document.
abbrev pub Part : Type 0
Part = String × Option ℕ × Option String

abbrev part_of : TextChunk → Part
part_of c = (c.content, c.page, c.heading)

-- The pieces of a document that are not blank, stripped, each with the document's page and heading.
abbrev pub parts : LoadedDocument → List String → List Part
parts document pieces =
    map (λ content. (content, document.page, document.heading))
      (keep_if (λ content. not (content == "")) (map strip pieces))

abbrev pub all_parts : ChunkManager → List LoadedDocument → List Part
all_parts manager [] = []
all_parts manager (document ∷ loaded) =
    parts document (pieces_of manager document) ++ all_parts manager loaded

chunk_pieces-parts :
    (document : LoadedDocument) (index : ℕ) (pieces : List String)
    → map part_of (chunk_pieces document index pieces) ≡ parts document pieces
unfolding chunk_pieces keep_if
chunk_pieces-parts document index [] = refl
chunk_pieces-parts document index (piece ∷ pieces) = ground (
  arith,
  chunk_pieces-parts document index pieces,
  chunk_pieces-parts document (index + 1) pieces,
)

chunk_pieces-range :
    (document : LoadedDocument) (index : ℕ) (pieces : List String)
    → map (λ c. c.index) (chunk_pieces document index pieces)
      ≡ range_from index (length (chunk_pieces document index pieces))
unfolding chunk_pieces range_from
chunk_pieces-range document index [] = refl
chunk_pieces-range document index (piece ∷ pieces) = ground (
  arith,
  chunk_pieces-range document index pieces,
  chunk_pieces-range document (index + 1) pieces,
)

module _ (manager : ChunkManager) where
  chunk_from-parts :
      (index : ℕ) (loaded : List LoadedDocument)
      → map part_of (chunk_from manager index loaded) ≡ all_parts manager loaded
  unfolding chunk_from
  chunk_from-parts index [] = refl
  chunk_from-parts index (document ∷ loaded) =
      let chunks = chunk_pieces document index (pieces_of manager document) in
      rw (
        map-append part_of chunks (chunk_from manager (index + length chunks) loaded),
        chunk_pieces-parts document index (pieces_of manager document),
        chunk_from-parts (index + length chunks) loaded,
      )

  chunk_from-range :
      (index : ℕ) (loaded : List LoadedDocument)
      → map (λ c. c.index) (chunk_from manager index loaded)
        ≡ range_from index (length (chunk_from manager index loaded))
  unfolding chunk_from range_from
  chunk_from-range index [] = refl
  chunk_from-range index (document ∷ loaded) =
      let chunks = chunk_pieces document index (pieces_of manager document) in
      let rest = chunk_from manager (index + length chunks) loaded in
      rw (
        map-append (λ c. c.index) chunks rest,
        length-append chunks rest,
        range_from-append index (length chunks) (length rest),
        chunk_pieces-range document index (pieces_of manager document),
        chunk_from-range (index + length chunks) loaded,
      )

  -- Chunking loses and invents nothing: the chunks are, in order, the pieces of the documents that are
  -- not blank, stripped, each with its own document's page and heading, and they are numbered from 0
  -- without a gap.
  pub chunk_document-parts :
      (loaded : List LoadedDocument)
      → (map (λ c. (c.content, c.page, c.heading)) (chunk_document manager loaded)
          ≡ all_parts manager loaded)
        × (map (λ c. c.index) (chunk_document manager loaded)
            ≡ range_from 0 (length (chunk_document manager loaded)))
  unfolding chunk_document
  chunk_document-parts loaded = (chunk_from-parts 0 loaded, chunk_from-range 0 loaded)
