-- ===== src/Rag/Ingestion/Added.antt =====
-- What `ingest` leaves behind when it succeeds.
use research_assistant.Base.{
  ℕ, ◌+◌, ◌≡◌, refl, ◌∙◌, String, Bool, false, ap, List, [], ◌∷◌, ◌++◌, arith, map, length,
  length-map, keep_if, append_assoc, append-nil, ◌==◌, string_eq, beq_refl, not,
}
use research_assistant.Base.Text.{◌<>◌}
use research_assistant.Core.Errors.{ok}
use research_assistant.Rag.Chunks.{TextChunk}
use research_assistant.Rag.Tables.{DocumentChunk}
use research_assistant.Rag.Stores.{Vector, zip}
use research_assistant.Rag.Documents.{EmbeddingRecord, prefix_of}
use research_assistant.Rag.Pipeline.{
  IngestionService, IngestionDraws, Rows, chunk_row, embedding_row, add_row, add_rows,
  embed_contents,
}

-- The rows, in order, of pairs from a position.
unfoldable pub chunk_rows :
    IngestionDraws → (document_id : String) → ℕ → List (TextChunk × Vector) → List DocumentChunk
chunk_rows draws document_id position [] = []
chunk_rows draws document_id position ((chunk, vector) ∷ pairs) =
    chunk_row draws document_id position chunk ∷ chunk_rows draws document_id (position + 1) pairs

-- What an embedding record says, and what it has to say for the row of a chunk.
abbrev pub said_by : EmbeddingRecord → String × String × String × ℕ × Bool
said_by e = (e.document_id, e.chunk_id, e.model_name, e.dimensions, e.is_deleted)

abbrev pub said_of :
    {Bytes : Type 0} → IngestionService Bytes → DocumentChunk → String × String × String × ℕ × Bool
said_of service c = (c.document_id, c.chunk_id, service.model_name, service.dimensions, false)

-- The id of a chunk's vector.
abbrev pub vector_id_of : DocumentChunk → String
vector_id_of row = prefix_of row.document_id <> row.chunk_id

module _ {Bytes : Type 0} (service : IngestionService Bytes) (draws : IngestionDraws) where
  -- The loop appends an embedding record for each pair.
  pub add_rows-embeddings :
      (document_id : String) (position : ℕ) (pairs : List (TextChunk × Vector)) (rows behind : Rows)
      → add_rows service draws document_id position pairs rows ≡ ok behind
      → (new : List EmbeddingRecord) × (behind.embeddings ≡ rows.embeddings ++ new)
        × (map said_by new ≡ map (said_of service) (chunk_rows draws document_id position pairs))
  unfolding add_rows chunk_rows
  add_rows-embeddings document_id position [] rows behind done =
      ([], ground (arith, done, append-nil rows.embeddings), refl)
  add_rows-embeddings document_id position ((chunk, vector) ∷ pairs) rows behind done =
      let row = embedding_row service draws document_id position in
      let (new, e, same) =
        add_rows-embeddings document_id (position + 1) pairs
          (add_row service draws document_id position chunk rows) behind (ground (arith, done)) in
      (row ∷ new, e ∙ append_assoc rows.embeddings (row ∷ []) new, ap (λ l. said_by row ∷ l) same)

  -- The loop appends a chunk row and a vector id for each pair.
  pub add_rows-chunks :
      (document_id : String) (position : ℕ) (pairs : List (TextChunk × Vector)) (rows behind : Rows)
      → add_rows service draws document_id position pairs rows ≡ ok behind
      → (behind.chunks ≡ rows.chunks ++ chunk_rows draws document_id position pairs)
        × (behind.vector_ids
            ≡ rows.vector_ids ++ map vector_id_of (chunk_rows draws document_id position pairs))
  unfolding add_rows chunk_rows
  add_rows-chunks document_id position [] rows behind done = (
    ground (arith, done, append-nil rows.chunks),
    ground (arith, done, append-nil rows.vector_ids),
  )
  add_rows-chunks document_id position ((chunk, vector) ∷ pairs) rows behind done =
      let row = chunk_row draws document_id position chunk in
      let later = chunk_rows draws document_id (position + 1) pairs in
      let (c, v) =
        add_rows-chunks document_id (position + 1) pairs
          (add_row service draws document_id position chunk rows) behind (ground (arith, done)) in
      (
        c ∙ append_assoc rows.chunks (row ∷ []) later,
        v ∙ append_assoc rows.vector_ids (vector_id_of row ∷ []) (map vector_id_of later),
      )

pub map-content-chunk_rows :
    (draws : IngestionDraws) (document_id : String) (position : ℕ)
    → (chunks : List TextChunk) (vectors : List Vector) → length vectors ≡ length chunks
    → map (λ c. c.content) (chunk_rows draws document_id position (zip chunks vectors))
      ≡ map (λ c. c.content) chunks
unfolding chunk_rows zip
map-content-chunk_rows draws document_id position [] vectors same = refl
map-content-chunk_rows draws document_id position (c ∷ chunks) [] same =
    absurd (omega (arith, same))
map-content-chunk_rows draws document_id position (c ∷ chunks) (v ∷ vectors) same =
    ap (λ l. c.content ∷ l)
      (map-content-chunk_rows draws document_id (position + 1) chunks vectors (omega (arith, same)))

pub keep_if-chunk_rows :
    (draws : IngestionDraws) (document_id : String) (position : ℕ)
    (pairs : List (TextChunk × Vector))
    → (keep_if (λ c. c.document_id == document_id) (chunk_rows draws document_id position pairs)
        ≡ chunk_rows draws document_id position pairs)
      × (keep_if
            (λ c. not (c.document_id == document_id))
            (chunk_rows draws document_id position pairs)
          ≡ [])
unfolding chunk_rows keep_if
keep_if-chunk_rows draws document_id position [] = (refl, refl)
keep_if-chunk_rows draws document_id position ((chunk, vector) ∷ pairs) =
    let (all, no_other) = keep_if-chunk_rows draws document_id (position + 1) pairs in
    (ground (arith, beq_refl document_id, all), ground (arith, beq_refl document_id, no_other))

pub length-chunk_rows :
    (draws : IngestionDraws) (document_id : String) (position : ℕ)
    → (chunks : List TextChunk) (vectors : List Vector) → length vectors ≡ length chunks
    → length (chunk_rows draws document_id position (zip chunks vectors)) ≡ length chunks
unfolding chunk_rows zip
length-chunk_rows draws document_id position [] vectors same = refl
length-chunk_rows draws document_id position (c ∷ chunks) [] same = absurd (omega (arith, same))
length-chunk_rows draws document_id position (c ∷ chunks) (v ∷ vectors) same =
    omega (
      arith,
      length-chunk_rows draws document_id (position + 1) chunks vectors (omega (arith, same)),
    )

-- The embedder gives one vector for each text.
abbrev pub IsEmbedder : {Bytes : Type 0} → IngestionService Bytes → Type 0
IsEmbedder service =
    (texts : List String) (vectors : List Vector)
    → service.embed texts ≡ ok vectors
    → length vectors ≡ length texts

module _ {Bytes : Type 0} (service : IngestionService Bytes) (draws : IngestionDraws) where
  pub length-embed_contents :
      (chunks : List TextChunk) (vectors : List Vector)
      → IsEmbedder service
      → embed_contents service draws chunks ≡ ok vectors
      → length vectors ≡ length chunks
  length-embed_contents [] vectors one done = ground (arith, done)
  length-embed_contents (c ∷ chunks) vectors one done =
      one (map (λ x. x.content) (c ∷ chunks)) vectors done
      ∙ length-map (λ x. x.content) (c ∷ chunks)
