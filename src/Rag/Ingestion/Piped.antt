-- ===== src/Rag/Ingestion/Piped.antt =====
-- A pipeline that succeeds.
use research_assistant.Base.{
  ◌≡◌, refl, sym, subst, map, ◌⊎◌, String, Option, none, some, List, [], ◌∷◌, arith, length,
  string_eq, inl, inr,
}
use research_assistant.Core.Errors.{Result, ok, err, bind_ok}
use research_assistant.Rag.Chunks.{TextChunk, chunk_document}
use research_assistant.Rag.Tables.{Document}
use research_assistant.Rag.Stores.{Vector, zip}
use research_assistant.Rag.Documents.{Library, get_document_by_id}
use research_assistant.Rag.Pipeline.{
  Upload, IngestionService, IngestionDraws, Rows, add_rows, write_all, write_rows, embed_contents,
  read_chunks, pipeline,
}
use research_assistant.Rag.Ingestion.Added.{
  chunk_rows, add_rows-chunks, add_rows-embeddings, IsEmbedder, length-embed_contents,
}
use research_assistant.Rag.Ingestion.Written.{IsWritten, IsRead}

module _ {Bytes : Type 0} (service : IngestionService Bytes) (draws : IngestionDraws) where
  pub read_chunks-length :
      (upload : Upload) (parser : String) (chunks : List TextChunk) (vectors : List Vector)
      → IsEmbedder service
      → read_chunks service draws upload ≡ ok (parser, chunks, vectors)
      → length vectors ≡ length chunks
  unfolding read_chunks
  read_chunks-length upload parser chunks vectors one done =
      let (bytes, _, with_bytes) = bind_ok (service.get_bytes upload.storage_key) _ _ done in
      let (loader, _, with_loader) =
        bind_ok (service.loader_builder upload.content_type) _ _ with_bytes in
      let (loaded, _, with_loaded) = bind_ok (loader.load bytes) _ _ with_loader in
      let read = chunk_document service.chunk_manager loaded in
      let (embedded, given, last) = bind_ok (embed_contents service draws read) _ _ with_loaded in
      ground (arith, last, length-embed_contents service draws read embedded one given)

  embed_contents-ok :
      (chunks : List TextChunk) (vectors : List Vector)
      → embed_contents service draws chunks ≡ ok vectors
      → ((chunks ≡ []) × (vectors ≡ []))
        ⊎ (service.embed (map (λ c. c.content) chunks) ≡ ok vectors)
  embed_contents-ok [] vectors done = inl (refl, ground (arith, done))
  embed_contents-ok (c ∷ chunks) vectors done = inr done

  pub read_chunks-IsRead :
      (upload : Upload) (parser : String) (chunks : List TextChunk) (vectors : List Vector)
      → read_chunks service draws upload ≡ ok (parser, chunks, vectors)
      → IsRead service upload parser chunks vectors
  unfolding read_chunks
  read_chunks-IsRead upload parser chunks vectors done =
      let (bytes, fetched, with_bytes) = bind_ok (service.get_bytes upload.storage_key) _ _ done in
      let (loader, chosen, with_loader) =
        bind_ok (service.loader_builder upload.content_type) _ _ with_bytes in
      let (loaded, parsed, with_loaded) = bind_ok (loader.load bytes) _ _ with_loader in
      let read = chunk_document service.chunk_manager loaded in
      let (embedded, given, last) = bind_ok (embed_contents service draws read) _ _ with_loaded in
      let cut : read ≡ chunks = ground (arith, last) in
      let same : embedded ≡ vectors = ground (arith, last) in
      record {
        bytes = bytes;
        loader = loader;
        loaded = loaded;
        fetched = fetched;
        chosen = chosen;
        parsed = parsed;
        named = ground (arith, last);
        cut = sym cut;
        embedded = embed_contents-ok chunks vectors (
            subst (λ c. embed_contents service draws c ≡ ok vectors) cut
              (subst (λ v. embed_contents service draws read ≡ ok v) same given));
      }

  write_rows-ok :
      (document_id parser : String) (chunks : List TextChunk) (vectors : List Vector)
      (library : Library)
      → (write_rows service draws document_id parser chunks vectors library).0 ≡ ok tt
      → IsWritten service document_id parser draws.completed_at
          (chunk_rows draws document_id 0 (zip chunks vectors))
          vectors
          library
          (write_rows service draws document_id parser chunks vectors library).1
  unfolding write_rows write_all
  write_rows-ok document_id parser chunks vectors library done =
      go
        (add_rows service draws document_id 0 (zip chunks vectors)
          (record { chunks = library.chunks; embeddings = library.embeddings; vector_ids = [] }))
        refl
    where
      go :
          (r : Result Rows)
          → add_rows service draws document_id 0
              (zip chunks vectors)
              (record { chunks = library.chunks; embeddings = library.embeddings; vector_ids = [] })
            ≡ r
          → IsWritten service document_id parser draws.completed_at
              (chunk_rows draws document_id 0 (zip chunks vectors))
              vectors
              library
              (write_rows service draws document_id parser chunks vectors library).1
      go (err x) f = absurd (ground (arith, f, done))
      go (ok rows) f =
          let (c, v) = add_rows-chunks service draws document_id 0 (zip chunks vectors) _ rows f in
          record {
            chunks = ground (arith, f, done, c);
            embeddings =
                let (new, e, said) =
                  add_rows-embeddings service draws document_id 0 (zip chunks vectors) _ rows f in
                (new, ground (arith, f, done, e), said);
            store = ground (arith, f, done, v);
            documents = ground (arith, f, done);
          }

  pub pipeline-ok :
      (document_id : String) (upload : Upload) (library : Library) (chunks : List TextChunk)
      → (pipeline service draws document_id upload library).0 ≡ ok chunks
      → (parser : String) × (vectors : List Vector) × (read_chunks service draws upload
          ≡ ok (parser, chunks, vectors))
        × IsWritten service document_id parser draws.completed_at
            (chunk_rows draws document_id 0 (zip chunks vectors))
            vectors
            library
            (pipeline service draws document_id upload library).1
  unfolding pipeline
  pipeline-ok document_id upload library chunks done = go (read_chunks service draws upload) refl
    where
      Written : Type 0
      Written =
          (parser : String) × (vectors : List Vector) × (read_chunks service draws upload
            ≡ ok (parser, chunks, vectors))
          × IsWritten service document_id parser draws.completed_at
              (chunk_rows draws document_id 0 (zip chunks vectors)) vectors library
              (pipeline service draws document_id upload library).1

      written :
          (parser : String) (cs : List TextChunk) (vectors : List Vector) (d : Document)
          → (r : Result (Unit {0})) → read_chunks service draws upload ≡ ok (parser, cs, vectors)
          → get_document_by_id document_id library.documents ≡ some d
          → (write_rows service draws document_id parser cs vectors library).0 ≡ r
          → Written
      written parser cs vectors d (err x) f g w = absurd (ground (arith, f, g, w, done))
      written parser cs vectors d (ok u) f g w =
          let same : cs ≡ chunks = ground (arith, f, g, w, done) in
          let f' = subst (λ c. read_chunks service draws upload ≡ ok (parser, c, vectors)) same f in
          let w' =
            subst (λ c. (write_rows service draws document_id parser c vectors library).0 ≡ ok u)
              same w in
          let behind = (write_rows service draws document_id parser chunks vectors library).1 in
          (
            parser,
            vectors,
            f',
            subst
                (IsWritten service document_id parser draws.completed_at
                  (chunk_rows draws document_id 0 (zip chunks vectors)) vectors library)
                {x = behind} (ground (arith, f', g, w'))
                (write_rows-ok document_id parser chunks vectors library w'),
          )

      with_document :
          (parser : String) (cs : List TextChunk) (vectors : List Vector)
          → (o : Option Document) → read_chunks service draws upload ≡ ok (parser, cs, vectors)
          → get_document_by_id document_id library.documents ≡ o
          → Written
      with_document parser cs vectors none f g = absurd (ground (arith, f, g, done))
      with_document parser cs vectors (some d) f g =
          written parser cs vectors d
            (write_rows service draws document_id parser cs vectors library).0 f g refl

      go :
          (r : Result (String × List TextChunk × List Vector))
          → read_chunks service draws upload ≡ r
          → Written
      go (err x) f = absurd (ground (arith, f, done))
      go (ok (parser, cs, vectors)) f =
          with_document parser cs vectors (get_document_by_id document_id library.documents) f refl
