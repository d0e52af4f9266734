-- ===== src/Examples/Rag.antt =====
-- Chunking and retrieval at small inputs. The floats of the runs are whole numbers.
pub mod Ingestion
mod Tool
use research_assistant.Base.{
  keep_if, ℕ, ◌+◌, ◌-◌, ◌*◌, ◌≡◌, ◌/◌, refl, String, none, some, List, [], ◌∷◌, ltb, eqb, map,
  length, pos, get, put, if◌then◌else◌, ◌==◌, string_eq, take,
}
use research_assistant.Base.Text.{words}
use research_assistant.Core.Errors.{ok, err}
use research_assistant.Core.Float.{Float, FloatOps}
use research_assistant.Rag.Chunks.{
  LoadedDocument, ChunkManager, chunk_document, all_parts, range_from, chunk_document-parts,
}
use research_assistant.Rag.Citations.{RetrievalHit, build, IsCited, build-IsCited}
use research_assistant.Rag.Lexical.{fit, score, zero_division, score-blank}
use research_assistant.Rag.Tables.{Document, DocumentChunk}
use research_assistant.Rag.Retrieval.{RetrievalService, RetrievalResult, retrieve, limit_of}
use research_assistant.Rag.Stores.{
  FaissVectorStore, faiss_delete_by_prefix, memory_delete_by_prefix,
}
use research_assistant.Rag.Stores.Purge.{IsPurged, faiss_delete_by_prefix-IsPurged}
use research_assistant.Rag.Documents.{Library, get_document}
use research_assistant.Rag.Retrieval.Answers.{IsAnswer, retrieve-IsAnswer}

abbrev pub float : ℕ → Float
float n = record { bits = n }

abbrev pub ops : FloatOps
ops = record {
  zero_float = float 0;
  one_float = float 1;
  of_nat = float;
  plus = λ x y. float (x.bits + y.bits);
  minus = λ x y. float (x.bits - y.bits);
  times = λ x y. float (x.bits * y.bits);
  quotient = λ x y. if eqb x.bits 0 then float 0 else float (x.bits / y.bits);
  lt = λ x y. ltb x.bits y.bits;
  log = λ x. x;
  sqrt = λ x. x;
}

abbrev pub manager : ChunkManager
manager = record {
  split = λ text chunk_size chunk_overlap. text ∷ "  " ∷ [];
  chunk_size = 800;
  chunk_overlap = 100;
}

abbrev loaded : List LoadedDocument
loaded =
    record {
      page_content = " first ";
      source = "pdf";
      page = some 1;
      heading = none;
      metadata = [];
    }
    ∷ record {
      page_content = "second";
      source = "pdf";
      page = some 2;
      heading = none;
      metadata = [];
    }
    ∷ []

chunk_document-parts_example :
    (map (λ c. (c.content, c.page, c.heading)) (chunk_document manager loaded)
      ≡ all_parts manager loaded)
    × (map (λ c. c.index) (chunk_document manager loaded)
        ≡ range_from 0 (length (chunk_document manager loaded)))
chunk_document-parts_example = chunk_document-parts manager loaded

abbrev pub chunk : DocumentChunk
chunk = record {
  chunk_id = "c1";
  document_id = "d1";
  index = 0;
  content = "cells divide";
  token_count = 3;
  page = some 1;
  heading = none;
  metadata = [];
}

abbrev pub document : Document
document = record {
  document_id = "d1";
  uploader_id = "u1";
  name = "biology.pdf";
  mime = "application/pdf";
  size_bytes = 100;
  storage_key = "k1";
  status = "ready";
  parser = "pdf";
  source_type = "upload";
  error = none;
  completed_at = some 1;
  created_at = 0;
}

abbrev pub hit : RetrievalHit
hit = record {
  chunk_id = "c1";
  document_id = "d1";
  document_name = "biology.pdf";
  content = "cells divide";
  score = float 7;
  page = some 1;
  heading = none;
  bm25_score = float 1;
  fused_score = float 1;
}

-- The terms of a text that is written in other letters.
abbrev no_terms : String → List String
no_terms text = if text == "query" then "query" ∷ [] else []

score-blank_example :
    score ops no_terms
      (float 1)
      (float 2)
      (float 1)
      (fit ops no_terms (float 1) (float 2) (float 1) ("текст" ∷ []))
      "query"
    ≡ err zero_division
score-blank_example =
    score-blank ops no_terms (float 1) (float 2) (float 1) "текст" [] "query" "query" [] (λ n. refl)
      refl (refl, tt) refl

abbrev pub service : RetrievalService
service = record {
  rewrite = λ query. query;
  embed = λ text. float 1 ∷ [];
  search = λ vector limit. record { vector_id = "d1:c1"; score = float 7 } ∷ [];
  rerank = none;
  default_top_k = pos 5;
  dense_oversample = 4;
  dense_weight = float 1;
  lexical_weight = float 1;
  parse_uuid = λ text. some text;
  terms_of = words;
  half = float 1;
  k1 = float 2;
  b = float 1;
}

abbrev pub answer : RetrievalResult
answer = record {
  query = "cells";
  rewritten_query = "cells";
  hits = hit ∷ [];
  citations = build (hit ∷ []);
}

pub program : Unit {0}
unfolding retrieve
program = tt

pub answered : retrieve ops service "u1" "cells" none (document ∷ []) (chunk ∷ []) ≡ ok answer
unfolding program get put take
answered = refl

retrieve-IsAnswer_example :
    IsAnswer "u1" (document ∷ []) (chunk ∷ []) (limit_of ops service none) answer
retrieve-IsAnswer_example =
    retrieve-IsAnswer ops service "u1" "cells" none (document ∷ []) (chunk ∷ []) answer refl
      answered

abbrev vectors : FaissVectorStore
vectors = record {
  dims = 1;
  index = (float 1 ∷ []) ∷ (float 2 ∷ []) ∷ [];
  vectors = (float 1 ∷ []) ∷ (float 2 ∷ []) ∷ [];
  ids = "d1:c1" ∷ "d2:c2" ∷ [];
}

faiss_delete_by_prefix-IsPurged_example :
    IsPurged "d1:" vectors (faiss_delete_by_prefix "d1:" vectors)
    × (memory_delete_by_prefix "d1:" (record { vectors = vectors.vectors; ids = vectors.ids })
        ≡ record {
          vectors = (faiss_delete_by_prefix "d1:" vectors).vectors;
          ids = (faiss_delete_by_prefix "d1:" vectors).ids;
        })
faiss_delete_by_prefix-IsPurged_example =
    faiss_delete_by_prefix-IsPurged "d1:" vectors (record { same_index = refl; same_length = refl })

abbrev pub library : Library
library = record {
  documents = document ∷ [];
  chunks = chunk ∷ [];
  embeddings = [];
  store = record { vectors = (float 1 ∷ []) ∷ []; ids = "d1:c1" ∷ [] };
}

pub got : get_document "u1" "d1" library ≡ ok document
unfolding get_document
got = refl
