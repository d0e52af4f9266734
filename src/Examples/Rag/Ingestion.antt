-- ===== src/Examples/Rag/Ingestion.antt =====
-- Ingestion and the list of documents at a small library.
use research_assistant.Base.{
  suc, ◌≡◌, refl, ap, keep_if, String, none, some, List, [], ◌∷◌, map, length, ◌==◌, string_eq,
}
use research_assistant.Core.Errors.{ok, Exn, other}
use research_assistant.Rag.Tables.{Document}
use research_assistant.Rag.Stores.{Vector}
use research_assistant.Rag.Documents.{memory_backend}
use research_assistant.Rag.Pipeline.{
  Upload, DocumentLoader, IngestionService, IngestionDraws, new_document,
}
use research_assistant.Rag.Ingestion.Written.{get_rows}
use research_assistant.Rag.Listing.{list_documents}
use research_assistant.Rag.Listing.Pages.{IsPage, list_documents-IsPage}
use research_assistant.Examples.Rag.{library, manager, float}

abbrev pub upload : Upload
upload = record {
  original_name = "notes.txt";
  content_type = "text/plain";
  size_bytes = 5;
  storage_key = "k2";
  status = "ready";
}

abbrev text_loader : DocumentLoader String
text_loader = record {
  parser = "text";
  load = λ text. ok (
      record { page_content = text; source = "text"; page = none; heading = none; metadata = [] }
      ∷ []);
}

abbrev pub embed_texts : List String → List Vector
embed_texts texts = map (λ text. float 1 ∷ []) texts

abbrev pub service : IngestionService String
service = record {
  get_upload = λ upload_id user_id. some upload;
  get_bytes = λ key. ok "cells";
  loader_builder = λ content_type. ok text_loader;
  chunk_manager = manager;
  embed = λ texts. ok (embed_texts texts);
  vector_store = memory_backend;
  model_name = "m";
  dimensions = 1;
  insert_error = λ chunk. none;
  commit_error = none;
  str_of = λ e. "refused";
}

-- The same service with a database that refuses the commit.
abbrev refusal : Exn
refusal = other "OperationalError" "database is locked"

abbrev refusing : IngestionService String
refusing = record service { commit_error = some refusal }

abbrev pub draws : IngestionDraws
draws = record {
  document_uuid = "d2";
  chunk_uuid = λ position. "c2";
  embedding_uuid = λ position. "e2";
  created_at = 7;
  completed_at = 8;
}

pub length-map_texts : (texts : List String) → length (embed_texts texts) ≡ length texts
length-map_texts [] = refl
length-map_texts (text ∷ texts) = ap suc (length-map_texts texts)

abbrev ingested_document : Document
ingested_document = record (new_document draws "u1" upload) {
  status = "ready";
  completed_at = some 8;
}

pub no_chunks : get_rows "d2" library ≡ []
unfolding keep_if
no_chunks = refl

pub no_document : keep_if (λ d. d.document_id == "d2") library.documents ≡ []
unfolding keep_if
no_document = refl

list_documents-IsPage_example : IsPage "u1" 20 library (list_documents "u1" 0 20 library)
list_documents-IsPage_example = list_documents-IsPage "u1" 0 20 library
