-- ===== src/Examples/Wired.antt =====
-- Ingestion over the local storage.
use research_assistant.Base.{◌≡◌, refl, none, some, [], ◌∷◌, get, put, mem, keep_if}
use research_assistant.Base.Text.{strip}
use research_assistant.Core.Errors.{Result, ok, err, other}
use research_assistant.Rag.Pipeline.{new_document}
use research_assistant.Rag.Ingestion.{IngestionResult, ingest}
use research_assistant.Rag.Documents.{memory_backend}
use research_assistant.Rag.Loaders.{Parsers}
use research_assistant.Rag.Wired.{Surroundings, local_ingestion}
use research_assistant.Shared.Paths.{names_equal}
use research_assistant.Shared.Storage.{Bytes, Disk}
use research_assistant.Examples.Api.{models, hashing, sentences}
use research_assistant.Examples.Rag.{ops, document, library, manager}
use research_assistant.Examples.Rag.Ingestion.{upload, draws, service}
use research_assistant.Examples.Shared.{repr, hex, root}

abbrev stored : Disk
stored = record {
  files = ("k2" ∷ root, record { content = 1 ∷ 2 ∷ []; mtime = 0 }) ∷ [];
  dirs = root ∷ [];
}

abbrev parsers : Parsers Bytes
parsers = record {
  decode = λ encoding bytes. "cells";
  pdf_pages = λ bytes. err (other "FileDataError" "");
  docx_paragraphs = λ bytes. err (other "BadZipFile" "");
  normalize_content_type = λ content_type. content_type;
  docx_type = "docx";
  text_types = "text/plain" ∷ [];
  lower = λ text. text;
}

abbrev surroundings : Surroundings
surroundings = record {
  get_upload = service.get_upload;
  chunk_manager = manager;
  vector_store = memory_backend;
  model_name = "m";
  dimensions = 1;
  insert_error = service.insert_error;
  commit_error = none;
  str_of = service.str_of;
}

abbrev or_nothing : Result IngestionResult → IngestionResult
or_nothing (ok result) = result
or_nothing (err e) = record { document = document; chunk_count = 0 }

abbrev result : IngestionResult
result = record {
  document = record (new_document draws "u1" upload) { status = "ready"; completed_at = some 8 };
  chunk_count = 1;
}

ingested :
    (ingest
      (local_ingestion ops hashing models sentences parsers repr hex root stored surroundings)
      draws
      "u1"
      "up1"
      library).0
    ≡ ok result
unfolding local_ingestion ingest names_equal get put mem keep_if strip
ingested = refl
