-- ===== src/Rag/Tables.antt =====
-- backend/app/modules/rag/models.py and queries of repositories.py.
use research_assistant.Base.{
  ℕ, String, Option, List, [], ◌∷◌, ltb, if◌then◌else◌, ◌&&◌, mem, keep_if, Dict, ◌==◌, string_eq,
}

pub record Document : Type 0 where
  pub document_id : String
  pub uploader_id : String
  pub name : String
  pub mime : String
  pub size_bytes : ℕ
  pub storage_key : String
  pub status : String
  pub parser : String
  pub source_type : String
  pub error : Option String
  pub completed_at : Option ℕ
  pub created_at : ℕ

pub record DocumentChunk : Type 0 where
  pub chunk_id : String
  pub document_id : String
  pub index : ℕ
  pub content : String
  pub token_count : ℕ
  pub page : Option ℕ
  pub heading : Option String
  pub metadata : Dict String String

-- `DocumentChunkRepository.get_many`
unfoldable pub get_many : List String → List DocumentChunk → List DocumentChunk
unfolding keep_if mem
get_many chunk_ids chunks = keep_if (λ chunk. mem chunk.chunk_id chunk_ids) chunks

-- `DocumentRepository.get_many_for_user`
unfoldable pub get_many_for_user : List String → (user_id : String) → List Document → List Document
unfolding keep_if mem
get_many_for_user document_ids user_id documents =
    keep_if (λ document. mem document.document_id document_ids && document.uploader_id == user_id)
      documents

-- `DocumentChunkRepository.list_for_document`: the rows of a document by their index.
unfoldable pub insert_by_index : DocumentChunk → List DocumentChunk → List DocumentChunk
insert_by_index chunk [] = chunk ∷ []
insert_by_index chunk (next ∷ rest) =
    let later = insert_by_index chunk rest in
    if ltb next.index chunk.index then next ∷ later else chunk ∷ next ∷ rest

unfoldable pub by_index : List DocumentChunk → List DocumentChunk
unfolding insert_by_index
by_index [] = []
by_index (chunk ∷ chunks) = insert_by_index chunk (by_index chunks)

unfoldable pub list_for_document : (document_id : String) → List DocumentChunk → List DocumentChunk
unfolding by_index keep_if
list_for_document document_id chunks =
    by_index (keep_if (λ chunk. chunk.document_id == document_id) chunks)
