-- ===== src/Migrations/Documents.antt =====
-- backend/alembic/versions/0004_rag_documents.py
use research_assistant.Base.{String, false, some, [], ◌∷◌}
use research_assistant.Migrations.{
  uuid, string_of, text, boolean, integer, big_integer, date_time, json, sql_text, sql_false,
  primary_key, foreign_key, unique_key, Table, Operation, create_table, create_index, drop_index,
  drop_table, Migration, required, optional, defaulting, timestamps,
}

abbrev pub documents_table : Table
documents_table = record {
  name = "documents";
  columns =
      required "id" uuid
      ∷ required "uploader_id" uuid
      ∷ required "name" (string_of 255)
      ∷ required "mime" (string_of 255)
      ∷ required "size_bytes" big_integer
      ∷ required "storage_key" (string_of 512)
      ∷ defaulting "status" (string_of 20) (sql_text "'processing'")
      ∷ required "parser" (string_of 50)
      ∷ required "source_type" (string_of 50)
      ∷ optional "error" text
      ∷ optional "completed_at" date_time
      ∷ timestamps;
  constraints =
      primary_key "id" "pk_documents"
      ∷ foreign_key "uploader_id" "users" "id" "fk_documents_uploader_id_users" "CASCADE"
      ∷ [];
}

abbrev pub document_chunks_table : Table
document_chunks_table = record {
  name = "document_chunks";
  columns =
      required "id" uuid
      ∷ required "document_id" uuid
      ∷ required "index" integer
      ∷ required "content" text
      ∷ required "token_count" integer
      ∷ optional "page" integer
      ∷ optional "heading" (string_of 255)
      ∷ required "metadata" json
      ∷ timestamps;
  constraints =
      primary_key "id" "pk_document_chunks"
      ∷ foreign_key "document_id" "documents" "id" "fk_document_chunks_document_id_documents"
          "CASCADE"
      ∷ unique_key ("document_id" ∷ "index" ∷ []) "uq_document_chunks_document_id_index"
      ∷ [];
}

abbrev pub embeddings_table : Table
embeddings_table = record {
  name = "embeddings";
  columns =
      required "id" uuid
      ∷ required "document_id" uuid
      ∷ required "chunk_id" uuid
      ∷ required "model_name" (string_of 255)
      ∷ required "dimensions" integer
      ∷ defaulting "is_deleted" boolean sql_false
      ∷ timestamps;
  constraints =
      primary_key "id" "pk_embeddings"
      ∷ foreign_key "document_id" "documents" "id" "fk_embeddings_document_id_documents" "CASCADE"
      ∷ foreign_key "chunk_id" "document_chunks" "id" "fk_embeddings_chunk_id_document_chunks"
          "CASCADE"
      ∷ [];
}

-- An index that is not unique, on one column.
abbrev plain_index : (name table column : String) → Operation
plain_index name table column =
    create_index (record { name = name; table = table; columns = column ∷ []; unique = false })

abbrev pub documents_and_chunks : Migration
documents_and_chunks = record {
  revision = "0004";
  down_revision = some "0003";
  upgrade =
      create_table documents_table
      ∷ plain_index "ix_documents_uploader_id" "documents" "uploader_id"
      ∷ create_table document_chunks_table
      ∷ plain_index "ix_document_chunks_document_id" "document_chunks" "document_id"
      ∷ create_table embeddings_table
      ∷ plain_index "ix_embeddings_document_id" "embeddings" "document_id"
      ∷ plain_index "ix_embeddings_chunk_id" "embeddings" "chunk_id"
      ∷ [];
  downgrade =
      drop_index "ix_embeddings_chunk_id" "embeddings"
      ∷ drop_index "ix_embeddings_document_id" "embeddings"
      ∷ drop_table "embeddings"
      ∷ drop_index "ix_document_chunks_document_id" "document_chunks"
      ∷ drop_table "document_chunks"
      ∷ drop_index "ix_documents_uploader_id" "documents"
      ∷ drop_table "documents"
      ∷ [];
}
