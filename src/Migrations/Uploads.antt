-- ===== src/Migrations/Uploads.antt =====
-- backend/alembic/versions/0003_uploads.py
use research_assistant.Base.{false, some, [], ◌∷◌}
use research_assistant.Migrations.{
  uuid, string_of, text, big_integer, date_time, sql_text, primary_key, foreign_key, Table,
  create_table, create_index, drop_index, drop_table, Migration, required, optional, defaulting,
  timestamps,
}

abbrev pub uploads_table : Table
uploads_table = record {
  name = "uploads";
  columns =
      required "id" uuid
      ∷ required "user_id" uuid
      ∷ required "storage_key" (string_of 512)
      ∷ required "original_name" (string_of 255)
      ∷ required "content_type" (string_of 255)
      ∷ required "size_bytes" big_integer
      ∷ defaulting "status" (string_of 20) (sql_text "'pending'")
      ∷ optional "error" text
      ∷ optional "completed_at" date_time
      ∷ timestamps;
  constraints =
      primary_key "id" "pk_uploads"
      ∷ foreign_key "user_id" "users" "id" "fk_uploads_user_id_users" "CASCADE"
      ∷ [];
}

abbrev pub uploads : Migration
uploads = record {
  revision = "0003";
  down_revision = some "0002";
  upgrade =
      create_table uploads_table
      ∷ create_index (record {
        name = "ix_uploads_user_id";
        table = "uploads";
        columns = "user_id" ∷ [];
        unique = false;
      })
      ∷ [];
  downgrade = drop_index "ix_uploads_user_id" "uploads" ∷ drop_table "uploads" ∷ [];
}
