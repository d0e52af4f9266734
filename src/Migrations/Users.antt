-- ===== src/Migrations/Users.antt =====
-- backend/alembic/versions/0002_auth_users_and_sessions.py
use research_assistant.Base.{true, false, some, [], ◌∷◌}
use research_assistant.Migrations.{
  uuid, string_of, boolean, date_time, sql_text, sql_true, primary_key, foreign_key, Table,
  create_table, create_index, drop_index, drop_table, Migration, required, optional, defaulting,
  timestamps,
}

abbrev pub users_table : Table
users_table = record {
  name = "users";
  columns =
      required "id" uuid
      ∷ required "email" (string_of 255)
      ∷ required "password_hash" (string_of 255)
      ∷ required "display_name" (string_of 255)
      ∷ defaulting "role" (string_of 20) (sql_text "'user'")
      ∷ defaulting "plan" (string_of 20) (sql_text "'free'")
      ∷ defaulting "is_active" boolean sql_true
      ∷ timestamps;
  constraints = primary_key "id" "pk_users" ∷ [];
}

abbrev pub sessions_table : Table
sessions_table = record {
  name = "sessions";
  columns =
      required "id" uuid
      ∷ required "user_id" uuid
      ∷ required "refresh_token_hash" (string_of 64)
      ∷ optional "user_agent" (string_of 512)
      ∷ optional "ip" (string_of 45)
      ∷ required "expires_at" date_time
      ∷ optional "revoked_at" date_time
      ∷ timestamps;
  constraints =
      primary_key "id" "pk_sessions"
      ∷ foreign_key "user_id" "users" "id" "fk_sessions_user_id_users" "CASCADE"
      ∷ [];
}

abbrev pub users_and_sessions : Migration
users_and_sessions = record {
  revision = "0002";
  down_revision = some "0001";
  upgrade =
      create_table users_table
      ∷ create_index (record {
        name = "ix_users_email";
        table = "users";
        columns = "email" ∷ [];
        unique = true;
      })
      ∷ create_table sessions_table
      ∷ create_index (record {
        name = "ix_sessions_user_id";
        table = "sessions";
        columns = "user_id" ∷ [];
        unique = false;
      })
      ∷ create_index (record {
        name = "ix_sessions_refresh_token_hash";
        table = "sessions";
        columns = "refresh_token_hash" ∷ [];
        unique = false;
      })
      ∷ [];
  downgrade =
      drop_index "ix_sessions_refresh_token_hash" "sessions"
      ∷ drop_index "ix_sessions_user_id" "sessions"
      ∷ drop_table "sessions"
      ∷ drop_index "ix_users_email" "users"
      ∷ drop_table "users"
      ∷ [];
}
