-- ===== src/Migrations.antt =====
-- backend/alembic: the migrations as lists of operations on the schema, and how they are run. What an
-- operation does is the database's: `apply` is a parameter.
pub mod Users
pub mod Uploads
pub mod Documents
pub mod Chain
use research_assistant.Base.{
  ℕ, String, Bool, true, false, Option, none, some, List, [], ◌∷◌, ◌++◌, ◌==◌, string_eq,
  if◌then◌else◌,
}
use research_assistant.Core.Errors.{Result, ok, err, other, ◌>>=◌}
use research_assistant.Core.Config.{Settings}

pub data ColumnType : Type 0 where
  uuid : ColumnType
  string_of : (length : ℕ) → ColumnType
  text boolean integer big_integer date_time json : ColumnType

pub data ServerDefault : Type 0 where
  no_default : ServerDefault
  sql_text : String → ServerDefault
  sql_true sql_false sql_now : ServerDefault

pub record Column : Type 0 where
  pub name : String
  pub column_type : ColumnType
  pub server_default : ServerDefault
  pub nullable : Bool

-- A foreign key names a table and its column.
pub data Constraint : Type 0 where
  primary_key : (column name : String) → Constraint
  foreign_key : (column table referred name ondelete : String) → Constraint
  unique_key : (columns : List String) → (name : String) → Constraint

pub record Table : Type 0 where
  pub name : String
  pub columns : List Column
  pub constraints : List Constraint

pub record Index : Type 0 where
  pub name : String
  pub table : String
  pub columns : List String
  pub unique : Bool

-- The calls of `alembic.op` that the migrations make.
pub data Operation : Type 0 where
  create_table : Table → Operation
  create_index : Index → Operation
  drop_index : (name table : String) → Operation
  drop_table : (name : String) → Operation

pub record Migration : Type 0 where
  pub revision : String
  pub down_revision : Option String
  pub upgrade : List Operation
  pub downgrade : List Operation

abbrev pub required : String → ColumnType → Column
required name type = record {
  name = name;
  column_type = type;
  server_default = no_default;
  nullable = false;
}

abbrev pub optional : String → ColumnType → Column
optional name type = record {
  name = name;
  column_type = type;
  server_default = no_default;
  nullable = true;
}

abbrev pub defaulting : String → ColumnType → ServerDefault → Column
defaulting name type value = record {
  name = name;
  column_type = type;
  server_default = value;
  nullable = false;
}

-- The last two columns of each table.
abbrev pub timestamps : List Column
timestamps =
    defaulting "created_at" date_time sql_now ∷ defaulting "updated_at" date_time sql_now ∷ []

-- revision 0001
abbrev pub baseline : Migration
baseline = record { revision = "0001"; down_revision = none; upgrade = []; downgrade = [] }

module _ {S : Type 0} (apply : Operation → S → Result S) where
  unfoldable pub run_operations : List Operation → S → Result S
  run_operations [] schema = ok schema
  run_operations (operation ∷ operations) schema =
      apply operation schema >>= λ schema'. run_operations operations schema'

  -- `alembic upgrade head`, over the migrations from the first, and `alembic downgrade base`.
  unfoldable pub upgrade_head : List Migration → S → Result S
  unfolding run_operations
  upgrade_head [] schema = ok schema
  upgrade_head (migration ∷ migrations) schema =
      run_operations migration.upgrade schema >>= λ schema'. upgrade_head migrations schema'

  unfoldable pub downgrade_base : List Migration → S → Result S
  unfolding run_operations
  downgrade_base [] schema = ok schema
  downgrade_base (migration ∷ migrations) schema =
      downgrade_base migrations schema >>= λ schema'. run_operations migration.downgrade schema'

url_or : Result String → Option String → Result String
url_or missing none = missing
url_or missing (some url) = if url == "" then missing else ok url

-- The URL that backend/alembic/env.py takes: the one of the configuration, or else of the settings.
unfoldable pub database_url_of : (main_option : Option String) → Settings → Result String
unfolding url_or
database_url_of main_option settings =
    let missing = err (
      other "RuntimeError"
        "DATABASE_URL is not configured; set it in the environment or on the alembic Config (sqlalchemy.url) before running migrations") in
    url_or (url_or missing settings.database_url) main_option
