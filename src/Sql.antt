-- ===== src/Sql.antt =====
-- The connection to the database (pkg/sql/connection.go). The environment, go-pg and the clock are
-- parameters; reflection sees a structure as the list of its fields.
pub mod Secrets
use kubewatch.Common.{
  Bool, List, Option, String, [], concat, contains, false, if◌then◌else◌, int_eq, keys, nat_eq,
  none, some, string_eq, ◌&&◌, ◌||◌, ◌∷◌,
}
use kubewatch.Common.Int.{int_ltb, pos, ℤ}
use kubewatch.Common.Result.{Result, err, ok}

-- `Config` of this package.
pub record SqlConfig : Type 0 where
  pub addr : String
  pub port : String
  pub user : String
  pub password : String
  pub database : String
  pub application_name : String
  pub log_query : Bool
  pub log_all_query : Bool
  pub export_prom_metrics : Bool
  pub query_duration_threshold : ℤ

pub data FieldValue : Type 0 where
  text_value : String → FieldValue
  flag_value : Bool → FieldValue
  number_value : ℤ → FieldValue

-- A field of a structure: its name, the tags that are written after it, and its value.
pub record Field : Type 0 where
  pub name : String
  pub tags : List (String × String)
  pub content : FieldValue

abbrev env_tags : String → String → List (String × String)
env_tags variable default = ("env", variable) ∷ ("envDefault", default) ∷ []

abbrev pub has_tag : String → List (String × String) → Bool
has_tag tag tags = contains tag (keys tags)

-- The fields of `Config`, as reflection lists them.
unfoldable pub fields_of : SqlConfig → List Field
fields_of cfg =
    record { name = "Addr"; tags = env_tags "PG_ADDR" "127.0.0.1"; content = text_value cfg.addr }
    ∷ record { name = "Port"; tags = env_tags "PG_PORT" "5432"; content = text_value cfg.port }
    ∷ record { name = "User"; tags = env_tags "PG_USER" ""; content = text_value cfg.user }
    ∷ record {
      name = "Password";
      tags = ("env", "PG_PASSWORD") ∷ ("envDefault", "") ∷ ("secretData", "-") ∷ [];
      content = text_value cfg.password;
    }
    ∷ record {
      name = "Database";
      tags = env_tags "PG_DATABASE" "orchestrator";
      content = text_value cfg.database;
    }
    ∷ record {
      name = "ApplicationName";
      tags = env_tags "APP" "orchestrator";
      content = text_value cfg.application_name;
    }
    ∷ record {
      name = "LogQuery";
      tags = env_tags "PG_LOG_QUERY" "true";
      content = flag_value cfg.log_query;
    }
    ∷ record {
      name = "LogAllQuery";
      tags = env_tags "PG_LOG_ALL_QUERY" "false";
      content = flag_value cfg.log_all_query;
    }
    ∷ record {
      name = "ExportPromMetrics";
      tags = env_tags "PG_EXPORT_PROM_METRICS" "false";
      content = flag_value cfg.export_prom_metrics;
    }
    ∷ record {
      name = "QueryDurationThreshold";
      tags = env_tags "PG_QUERY_DUR_THRESHOLD" "5000";
      content = number_value cfg.query_duration_threshold;
    }
    ∷ []

abbrev pub zero_sql_config : SqlConfig
zero_sql_config = record {
  addr = "";
  port = "";
  user = "";
  password = "";
  database = "";
  application_name = "";
  log_query = false;
  log_all_query = false;
  export_prom_metrics = false;
  query_duration_threshold = pos 0;
}

-- `GetConfig`: `env.Parse` fills the fields, and may stop with an error.
unfoldable pub get_config : (SqlConfig → SqlConfig × Option String) → SqlConfig × Option String
get_config parse = parse zero_sql_config

-- `SetString`, which panics on a field of another kind: `none`.
unfoldable pub set_string : String → FieldValue → Option FieldValue
set_string text (text_value _) = some (text_value text)
set_string text (flag_value _) = none
set_string text (number_value _) = none

abbrev with_content : Field → Option FieldValue → Option Field
with_content f none = none
with_content f (some content) = some (record f { content = content })

-- One round of the loop of `obfuscateSecretTags`.
unfoldable pub copy_field : Field → Option Field
copy_field f =
    if has_tag "secretData" f.tags then with_content f (set_string "********" f.content) else some f

abbrev and_then : Option Field → Option (List Field) → Option (List Field)
and_then (some f) (some fs) = some (f ∷ fs)
and_then _ _ = none

unfoldable pub obfuscate_secret_tags : List Field → Option (List Field)
obfuscate_secret_tags [] = some []
obfuscate_secret_tags (f ∷ fs) = and_then (copy_field f) (obfuscate_secret_tags fs)

-- `pg.Options`.
pub record Options : Type 0 where
  pub addr : String
  pub user : String
  pub password : String
  pub database : String
  pub application_name : String

-- go-pg: `Connect`, and the error of the query `SELECT 1` if there is one.
pub record GoPg : Type 1 where
  pub Db : Type 0
  pub connect : Options → Db
  pub query_one : Db → Option String

-- What is logged.
pub data LogLine : Type 0 where
  error_in_connecting : List Field → String → LogLine
  connected : List Field → LogLine
  error_formatting : String → LogLine
  query_time : ℤ → String → LogLine

unfoldable pub options_of : SqlConfig → Options
options_of cfg = record {
  addr = concat (cfg.addr ∷ ":" ∷ cfg.port ∷ []);
  user = cfg.user;
  password = cfg.password;
  database = cfg.database;
  application_name = cfg.application_name;
}

module _ (go_pg : GoPg) where
  -- The test of the new connection, which is dropped where the test fails.
  unfoldable pub test_connection :
      go_pg.Db → Option String → Option (List Field) → Option (Result go_pg.Db × List LogLine)
  test_connection db failure none = none
  test_connection db none (some shown) = some (ok db, connected shown ∷ [])
  test_connection db (some e) (some shown) = some (err e, error_in_connecting shown e ∷ [])

  -- `NewDbConnection` up to the hook: the connection and what is logged, or `none` for a panic.
  unfoldable pub new_db_connection : SqlConfig → Option (Result go_pg.Db × List LogLine)
  new_db_connection cfg =
      let db = go_pg.connect (options_of cfg) in
      test_connection db (go_pg.query_one db) (obfuscate_secret_tags (fields_of cfg))

-- The hook that a connection calls after a query: its duration in milliseconds, and the text of the
-- query.
unfoldable pub on_query_processed : SqlConfig → ℤ → Result String → List LogLine
on_query_processed cfg duration (err e) = error_formatting e ∷ []
on_query_processed cfg duration (ok query) =
    if cfg.log_all_query || (cfg.log_query && int_ltb cfg.query_duration_threshold duration)
    then query_time duration query ∷ []
    else []
