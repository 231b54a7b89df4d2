-- ===== src/Tests/SqlTests.antt =====
-- Runs and instances for the connection to the database (pkg/sql/connection.go).
use kubewatch.Common.{
  String, [], if◌then◌else◌, int_eq, nat_eq, none, refl, some, string_eq, true, ◌==◌, ◌∷◌, ◌≡◌,
}
use kubewatch.Common.Int.{pos}
use kubewatch.Common.Result.{err, ok}
use kubewatch.Sql.{
  GoPg, SqlConfig, connected, error_in_connecting, new_db_connection, on_query_processed,
  options_of, query_time, zero_sql_config,
}
use kubewatch.Sql.Secrets.{new_db_connection-shown, shown_of}

abbrev sql_config : SqlConfig
sql_config = record zero_sql_config { addr = "db"; user = "kw"; password = "hunter2" }

-- A database that is down for one user.
abbrev one_db : GoPg
one_db = record {
  Db = String;
  connect = λ o. o.user;
  query_one = λ db. if db == "kw" then none else some "no such user";
}

options_run : (options_of sql_config).addr ≡ "db:"
unfolding options_of
options_run = refl

abbrev slow_only : SqlConfig
slow_only = record zero_sql_config { log_query = true; query_duration_threshold = pos 5000 }

slow_run :
    (on_query_processed slow_only (pos 6000) (ok "SELECT 1")
      ≡ query_time (pos 6000) "SELECT 1" ∷ [])
    × (on_query_processed slow_only (pos 5000) (ok "SELECT 1") ≡ [])
unfolding on_query_processed
slow_run = (refl, refl)

abbrev other_config : SqlConfig
other_config = record sql_config { password = "secret" }

new_db_connection-shown_example :
    let db = one_db.connect (options_of sql_config) in
    let db' = one_db.connect (options_of other_config) in
    ((one_db.query_one db ≡ none)
      → one_db.query_one db' ≡ none
      → (new_db_connection one_db sql_config ≡ some (ok db, connected (shown_of sql_config) ∷ []))
        × (new_db_connection one_db other_config
            ≡ some (ok db', connected (shown_of sql_config) ∷ [])))
    × ((e : String)
        → one_db.query_one db ≡ some e
        → one_db.query_one db' ≡ some e
        → (new_db_connection one_db sql_config
            ≡ some (err e, error_in_connecting (shown_of sql_config) e ∷ []))
          × (new_db_connection one_db other_config ≡ new_db_connection one_db sql_config))
new_db_connection-shown_example = new_db_connection-shown one_db sql_config "secret"
