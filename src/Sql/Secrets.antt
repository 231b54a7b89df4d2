-- ===== src/Sql/Secrets.antt =====
-- What the log of a connection shows of the configuration (pkg/sql/connection.go).
use kubewatch.Common.{
  All, Bool-cases, List, String, [], arith, if◌then◌else◌, inl, inr, map, none, refl, some, true,
  ◌↔◌, ◌∷◌, ◌≡◌, ◌≢◌, ◌⊎◌,
}
use kubewatch.Common.Result.{err, ok}
use kubewatch.Sql.{
  Field, FieldValue, GoPg, SqlConfig, connected, copy_field, error_in_connecting, fields_of,
  flag_value, has_tag, new_db_connection, number_value, obfuscate_secret_tags, on_query_processed,
  options_of, set_string, test_connection, text_value,
}
use kubewatch.Common.Int.{int_ltb, ℤ}

-- What may be shown of a field: a text with the tag is masked.
abbrev pub masked : Field → Field
masked f = if has_tag "secretData" f.tags then record f { content = text_value "********" } else f

abbrev pub IsText : FieldValue → Type 0
IsText (text_value s) = Unit
IsText (flag_value b) = ⊥
IsText (number_value n) = ⊥

-- A field with the tag is a text.
abbrev pub HasTextSecret : Field → Type 0
HasTextSecret f = has_tag "secretData" f.tags ≡ true → IsText f.content

set_string_text :
    (text : String) (v : FieldValue) → IsText v → set_string text v ≡ some (text_value text)
unfolding set_string
set_string_text text (text_value s) h = refl
set_string_text text (flag_value b) h = elim h [ ]
set_string_text text (number_value n) h = elim h [ ]

copy_field-masked : (f : Field) → HasTextSecret f → copy_field f ≡ some (masked f)
unfolding copy_field
copy_field-masked f h = elim (Bool-cases (has_tag "secretData" f.tags)) [
  | inl e ↦ rw (copy_field, e, set_string_text "********" f.content (h e)) refl
  | inr e ↦ rw (copy_field, e) refl
]

-- Where only texts are tagged, the copy of a structure does not panic: it is the structure with
-- each tagged text masked.
pub obfuscate_secret_tags-masked :
    (fs : List Field) → All HasTextSecret fs → obfuscate_secret_tags fs ≡ some (map masked fs)
unfolding obfuscate_secret_tags
obfuscate_secret_tags-masked [] h = refl
obfuscate_secret_tags-masked (f ∷ fs) (h, hs) =
    rw (obfuscate_secret_tags, copy_field-masked f h, obfuscate_secret_tags-masked fs hs) refl

-- What is logged of a configuration.
abbrev pub shown_of : SqlConfig → List Field
shown_of cfg = fields_of (record cfg { password = "********" })

config_shown : (cfg : SqlConfig) → obfuscate_secret_tags (fields_of cfg) ≡ some (shown_of cfg)
unfolding fields_of obfuscate_secret_tags copy_field set_string
config_shown cfg = ground arith

-- The attempt to connect never panics. It logs one line, on the failure of the test query or on the
-- connection, and the line has every field of the configuration but the password, which is masked:
-- with any other password with which the test query has the same outcome, the same is logged.
pub new_db_connection-shown :
    (go_pg : GoPg) (cfg : SqlConfig) (password : String)
    → let db = go_pg.connect (options_of cfg) in
      let other : SqlConfig = record cfg { password = password } in
      let db' = go_pg.connect (options_of other) in
      ((go_pg.query_one db ≡ none)
        → go_pg.query_one db' ≡ none
        → (new_db_connection go_pg cfg ≡ some (ok db, connected (shown_of cfg) ∷ []))
          × (new_db_connection go_pg other ≡ some (ok db', connected (shown_of cfg) ∷ [])))
      × ((e : String)
          → go_pg.query_one db ≡ some e
          → go_pg.query_one db' ≡ some e
          → (new_db_connection go_pg cfg ≡ some (err e, error_in_connecting (shown_of cfg) e ∷ []))
            × (new_db_connection go_pg other ≡ new_db_connection go_pg cfg))
unfolding new_db_connection test_connection
new_db_connection-shown go_pg cfg password =
    let other : SqlConfig = record cfg { password = password } in
    (
      λ h k. (
        rw (new_db_connection, h, config_shown cfg) refl,
        rw (new_db_connection, k, config_shown other) refl,
      ),
      λ e h k. (
        rw (new_db_connection, h, config_shown cfg) refl,
        rw (new_db_connection, h, k, config_shown cfg, config_shown other) refl,
      ),
    )

-- A query whose text is known is logged if all queries are, or if queries are and it took longer
-- than the threshold, and only then.
pub on_query_processed_iff :
    (cfg : SqlConfig) (duration : ℤ) (query : String)
    → (on_query_processed cfg duration (ok query) ≢ []) ↔ (
        (cfg.log_all_query ≡ true)
        ⊎ ((cfg.log_query ≡ true) × (int_ltb cfg.query_duration_threshold duration ≡ true)))
unfolding on_query_processed
on_query_processed_iff cfg duration query = ground arith
