-- ===== src/Tests/ConfigTests.antt =====
-- Runs and instances for the configuration (config/config.go).
use kubewatch.Common.{
  List, Option, String, [], ap, arith, concat, eq_iff, if◌then◌else◌, inl, inr, insert, int_eq,
  lookup, lookup-insert_self, nat_eq, none, refl, some, string_eq, true, ◌==◌, ◌∷◌, ◌≡◌, ◌≢◌, ◌⊎◌,
}
use kubewatch.Config.{
  Config, Environment, Files, check_missing_resource_envvars, config_dir, config_path, new_config,
  write, zero_config,
}
use kubewatch.Config.Saved.{FilesLaws, new_config-write}

-- An environment that asks for pods, with a home directory.
abbrev pub pods_env : Environment
pods_env = record {
  getenv = λ name. if name == "KW_POD" then "true" else if name == "HOME" then "/root" else "";
  goos = "linux";
}

abbrev to_general : Config
to_general = record zero_config {
  handler = record zero_config.handler { slack = record { token = ""; channel = "#general" } };
}

completed_run :
    (check_missing_resource_envvars pods_env to_general).resource
    ≡ record zero_config.resource { pod = true }
unfolding check_missing_resource_envvars
completed_run = refl

abbrev pub opened : Option String → String ⊎ String
opened none = inl "no such file"
opened (some b) = inr b

abbrev pub status_of : Option String → Option String
status_of none = some "no such file"
status_of (some b) = none

abbrev pub printed_text : String
printed_text = "handler: {slack: {channel: '#general'}}"

-- A disk that is a map from paths to texts; one configuration can be printed.
abbrev pub files : Config → Files
files c = record {
  Disk = List (String × String);
  FileError = String;
  join = λ a b. concat (a ∷ "/" ∷ b ∷ []);
  stat = λ path disk. status_of (lookup path disk);
  is_not_exist = λ e. e == "no such file";
  create = λ path disk. (none, insert path "" disk);
  open_and_read = λ path disk. opened (lookup path disk);
  write_file = λ path b disk. (none, insert path b disk);
  unmarshal = λ b given. (none, c);
  marshal = λ given. inr printed_text;
}

pub files-FilesLaws : (c : Config) → FilesLaws (files c)
files-FilesLaws c = record {
  written =
      λ path b disk h. let e = lookup-insert_self path b disk in (ap status_of e, ap opened e);
  made = λ path disk h. let e = lookup-insert_self path "" disk in (ap status_of e, ap opened e);
}

abbrev pub empty_file : List (String × String)
empty_file = ("/root/.kubewatch.yaml", "") ∷ []

pub file_there : (files to_general).stat (config_path (files to_general) pods_env) empty_file ≡ none
unfolding config_dir
file_there = refl

written_well : (write (files to_general) pods_env to_general empty_file).0 ≡ none
unfolding write
written_well = refl

pub printed : printed_text ≢ ""
printed = λ p. ground (arith, eq_iff printed_text "", p)

new_config-write_example :
    let disk' = (write (files to_general) pods_env to_general empty_file).1 in
    new_config (files to_general) pods_env disk' ≡ (none, to_general, disk')
new_config-write_example =
    new_config-write (files to_general) (files-FilesLaws to_general) pods_env to_general empty_file
      printed_text refl printed refl file_there written_well
