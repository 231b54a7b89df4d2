-- ===== src/Tests/CommandTests.antt =====
-- Runs and instances for the commands (cmd).
use kubewatch.Common.{
  Bool, String, [], arith, eq_iff, false, if◌then◌else◌, int_eq, nat_eq, none, refl, string_eq,
  true, ◌==◌, ◌||◌, ◌∷◌, ◌≡◌, ◌≢◌,
}
use kubewatch.Common.Result.{ok}
use kubewatch.Config.{
  Config, Environment, Resource, config_dir, config_path, create_if_not_exist, get_config_file,
  load, new_config, read_file, write, zero_config,
}
use kubewatch.Commands.{
  Flags, add, apply_flags, command, configure_resource, configure_slack, finished, remove,
}
use kubewatch.Commands.Resources.{EditedBy, configure_resource_lem, flags_of}
use kubewatch.Handlers.Choice.{slack_chosen}
use kubewatch.Tests.ConfigTests.{
  empty_file, file_there, files, files-FilesLaws, pods_env, printed, printed_text,
}
use kubewatch.Commands.Root.{root_run, root_run-configure_slack, started, text_line, view_config}
use kubewatch.Commands.Tree.{resource_config_add_cmd, run_command}
use kubewatch.Commands.Tree.Declared.{EndsWell, run_command-EndsWell}
use kubewatch.Commands.Tree.Reads.{Serves}

abbrev pods_and_jobs : String → Bool
pods_and_jobs name = name == "po" || name == "job"

abbrev watching_pods : Config
watching_pods = record zero_config { resource = record zero_config.resource { pod = true } }

removed_run : configure_resource remove (flags_of pods_and_jobs) watching_pods ≡ ok zero_config
unfolding configure_resource apply_flags
removed_run = refl

configure_resource_lem_example :
    (s : Resource) × (configure_resource add (flags_of pods_and_jobs) watching_pods
      ≡ ok (record watching_pods { resource = s }))
    × EditedBy add pods_and_jobs watching_pods.resource s
configure_resource_lem_example = configure_resource_lem add pods_and_jobs watching_pods

-- A command line with a text for each flag, none of them the URL.
abbrev texts : Flags
texts = record {
  get_bool = λ name. ok false;
  get_string = λ name.
      if name == "token"
      then ok "xoxb"
      else if name == "channel"
      then ok "#general"
      else if name == "username"
      then ok "bot"
      else ok "";
}

given_token : texts.get_string "token" ≡ ok "xoxb"
given_token = refl

abbrev with_slack : Config
with_slack = record zero_config {
  handler = record zero_config.handler { slack = record { token = "xoxb"; channel = "#general" } };
}

token_given : with_slack.handler.slack.token ≢ ""
token_given = λ p. ground (arith, eq_iff "xoxb" "", p)

channel_given : with_slack.handler.slack.channel ≢ ""
channel_given = λ p. ground (arith, eq_iff "#general" "", p)

first_read : new_config (files with_slack) pods_env empty_file ≡ (none, zero_config, empty_file)
unfolding new_config load read_file create_if_not_exist get_config_file config_dir
first_read = refl

well_written : (write (files with_slack) pods_env with_slack empty_file).0 ≡ none
unfolding write
well_written = refl

root_run-configure_slack_example :
    let (ending, disk) = command (files with_slack) pods_env (configure_slack texts) empty_file in
    (ending ≡ finished)
    × (root_run (files with_slack) pods_env disk
        ≡ (started (slack_chosen (record { token = "xoxb"; channel = "#general" })), disk))
root_run-configure_slack_example =
    root_run-configure_slack (files with_slack) (files-FilesLaws with_slack) pods_env texts "xoxb"
      "#general" printed_text empty_file zero_config refl refl token_given channel_given first_read
      file_there refl printed refl well_written

-- The view reads the file in the home directory, also where the configuration is elsewhere.
abbrev elsewhere : Environment
elsewhere = record {
  getenv = λ name. if name == "KW_CONFIG" then "/etc/kubewatch" else "/root";
  goos = "linux";
}

viewed :
    (view_config (files with_slack) elsewhere (("/root/.kubewatch.yaml", "a: b") ∷ [])
      ≡ text_line "Contents of .kubewatch.yaml" ∷ text_line "a: b" ∷ [])
    × (config_path (files with_slack) elsewhere ≡ "/etc/kubewatch/.kubewatch.yaml")
unfolding view_config config_dir
viewed = (refl, refl)

flags_served : Serves (flags_of pods_and_jobs) resource_config_add_cmd
flags_served = record {
  serves_text = λ name d. ("", refl);
  serves_switch = λ name d. (pods_and_jobs name, refl);
}

run_command-EndsWell_example :
    EndsWell
      (run_command
        (files with_slack)
        pods_env
        "4f2a"
        "2024-01-01"
        resource_config_add_cmd
        (flags_of pods_and_jobs)
        empty_file).0
run_command-EndsWell_example =
    run_command-EndsWell (files with_slack) pods_env "4f2a" "2024-01-01" resource_config_add_cmd
      (flags_of pods_and_jobs) empty_file flags_served
