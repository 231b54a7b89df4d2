-- ===== src/Commands/Root.antt =====
-- The command without a subcommand, and the view of the file (cmd/root.go, cmd/config.go).
use kubewatch.Common.{
  List, Option, String, [], concat, eq_of_ne, inl, inr, int_eq, nat_eq, none, refl, some, string_eq,
  ◌∷◌, ◌≡◌, ◌≢◌, ◌⊎◌,
}
use kubewatch.Common.Result.{ok}
use kubewatch.Config.{
  Config, Environment, Files, check_missing_resource_envvars, config_path, filled_in, load,
  new_config, write, zero_config,
}
use kubewatch.Config.Saved.{FilesLaws}
use kubewatch.Commands.{Flags, command, configure_slack, finished}
use kubewatch.Commands.Settings.{slack_saved}
use kubewatch.Handlers.{InitError}
use kubewatch.Handlers.Choice.{Chosen, run, slack_chosen}
use kubewatch.Handlers.Selection.{run_both_set}

-- How the root command ends: by `logrus.Fatal` on the file, by `log.Fatal` on the start of the
-- handler, or with a handler.
pub data RootEnding (E : Type 0) : Type 0 where
  not_loaded : E → RootEnding E
  not_started : InitError → RootEnding E
  started : Chosen → RootEnding E

-- A line that is printed: a text, or the error of reading the file.
pub data Printed (E : Type 0) : Type 0 where
  text_line : String → Printed E
  error_text : E → Printed E

module _ (fs : Files) (env : Environment) where
  unfoldable pub after_run : Option InitError × Chosen → RootEnding fs.FileError
  after_run (some e, chosen) = not_started e
  after_run (none, chosen) = started chosen

  unfoldable pub after_load : Option fs.FileError → Config → RootEnding fs.FileError
  after_load (some e) c = not_loaded e
  after_load none c = after_run (run env (check_missing_resource_envvars env c))

  -- `Run` of the root command.
  unfoldable pub root_run : fs.Disk → RootEnding fs.FileError × fs.Disk
  root_run disk =
      let (failure, c, disk') = load fs env zero_config disk in (after_load failure c, disk')

  abbrev printed_of : fs.FileError ⊎ String → List (Printed fs.FileError)
  printed_of (inl e) = error_text e ∷ text_line "" ∷ []
  printed_of (inr text) = text_line text ∷ []

  -- `config view`, which reads the file in the home directory.
  unfoldable pub view_config : fs.Disk → List (Printed fs.FileError)
  view_config disk =
      let path = concat (env.getenv "HOME" ∷ "/" ∷ ".kubewatch.yaml" ∷ []) in
      text_line "Contents of .kubewatch.yaml" ∷ printed_of (fs.open_and_read path disk)

-- A setting that is there is not taken from the environment.
filled_in_kept :
    (env : Environment) (name value : String) → value ≢ "" → filled_in env name value ≡ value
filled_in_kept env name value h = rw (eq_of_ne value "" h) refl

module _ (fs : Files) (laws : FilesLaws fs) (env : Environment) where
  -- Where a token and a channel are given to the command of Slack, the configuration is read and
  -- the file exists, and yaml.v2 prints the new configuration and reads it again, the command ends
  -- well if its write does, and the root command then starts Slack with that token and that
  -- channel, whatever the environment says.
  pub root_run-configure_slack :
      (flags : Flags) (token channel b : String) (disk : fs.Disk) (conf : Config)
      → flags.get_string "token" ≡ ok token
      → flags.get_string "channel" ≡ ok channel
      → token ≢ ""
      → channel ≢ ""
      → new_config fs env disk ≡ (none, conf, disk)
      → fs.stat (config_path fs env) disk ≡ none
      → let after = record conf {
        handler = record conf.handler { slack = record { token = token; channel = channel } };
      } in
        fs.marshal after ≡ inr b
        → b ≢ ""
        → fs.unmarshal b zero_config ≡ (none, after)
        → (write fs env after disk).0 ≡ none
        → let (ending, disk') = command fs env (configure_slack flags) disk in
          (ending ≡ finished)
          × (root_run fs env disk'
              ≡ (started (slack_chosen (record { token = token; channel = channel })), disk'))
  unfolding root_run after_load after_run new_config check_missing_resource_envvars
  root_run-configure_slack flags token channel b disk conf t c nt nc read found m full again w =
      let after : Config = record conf {
        handler = record conf.handler { slack = record { token = token; channel = channel } };
      } in
      let (ending, saved) =
        slack_saved fs laws env flags token channel b disk conf t c nt nc read found m full again
          w in
      let kept_token = filled_in_kept env "SLACK_TOKEN" token nt in
      let kept_channel = filled_in_kept env "SLACK_CHANNEL" channel nc in
      let chosen =
        run_both_set env (check_missing_resource_envvars env after) (rw kept_channel nc)
          (rw kept_token nt) in
      (
        ending,
        rw (root_run, saved, chosen)
            (λ i. (
              started (slack_chosen (record { token = kept_token i; channel = kept_channel i })),
              (command fs env (configure_slack flags) disk).1,
            )),
      )
