-- ===== src/Commands/Settings.antt =====
-- What the commands make of the settings of the handlers (cmd/slack.go, cmd/mattermost.go).
use kubewatch.Common.{
  String, ap, arith, eq_iff, eq_of_ne, if◌then◌else◌, inr, int_eq, nat_eq, none, not, refl,
  string_eq, ◌==◌, ◌≡◌, ◌≢◌,
}
use kubewatch.Common.Result.{ok}
use kubewatch.Config.{Config, Environment, Files, config_path, new_config, write, zero_config}
use kubewatch.Config.Saved.{FilesLaws, new_config-write}
use kubewatch.Commands.{
  Flags, command, configure_mattermost, configure_slack, edit_loaded, finish, finished, save,
  set_if_given,
}
use kubewatch.Handlers.Choice.{run, slack_chosen}
use kubewatch.Handlers.Selection.{run_both_set}

-- The user name of Mattermost is governed by the URL: without a URL on the command line it stays
-- as it was, whatever user name is given, and with one it is replaced, also by an empty name.
pub configure_mattermost-username :
    (flags : Flags) (conf : Config) {channel url username : String}
    → flags.get_string "channel" ≡ ok channel
    → flags.get_string "url" ≡ ok url
    → flags.get_string "username" ≡ ok username
    → (after : Config) × (configure_mattermost flags conf ≡ ok after)
      × (url ≡ "" → after.handler.mattermost.username ≡ conf.handler.mattermost.username)
      × (url ≢ "" → after.handler.mattermost.username ≡ username)
unfolding configure_mattermost
configure_mattermost-username flags conf {channel} {url} {username} c u n =
    let s = conf.handler.mattermost in
    (
      record conf {
        handler = record conf.handler {
          mattermost = record {
            channel = set_if_given channel s.channel;
            url = set_if_given url s.url;
            username = if not (url == "") then username else s.username;
          };
        };
      },
      rw (configure_mattermost, c, u, n) refl,
      λ h. ground (arith, eq_iff url ""),
      λ h. ground (arith, eq_iff url ""),
    )

module _ (fs : Files) (laws : FilesLaws fs) (env : Environment) where
  -- The command finishes, and what it wrote is then read.
  pub slack_saved :
      (flags : Flags) (token channel b : String) (disk : fs.Disk) (conf : Config)
      → flags.get_string "token" ≡ ok token
      → flags.get_string "channel" ≡ ok channel
      → token ≢ ""
      → channel ≢ ""
      → new_config fs env disk ≡ (none, conf, disk)
      → fs.stat (config_path fs env) disk ≡ none
      → let after = record conf {
        handler = record conf.handler { slack = record { token = token; channel = channel } };
      } in
        fs.marshal after ≡ inr b
        → b ≢ ""
        → fs.unmarshal b zero_config ≡ (none, after)
        → (write fs env after disk).0 ≡ none
        → let (ending, disk') = command fs env (configure_slack flags) disk in
          (ending ≡ finished) × (new_config fs env disk' ≡ (none, after, disk'))
  unfolding command edit_loaded save finish configure_slack
  slack_saved flags token channel b disk conf t c nt nc read found m full again w =
      let after : Config = record conf {
        handler = record conf.handler { slack = record { token = token; channel = channel } };
      } in
      let written = write fs env after disk in
      let edit : configure_slack flags conf ≡ ok after =
        rw (configure_slack, t, c, eq_of_ne token "" nt, eq_of_ne channel "" nc) refl in
      let ran : command fs env (configure_slack flags) disk ≡ (finished, written.1) =
        rw (command, read, edit_loaded, edit, save) (ap (finish fs env) (λ i. (w i, written.1))) in
      rw (ran, new_config-write fs laws env after disk b m full again found w) (refl, refl)

  -- Where a token and a channel are given to the command of Slack, the configuration is read and
  -- the file exists, the edited configuration goes through yaml.v2 unharmed and is written without
  -- an error, the command finishes well, and the configuration that is read afterwards starts Slack
  -- with that token and that channel, whatever the environment.
  pub command-configure_slack :
      (flags : Flags) (token channel b : String) (disk : fs.Disk) (conf : Config)
      → flags.get_string "token" ≡ ok token
      → flags.get_string "channel" ≡ ok channel
      → token ≢ ""
      → channel ≢ ""
      → new_config fs env disk ≡ (none, conf, disk)
      → fs.stat (config_path fs env) disk ≡ none
      → let after = record conf {
        handler = record conf.handler { slack = record { token = token; channel = channel } };
      } in
        fs.marshal after ≡ inr b
        → b ≢ ""
        → fs.unmarshal b zero_config ≡ (none, after)
        → (write fs env after disk).0 ≡ none
        → let (ending, disk') = command fs env (configure_slack flags) disk in
          (ending ≡ finished)
          × (run env (new_config fs env disk').1
              ≡ (none, slack_chosen (record { token = token; channel = channel })))
  command-configure_slack flags token channel b disk conf t c nt nc read found m full again w =
      let after : Config = record conf {
        handler = record conf.handler { slack = record { token = token; channel = channel } };
      } in
      let (ending, saved) =
        slack_saved flags token channel b disk conf t c nt nc read found m full again w in
      (ending, rw saved (run_both_set env after nc nt))
