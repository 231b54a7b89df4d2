-- ===== src/Commands/Tree.antt =====
-- The commands of the program, their flags and what each runs (cmd). cobra parses the command line.
pub mod Reads
pub mod Declared
use kubewatch.Common.{Has, List, String, [], concat, ◌++◌, ◌∷◌}
use kubewatch.Common.Result.{Result}
use kubewatch.Config.{Config, Environment, Files}
use kubewatch.Commands.{
  Ending, Flags, add, command, configure_flock, configure_hipchat, configure_mattermost,
  configure_resource, configure_slack, configure_webhook, remove,
}
use kubewatch.Commands.Root.{Printed, RootEnding, root_run, text_line, view_config}

-- The commands that the variables of the package stand for.
pub data CommandName : Type 0 where
  root_cmd : CommandName
  config_cmd : CommandName
  config_view_cmd : CommandName
  config_add_cmd : CommandName
  slack_config_cmd : CommandName
  hipchat_config_cmd : CommandName
  mattermost_config_cmd : CommandName
  flock_config_cmd : CommandName
  webhook_config_cmd : CommandName
  resource_config_cmd : CommandName
  resource_config_add_cmd : CommandName
  resource_config_remove_cmd : CommandName
  version_cmd : CommandName

pub data FlagKind : Type 0 where
  text_flag : FlagKind
  switch_flag : FlagKind

-- A flag that is declared, with its kind.
abbrev pub Declaration : Type 0
Declaration = String × FlagKind

-- The `AddCommand` calls of cmd/config.go, of cmd/resource.go and of cmd/version.go.
abbrev pub config_commands : List (CommandName × CommandName)
config_commands =
    (root_cmd, config_cmd)
    ∷ (config_cmd, config_view_cmd)
    ∷ (config_cmd, config_add_cmd)
    ∷ (config_add_cmd, slack_config_cmd)
    ∷ (config_add_cmd, hipchat_config_cmd)
    ∷ (config_add_cmd, mattermost_config_cmd)
    ∷ (config_add_cmd, flock_config_cmd)
    ∷ (config_add_cmd, webhook_config_cmd)
    ∷ []

abbrev pub resource_commands : List (CommandName × CommandName)
resource_commands =
    (root_cmd, resource_config_cmd)
    ∷ (resource_config_cmd, resource_config_add_cmd)
    ∷ (resource_config_cmd, resource_config_remove_cmd)
    ∷ []

abbrev pub version_commands : List (CommandName × CommandName)
version_commands = (root_cmd, version_cmd) ∷ []

-- Each command that is added, with the command that it is added to.
abbrev pub added_commands : List (CommandName × CommandName)
added_commands = config_commands ++ resource_commands ++ version_commands

-- The flags that the `init` functions declare.
abbrev pub slack_flags : List Declaration
slack_flags = ("channel", text_flag) ∷ ("token", text_flag) ∷ []

abbrev pub hipchat_flags : List Declaration
hipchat_flags = ("room", text_flag) ∷ ("token", text_flag) ∷ ("url", text_flag) ∷ []

abbrev pub mattermost_flags : List Declaration
mattermost_flags = ("channel", text_flag) ∷ ("url", text_flag) ∷ ("username", text_flag) ∷ []

abbrev pub flock_flags : List Declaration
flock_flags = ("url", text_flag) ∷ []

abbrev pub webhook_flags : List Declaration
webhook_flags = ("url", text_flag) ∷ []

abbrev pub switches : List Declaration
switches =
    ("svc", switch_flag)
    ∷ ("deploy", switch_flag)
    ∷ ("po", switch_flag)
    ∷ ("rc", switch_flag)
    ∷ ("rs", switch_flag)
    ∷ ("ns", switch_flag)
    ∷ ("pv", switch_flag)
    ∷ ("job", switch_flag)
    ∷ ("ds", switch_flag)
    ∷ ("secret", switch_flag)
    ∷ ("cm", switch_flag)
    ∷ ("ing", switch_flag)
    ∷ ("events", switch_flag)
    ∷ []

-- The flags of a command that are its own, and those that the commands below it have too.
unfoldable pub own_flags : CommandName → List Declaration
own_flags slack_config_cmd = slack_flags
own_flags hipchat_config_cmd = hipchat_flags
own_flags mattermost_config_cmd = mattermost_flags
own_flags flock_config_cmd = flock_flags
own_flags webhook_config_cmd = webhook_flags
own_flags _ = []

unfoldable pub persistent_flags : CommandName → List Declaration
persistent_flags resource_config_cmd = switches
persistent_flags _ = []

-- A command and those that stand below it.
pub data Below (a : CommandName) : CommandName → Type 0 where
  itself : Below a a
  under : {parent c : CommandName} → Has (parent, c) added_commands → Below a parent → Below a c

-- A flag is declared for a command if it is its own, or a persistent one of a command that it
-- stands below, itself included.
pub data IsDeclared (d : Declaration) (c : CommandName) : Type 0 where
  own : Has d (own_flags c) → IsDeclared d c
  persistent : {a : CommandName} → Below a c → Has d (persistent_flags a) → IsDeclared d c

-- How a run of the program ends.
pub data Outcome (E : Type 0) : Type 0 where
  edited : Ending E → Outcome E
  ran : RootEnding E → Outcome E
  printed : List (Printed E) → Outcome E
  helped : Outcome E

-- `versionPrettyString`, of the variables that the linker sets.
unfoldable pub version_pretty_string : {E : Type 0} → String → String → List (Printed E)
version_pretty_string git_commit build_date =
    text_line (concat ("gitCommit: " ∷ git_commit ∷ []))
    ∷ text_line (concat ("buildDate: " ∷ build_date ∷ []))
    ∷ []

module _ (fs : Files) (env : Environment) where
  abbrev pub edit_with :
      (Flags → Config → Result Config) → Flags → fs.Disk → Outcome fs.FileError × fs.Disk
  edit_with edit flags disk =
      let (ending, disk') = command fs env (edit flags) disk in (edited ending, disk')

  -- The `Run` of each command.
  unfoldable pub run_command :
      String → String → CommandName → Flags → fs.Disk → Outcome fs.FileError × fs.Disk
  run_command commit date root_cmd flags disk =
      let (ending, disk') = root_run fs env disk in (ran ending, disk')
  run_command commit date config_view_cmd flags disk = (printed (view_config fs env disk), disk)
  run_command commit date slack_config_cmd flags disk = edit_with configure_slack flags disk
  run_command commit date hipchat_config_cmd flags disk = edit_with configure_hipchat flags disk
  run_command commit date mattermost_config_cmd flags disk =
      edit_with configure_mattermost flags disk
  run_command commit date flock_config_cmd flags disk = edit_with configure_flock flags disk
  run_command commit date webhook_config_cmd flags disk = edit_with configure_webhook flags disk
  run_command commit date resource_config_add_cmd flags disk =
      edit_with (configure_resource add) flags disk
  run_command commit date resource_config_remove_cmd flags disk =
      edit_with (configure_resource remove) flags disk
  run_command commit date version_cmd flags disk =
      (printed (version_pretty_string commit date), disk)
  run_command commit date config_cmd flags disk = (helped, disk)
  run_command commit date config_add_cmd flags disk = (helped, disk)
  run_command commit date resource_config_cmd flags disk = (helped, disk)
