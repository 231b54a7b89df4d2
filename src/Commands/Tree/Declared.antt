-- ===== src/Commands/Tree/Declared.antt =====
-- No run of a command ends on a flag (cmd).
use kubewatch.Common.{Has-right, Option, String, inl, inr, none, some, there}
use kubewatch.Common.Result.{Result, Result-cases}
use kubewatch.Config.{Config, Environment, Files, new_config, write}
use kubewatch.Commands.{
  Flags, add, command, configure_flock, configure_hipchat, configure_mattermost, configure_resource,
  configure_slack, configure_webhook, edit_loaded, finish, flag_failed, remove, save,
}
use kubewatch.Commands.Tree.{
  CommandName, Outcome, config_add_cmd, config_cmd, config_commands, config_view_cmd, edited,
  flock_config_cmd, hipchat_config_cmd, itself, mattermost_config_cmd, resource_config_add_cmd,
  resource_config_cmd, resource_config_remove_cmd, root_cmd, run_command, slack_config_cmd, under,
  version_cmd, webhook_config_cmd,
}
use kubewatch.Commands.Tree.Reads.{
  IsEdit, Serves, first, flock-IsEdit, hipchat-IsEdit, mattermost-IsEdit, resource-IsEdit,
  slack-IsEdit, webhook-IsEdit,
}

-- A run does not end on a flag.
abbrev pub EndsWell : {E : Type 0} → Outcome E → Type 0
EndsWell (edited (flag_failed e)) = ⊥
EndsWell _ = Unit

module _ (fs : Files) (env : Environment) where
  finish-EndsWell : (w : Option fs.FileError × fs.Disk) → EndsWell (edited (finish fs env w).0)
  unfolding finish
  finish-EndsWell (some e, disk) = tt
  finish-EndsWell (none, disk) = tt

  edit_loaded-EndsWell :
      (edit : Config → Result Config)
      → IsEdit edit
      → (loaded : Option fs.FileError × Config × fs.Disk)
      → EndsWell (edited (edit_loaded fs env edit loaded).0)
  unfolding edit_loaded save
  edit_loaded-EndsWell edit h (some e, conf, disk) = tt
  edit_loaded-EndsWell edit h (none, conf, disk) = elim (Result-cases (edit conf)) [
    | inl (after, e) ↦ rw (edit_loaded, e) (finish-EndsWell (write fs env after disk))
    | inr (m, e) ↦ absurd (rw e at (h conf))
  ]

  command-EndsWell :
      (edit : Config → Result Config) (disk : fs.Disk)
      → IsEdit edit
      → EndsWell (edited (command fs env edit disk).0)
  unfolding command
  command-EndsWell edit disk h = edit_loaded-EndsWell edit h (new_config fs env disk)

module _ (fs : Files) (env : Environment) where
  -- No command reads a flag that is not declared for it: where cobra lets a command read each flag
  -- that is declared for it or, if it is inherited, for a command above it, no run of any command
  -- ends on a flag.
  pub run_command-EndsWell :
      (commit date : String) (c : CommandName) (flags : Flags) (disk : fs.Disk)
      → Serves flags c
      → EndsWell (run_command fs env commit date c flags disk).0
  unfolding run_command
  run_command-EndsWell commit date root_cmd flags disk s = tt
  run_command-EndsWell commit date config_cmd flags disk s = tt
  run_command-EndsWell commit date config_view_cmd flags disk s = tt
  run_command-EndsWell commit date config_add_cmd flags disk s = tt
  run_command-EndsWell commit date resource_config_cmd flags disk s = tt
  run_command-EndsWell commit date version_cmd flags disk s = tt
  run_command-EndsWell commit date slack_config_cmd flags disk s =
      command-EndsWell fs env (configure_slack flags) disk (slack-IsEdit flags s)
  run_command-EndsWell commit date hipchat_config_cmd flags disk s =
      command-EndsWell fs env (configure_hipchat flags) disk (hipchat-IsEdit flags s)
  run_command-EndsWell commit date mattermost_config_cmd flags disk s =
      command-EndsWell fs env (configure_mattermost flags) disk (mattermost-IsEdit flags s)
  run_command-EndsWell commit date flock_config_cmd flags disk s =
      command-EndsWell fs env (configure_flock flags) disk (flock-IsEdit flags s)
  run_command-EndsWell commit date webhook_config_cmd flags disk s =
      command-EndsWell fs env (configure_webhook flags) disk (webhook-IsEdit flags s)
  run_command-EndsWell commit date resource_config_add_cmd flags disk s =
      command-EndsWell fs env (configure_resource add flags) disk
        (resource-IsEdit add flags s (under (Has-right config_commands (there first)) itself))
  run_command-EndsWell commit date resource_config_remove_cmd flags disk s =
      command-EndsWell fs env (configure_resource remove flags) disk (
        resource-IsEdit remove flags s
          (under (Has-right config_commands (there (there first))) itself))
