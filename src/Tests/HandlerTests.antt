-- ===== src/Tests/HandlerTests.antt =====
-- Runs and instances for the handlers (pkg/handlers, pkg/client/run.go).
use kubewatch.Common.{
  String, [], arith, eq_iff, if◌then◌else◌, int_eq, map, nat_eq, none, refl, string_eq, ◌==◌, ◌||◌,
  ◌∷◌, ◌≡◌, ◌≢◌,
}
use kubewatch.Common.Result.{Result, ok}
use kubewatch.Config.{Config, Environment, check_missing_resource_envvars, zero_config}
use kubewatch.Objects.{Object, persistent_volume}
use kubewatch.Controller.{InformerEvent, process_item}
use kubewatch.Handlers.Slack.{SlackHandler}
use kubewatch.Handlers.Choice.{Chosen, run, slack_chosen, webhook_chosen}
use kubewatch.Handlers.Selection.{NamesNone, run-NamesNone, run-check_missing_resource_envvars}
use kubewatch.Handlers.Told.{Announces, Outside, Sent, tell}
use kubewatch.Handlers.Told.Announced.{run-Announces}

-- Both pairs of Slack variables are set.
abbrev slack_env : Environment
slack_env = record {
  getenv = λ name.
      if name == "SLACK_TOKEN" || name == "KW_SLACK_TOKEN"
      then "xoxb"
      else if name == "SLACK_CHANNEL"
      then "#ops"
      else "";
  goos = "linux";
}

abbrev hooked : Config
hooked = record zero_config {
  handler = record zero_config.handler { webhook = record { url = "https://hook" } };
}

hooked-NamesNone : NamesNone hooked.handler
hooked-NamesNone = record {
  no_channel = refl;
  no_token = refl;
  no_room = refl;
  no_hipchat_token = refl;
  no_mattermost_channel = refl;
  no_mattermost_url = refl;
}

channel_set : slack_env.getenv "SLACK_CHANNEL" ≢ ""
channel_set = λ p. ground (arith, eq_iff "#ops" "", p)

token_set : slack_env.getenv "SLACK_TOKEN" ≢ ""
token_set = λ p. ground (arith, eq_iff "xoxb" "", p)

run-check_missing_resource_envvars_example :
    run slack_env (check_missing_resource_envvars slack_env hooked)
    ≡ (none, slack_chosen (record { token = "xoxb"; channel = "#ops" }))
unfolding check_missing_resource_envvars
run-check_missing_resource_envvars_example =
    run-check_missing_resource_envvars slack_env hooked channel_set token_set

abbrev claim : Object
claim =
    persistent_volume
      (record { name = "pv1"; namespace = ""; creation_timestamp = 50; annotations = [] })

abbrev pub ops : SlackHandler
ops = record { token = "xoxb"; channel = "#ops" }

abbrev volume_store : String → Result Object
volume_store key = ok claim

abbrev volume_updated : InformerEvent
volume_updated = record {
  key = "pv1";
  event_type = "update";
  namespace = "";
  resource_type = "persistent volume";
}

kind_is_not_namespace : volume_updated.resource_type ≢ "namespace"
kind_is_not_namespace = λ p. ground (arith, eq_iff "persistent volume" "namespace", p)

kind_is_not_event : volume_updated.resource_type ≢ "Event"
kind_is_not_event = λ p. ground (arith, eq_iff "persistent volume" "Event", p)

abbrev wire : Outside
wire = record {
  net = record {
    Request = String;
    Response = String;
    new_request = λ method url body. ok url;
    add_header = λ key value request. request;
    send = λ request. ok request;
  };
  marshal_mattermost = λ m. ok m.channel;
  marshal_flock = λ m. ok m.text;
  marshal_webhook = λ m. ok m.event.name;
  parse = λ url. ok url;
}

abbrev hook : Chosen
hook = webhook_chosen (record { url = "https://hook" })

hook_runs : run slack_env hooked ≡ (none, hook)
hook_runs = run-NamesNone hooked hooked-NamesNone slack_env

run-Announces_example :
    let sent = map (tell wire hook) (process_item volume_store 10 volume_updated).1 in
    (volume_updated.event_type ≡ "update"
      → (s : Sent String) × (sent ≡ s ∷ [])
        × Announces wire hook s "persistent volume" "" "updated" "pv1")
    × (volume_updated.event_type ≡ "delete"
        → (s : Sent String) × (sent ≡ s ∷ [])
          × Announces wire hook s "persistent volume" "" "deleted" "pv1")
run-Announces_example =
    run-Announces wire slack_env hooked hook hook_runs volume_store 10 volume_updated refl
      kind_is_not_namespace kind_is_not_event
