-- ===== src/Handlers/Choice.antt =====
-- The handler that runs for a configuration (pkg/client/run.go, pkg/handlers/handler.go).
use kubewatch.Common.{
  Bool, Option, String, if◌then◌else◌, int_eq, nat_eq, none, not, string_eq, ◌==◌, ◌||◌,
}
use kubewatch.Config.{Config, Environment}
use kubewatch.Handlers.{InitError}
use kubewatch.Handlers.Slack.{SlackHandler, init_slack}
use kubewatch.Handlers.Hipchat.{HipchatHandler, init_hipchat}
use kubewatch.Handlers.Mattermost.{MattermostHandler, init_mattermost}
use kubewatch.Handlers.Flock.{FlockHandler, init_flock}
use kubewatch.Handlers.Webhook.{WebhookHandler, init_webhook}

-- A handler after `Init`; the default one does nothing with any event.
pub data Chosen : Type 0 where
  slack_chosen : SlackHandler → Chosen
  hipchat_chosen : HipchatHandler → Chosen
  mattermost_chosen : MattermostHandler → Chosen
  flock_chosen : FlockHandler → Chosen
  webhook_chosen : WebhookHandler → Chosen
  default_chosen : Chosen

-- `len(value) > 0`.
abbrev pub is_set : String → Bool
is_set value = not (value == "")

abbrev with_init : {A : Type 0} → (A → Chosen) → Option InitError × A → Option InitError × Chosen
with_init make (failure, handler) = (failure, make handler)

-- `Run`: the error of `Init`, on which the program ends, and the handler.
unfoldable pub run : Environment → Config → Option InitError × Chosen
run env c =
    let h = c.handler in
    if is_set h.slack.channel || is_set h.slack.token
    then with_init slack_chosen (init_slack env c)
    else if is_set h.hipchat.room || is_set h.hipchat.token
    then with_init hipchat_chosen (init_hipchat env c)
    else if is_set h.mattermost.channel || is_set h.mattermost.url
    then with_init mattermost_chosen (init_mattermost env c)
    else if is_set h.flock.url
    then with_init flock_chosen (init_flock env c)
    else if is_set h.webhook.url
    then with_init webhook_chosen (init_webhook env c)
    else (none, default_chosen)
