-- ===== src/Handlers/Webhook.antt =====
-- The handler that posts to Webhook (pkg/handlers/webhook/webhook.go).
use kubewatch.Event.{new}
use kubewatch.Common.{
  Option, String, [], concat, if◌then◌else◌, int_eq, nat_eq, none, some, string_eq, ◌==◌, ◌∷◌,
}
use kubewatch.Common.Result.{Result, ◌>>=◌}
use kubewatch.Config.{Config, Environment}
use kubewatch.Objects.{Event, Object}
use kubewatch.Handlers.{InitError, Net, fallback, missing}

pub record WebhookHandler : Type 0 where
  pub url : String

-- The event is embedded.
pub record WebhookMessage : Type 0 where
  pub event : Event

-- The usage text of the error.
unfoldable pub webhook_err_msg : String → String
webhook_err_msg problem = concat (
    "\n" ∷ problem ∷ "\n\n" ∷ "You need to set Webhook url\n"
    ∷ "using \"--url/-u\" or using environment variables:\n\n"
    ∷ "export KW_WEBHOOK_URL=webhook_url\n\n"
    ∷ "Command line flags will override environment variables\n\n" ∷ [])

unfoldable pub check_missing_webhook_vars : WebhookHandler → Option InitError
check_missing_webhook_vars s =
    if s.url == "" then some (missing (webhook_err_msg "Missing Webhook url")) else none

unfoldable pub init_webhook : Environment → Config → Option InitError × WebhookHandler
init_webhook env c =
    let s : WebhookHandler = record { url = fallback env "KW_WEBHOOK_URL" c.handler.webhook.url } in
    (check_missing_webhook_vars s, s)

unfoldable pub prepare_webhook_message : Event → WebhookHandler → WebhookMessage
prepare_webhook_message e m = record { event = e }

module _ (net : Net) (marshal : WebhookMessage → Result String) where
  -- The error, or the response, which the code drops.
  unfoldable pub post_webhook_message : String → WebhookMessage → Result net.Response
  post_webhook_message url message = do
    body ← marshal message
    req ← net.new_request "POST" url body
    net.send (net.add_header "Content-Type" "application/json" req)

  unfoldable pub notify_webhook : WebhookHandler → Object → String → Result net.Response
  notify_webhook s obj action =
      post_webhook_message s.url (prepare_webhook_message (new obj action) s)

  unfoldable pub webhook_object_created : WebhookHandler → Object → Result net.Response
  webhook_object_created s obj = notify_webhook s obj "created"

  unfoldable pub webhook_object_deleted : WebhookHandler → Object → Result net.Response
  webhook_object_deleted s obj = notify_webhook s obj "deleted"

  unfoldable pub webhook_object_updated : WebhookHandler → Object → Object → Result net.Response
  webhook_object_updated s old_obj new_obj = notify_webhook s new_obj "updated"
