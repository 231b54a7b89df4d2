-- ===== src/Handlers/Told.antt =====
-- What each handler sends for a call of the controller (pkg/handlers), from the choice of the
-- handler (pkg/client/run.go) to its client.
pub mod Announced
use kubewatch.Common.{Option, String, [], concat, map, none, some, ◌∷◌, ◌≡◌, ◌≢◌, ◌⊎◌}
use kubewatch.Common.Result.{Result, err, ok, ◌>>=◌}
use kubewatch.Objects.{Object, kubewatch_event}
use kubewatch.Controller.{HandlerCall, created, deleted, updated}
use kubewatch.Handlers.{Net}
use kubewatch.Handlers.Slack.{
  SlackPost, slack_object_created, slack_object_deleted, slack_object_updated,
}
use kubewatch.Handlers.Hipchat.{
  HipchatPost, hipchat_object_created, hipchat_object_deleted, hipchat_object_updated,
}
use kubewatch.Handlers.Mattermost.{
  MattermostMessage, mattermost_object_created, mattermost_object_deleted,
  mattermost_object_updated,
}
use kubewatch.Handlers.Flock.{
  FlockMessage, flock_object_created, flock_object_deleted, flock_object_updated,
}
use kubewatch.Handlers.Webhook.{
  WebhookMessage, webhook_object_created, webhook_object_deleted, webhook_object_updated,
}
use kubewatch.Handlers.Choice.{
  Chosen, default_chosen, flock_chosen, hipchat_chosen, mattermost_chosen, slack_chosen,
  webhook_chosen,
}

-- What the handlers call: `net/http`, `encoding/json` and `url.Parse`.
pub record Outside : Type 1 where
  pub net : Net
  pub marshal_mattermost : MattermostMessage → Result String
  pub marshal_flock : FlockMessage → Result String
  pub marshal_webhook : WebhookMessage → Result String
  pub parse : String → Result String

-- A post to Slack, one to Hipchat or a panic before it, or a request and its answer.
pub data Sent (Response : Type 0) : Type 0 where
  slack_sent : SlackPost → Sent Response
  hipchat_sent : Option HipchatPost → Sent Response
  http_sent : Result Response → Sent Response
  nothing_sent : Sent Response

-- One request that posts a text, if there is one, to a URL as JSON.
abbrev pub json_post : (net : Net) → String → Result String → Result net.Response
json_post net url marshalled = do
  body ← marshalled
  req ← net.new_request "POST" url body
  net.send (net.add_header "Content-Type" "application/json" req)

-- The text for an object of a kind that is neither namespace nor Event.
abbrev pub told_text : String → String → String → String → String
told_text kind namespace action name = concat (
    "A `" ∷ kind ∷ "` in namespace `" ∷ namespace ∷ "` has been `" ∷ action ∷ "`:\n`" ∷ name ∷ "`"
    ∷ [])

module _ (o : Outside) where
  open o use {net, marshal_mattermost, marshal_flock, marshal_webhook, parse}

  -- The methods of the interface `Handler`.
  unfoldable pub tell_created : Chosen → Object → Sent net.Response
  tell_created (slack_chosen s) obj = slack_sent (slack_object_created s obj)
  tell_created (hipchat_chosen s) obj = hipchat_sent (hipchat_object_created parse s obj)
  tell_created (mattermost_chosen s) obj =
      http_sent (mattermost_object_created net marshal_mattermost s obj)
  tell_created (flock_chosen s) obj = http_sent (flock_object_created net marshal_flock s obj)
  tell_created (webhook_chosen s) obj = http_sent (webhook_object_created net marshal_webhook s obj)
  tell_created default_chosen obj = nothing_sent

  unfoldable pub tell_deleted : Chosen → Object → Sent net.Response
  tell_deleted (slack_chosen s) obj = slack_sent (slack_object_deleted s obj)
  tell_deleted (hipchat_chosen s) obj = hipchat_sent (hipchat_object_deleted parse s obj)
  tell_deleted (mattermost_chosen s) obj =
      http_sent (mattermost_object_deleted net marshal_mattermost s obj)
  tell_deleted (flock_chosen s) obj = http_sent (flock_object_deleted net marshal_flock s obj)
  tell_deleted (webhook_chosen s) obj = http_sent (webhook_object_deleted net marshal_webhook s obj)
  tell_deleted default_chosen obj = nothing_sent

  unfoldable pub tell_updated : Chosen → Object → Object → Sent net.Response
  tell_updated (slack_chosen s) old_obj new_obj =
      slack_sent (slack_object_updated s old_obj new_obj)
  tell_updated (hipchat_chosen s) old_obj new_obj =
      hipchat_sent (hipchat_object_updated parse s old_obj new_obj)
  tell_updated (mattermost_chosen s) old_obj new_obj =
      http_sent (mattermost_object_updated net marshal_mattermost s old_obj new_obj)
  tell_updated (flock_chosen s) old_obj new_obj =
      http_sent (flock_object_updated net marshal_flock s old_obj new_obj)
  tell_updated (webhook_chosen s) old_obj new_obj =
      http_sent (webhook_object_updated net marshal_webhook s old_obj new_obj)
  tell_updated default_chosen old_obj new_obj = nothing_sent

  -- The call that the controller makes of its handler.
  unfoldable pub tell : Chosen → HandlerCall → Sent net.Response
  tell h (created obj) = tell_created h obj
  tell h (updated obj event) = tell_updated h obj (kubewatch_event event)
  tell h (deleted event) = tell_deleted h (kubewatch_event event)

  -- The message of a handler is sent to where the handler was set up for, and bears the text; the
  -- webhook sends the parts of the text instead. For Hipchat the client keeps its own base URL where
  -- none is set, and one that cannot be parsed is a panic.
  abbrev pub Announces : Chosen → Sent net.Response → String → String → String → String → Type 0
  Announces (slack_chosen s) (slack_sent p) kind namespace action name =
      (s.token ≢ "")
      × (s.channel ≢ "")
      × (p.token ≡ s.token)
      × (p.channel ≡ s.channel)
      × (map (λ a. map (λ f. f.value) a.fields) p.attachments
          ≡ (told_text kind namespace action name ∷ []) ∷ [])
  Announces (hipchat_chosen s) (hipchat_sent (some p)) kind namespace action name =
      (s.token ≢ "")
      × (s.room ≢ "")
      × (p.token ≡ s.token)
      × (p.room ≡ s.room)
      × (((s.url ≡ "") × (p.base_url ≡ none))
          ⊎ ((s.url ≢ "") × (base : String) × (parse s.url ≡ ok base) × (p.base_url ≡ some base)))
      × (p.request.message ≡ told_text kind namespace action name)
  Announces (hipchat_chosen s) (hipchat_sent none) kind namespace action name =
      (s.url ≢ "") × (e : String) × (parse s.url ≡ err e)
  Announces (mattermost_chosen s) (http_sent r) kind namespace action name =
      (s.channel ≢ "")
      × (s.url ≢ "")
      × (s.username ≢ "")
      × (m : MattermostMessage) × (r ≡ json_post net s.url (marshal_mattermost m))
      × (m.channel ≡ s.channel)
      × (m.username ≡ s.username)
      × (map (λ a. a.title) m.attachements ≡ told_text kind namespace action name ∷ [])
  Announces (flock_chosen s) (http_sent r) kind namespace action name =
      (s.url ≢ "")
      × (m : FlockMessage) × (r ≡ json_post net s.url (marshal_flock m))
      × (map (λ a. a.title) m.attachements ≡ told_text kind namespace action name ∷ [])
  Announces (webhook_chosen s) (http_sent r) kind namespace action name =
      (s.url ≢ "")
      × (m : WebhookMessage) × (r ≡ json_post net s.url (marshal_webhook m))
      × (m.event.kind ≡ kind)
      × (m.event.namespace ≡ namespace)
      × (m.event.reason ≡ action)
      × (m.event.name ≡ name)
  Announces default_chosen nothing_sent kind namespace action name = Unit
  Announces _ _ kind namespace action name = ⊥
