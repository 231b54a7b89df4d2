-- ===== src/Handlers/Notices.antt =====
-- What reaches a Slack channel of what happened in the cluster (pkg/controller/controller.go,
-- pkg/event/event.go, pkg/handlers/slack/slack.go).
use kubewatch.Common.{
  List, String, [], ap, arith, concat, eq_of_ne, int_eq, lookup, map, nat_eq, refl, string_eq, ◌∷◌,
  ◌≡◌, ◌≢◌,
}
use kubewatch.Common.Result.{Result, ok}
use kubewatch.Pod.{Time}
use kubewatch.Objects.{
  CoreEvent, Event, Object, apps_daemon_set, apps_deployment, apps_replica_set, beta_deployment,
  config_map, core_event, core_pod, core_secret, ext_daemon_set, ext_replica_set, ingress, job,
  kubewatch_event, namespace_object, nil_object, persistent_volume, replication_controller, service,
  tombstone,
}
use kubewatch.Event.{
  describe, get_rollout_event_metadata, message_of, new, overwrite, statuses, text_or_empty,
}
use kubewatch.Controller.{HandlerCall, InformerEvent, created, deleted, process_item, updated}
use kubewatch.Handlers.Slack.{
  Attachment, SlackHandler, SlackPost, notify_slack, prepare_slack_attachment, slack_colors,
  slack_object_created, slack_object_deleted, slack_object_updated,
}
use kubewatch.Handlers.Hipchat.{hipchat_colors, prepare_hipchat_notification}

-- The methods of the interface `Handler`, by which the controller calls Slack.
unfoldable pub slack_call : SlackHandler → HandlerCall → SlackPost
slack_call s (created obj) = slack_object_created s obj
slack_call s (updated obj event) = slack_object_updated s obj (kubewatch_event event)
slack_call s (deleted event) = slack_object_deleted s (kubewatch_event event)

-- The text and the color of each attachment.
abbrev pub texts_of : List Attachment → List (List String × String)
texts_of = map (λ a. (map (λ f. f.value) a.fields, a.color))

rollout-status :
    (event : CoreEvent) (e : Event)
    → (overwrite (record e { kind = "event" }, get_rollout_event_metadata event)).status ≡ e.status
unfolding get_rollout_event_metadata overwrite
rollout-status event e = ground arith

overwrite-status : (obj : Object) (e : Event) → (overwrite (describe obj e)).status ≡ e.status
unfolding describe overwrite
overwrite-status (core_event event) e = rollout-status event e
overwrite-status (ext_daemon_set meta) e = refl
overwrite-status (beta_deployment meta) e = refl
overwrite-status (job meta) e = refl
overwrite-status (namespace_object meta) e = refl
overwrite-status (ingress meta) e = refl
overwrite-status (persistent_volume meta) e = refl
overwrite-status (core_pod node_name meta) e = refl
overwrite-status (replication_controller meta) e = refl
overwrite-status (ext_replica_set meta) e = refl
overwrite-status (service type meta) e = refl
overwrite-status (core_secret meta) e = refl
overwrite-status (config_map meta) e = refl
overwrite-status (kubewatch_event event) e = refl
overwrite-status (apps_deployment meta) e = refl
overwrite-status (apps_replica_set meta) e = refl
overwrite-status (apps_daemon_set meta) e = refl
overwrite-status (tombstone key last) e = refl
overwrite-status nil_object e = refl

abbrev slack_color : String → String
slack_color status = text_or_empty (lookup status slack_colors)

abbrev hipchat_color : String → String
hipchat_color status = text_or_empty (lookup status hipchat_colors)

new_status :
    (obj : Object) (action : String)
    → (new obj action).status ≡ text_or_empty (lookup action statuses)
unfolding new
new_status obj action = overwrite-status obj _

-- A created object is posted in Slack as good and notified in Hipchat as green, an updated one as
-- a warning and yellow, a deleted one as danger and red, whatever the object is.
pub new-colors :
    (obj : Object)
    → ((prepare_slack_attachment (new obj "created")).color ≡ "good")
      × ((prepare_slack_attachment (new obj "updated")).color ≡ "warning")
      × ((prepare_slack_attachment (new obj "deleted")).color ≡ "danger")
      × ((prepare_hipchat_notification (new obj "created")).color ≡ "green")
      × ((prepare_hipchat_notification (new obj "updated")).color ≡ "yellow")
      × ((prepare_hipchat_notification (new obj "deleted")).color ≡ "red")
unfolding prepare_slack_attachment prepare_hipchat_notification
new-colors obj = (
  ap slack_color (new_status obj "created"),
  ap slack_color (new_status obj "updated"),
  ap slack_color (new_status obj "deleted"),
  ap hipchat_color (new_status obj "created"),
  ap hipchat_color (new_status obj "updated"),
  ap hipchat_color (new_status obj "deleted"),
)

-- One attachment, with its text and its color.
abbrev pub notice : String → String → String → String → String → List (List String × String)
notice kind namespace action name color =
    (
      concat (
            "A `" ∷ kind ∷ "` in namespace `" ∷ namespace ∷ "` has been `" ∷ action ∷ "`:\n`" ∷ name
            ∷ "`" ∷ [])
          ∷ [],
      color,
    )
    ∷ []

-- The one text of an event that is made from an event of the controller.
notify_slack_text :
    (s : SlackHandler) (event : Event) (action : String)
    → event.kind ≢ "namespace"
    → event.kind ≢ "Event"
    → texts_of (notify_slack s (kubewatch_event event) action).attachments
      ≡ notice event.kind event.namespace action event.name
          (slack_color (text_or_empty (lookup action statuses)))
unfolding notify_slack prepare_slack_attachment new describe overwrite message_of
notify_slack_text s event action n v =
    rw (message_of, eq_of_ne event.kind "namespace" n, eq_of_ne event.kind "Event" v) refl

-- Where the store answers, the controller of a kind that is neither namespace nor Event makes Slack
-- post one text for an update or a deletion, which names the kind and the key of the object. A
-- deletion names the namespace of the event, an update leaves the namespace empty.
pub slack_call-process_item :
    (s : SlackHandler) (get_by_key : String → Result Object) (start : Time) (e : InformerEvent)
    {stored : Object}
    → get_by_key e.key ≡ ok stored
    → e.resource_type ≢ "namespace"
    → e.resource_type ≢ "Event"
    → let posts =
        map
          (λ call. texts_of (slack_call s call).attachments)
          (process_item get_by_key start e).1 in
      (e.event_type ≡ "update" → posts ≡ notice e.resource_type "" "updated" e.key "warning" ∷ [])
      × (e.event_type ≡ "delete"
          → posts ≡ notice e.resource_type e.namespace "deleted" e.key "danger" ∷ [])
unfolding process_item slack_call slack_object_updated slack_object_deleted
slack_call-process_item s get_by_key start e h n v = (
  λ u. rw (process_item, h, u) (ap (λ t. t ∷ []) (notify_slack_text s _ "updated" n v)),
  λ d. rw (process_item, h, d) (ap (λ t. t ∷ []) (notify_slack_text s _ "deleted" n v)),
)
