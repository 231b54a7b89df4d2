-- ===== src/Handlers/Told/Announced.antt =====
-- That a handler that runs announces what the controller tells it (pkg/client/run.go,
-- pkg/controller/controller.go, pkg/handlers).
use kubewatch.Common.{
  Bool-cases, Option, String, [], ap, arith, eq_iff, eq_of_ne, false, inl, inr, int_eq, map, nat_eq,
  none, refl, string_eq, subst, sym, true, ◌==◌, ◌||◌, ◌∷◌, ◌≡◌, ◌≢◌,
}
use kubewatch.Config.{Config, Environment}
use kubewatch.Objects.{Event, Object, kubewatch_event, zero_event}
use kubewatch.Event.{describe, message_of, new, overwrite}
use kubewatch.Pod.{Time}
use kubewatch.Handlers.{InitError}
use kubewatch.Handlers.Slack.{
  check_missing_slack_vars, init_slack, notify_slack, prepare_slack_attachment,
  slack_object_deleted, slack_object_updated,
}
use kubewatch.Handlers.Hipchat.{
  HipchatHandler, check_missing_hipchat_vars, hipchat_object_deleted, hipchat_object_updated,
  init_hipchat, notify_hipchat, prepare_hipchat_notification,
}
use kubewatch.Handlers.Mattermost.{
  check_missing_mattermost_vars, init_mattermost, mattermost_object_deleted,
  mattermost_object_updated, notify_mattermost, post_mattermost_message, prepare_mattermost_message,
}
use kubewatch.Handlers.Flock.{
  check_missing_flock_vars, flock_object_deleted, flock_object_updated, init_flock, notify_flock,
  post_flock_message, prepare_flock_message,
}
use kubewatch.Handlers.Webhook.{
  check_missing_webhook_vars, init_webhook, notify_webhook, post_webhook_message,
  prepare_webhook_message, webhook_object_deleted, webhook_object_updated,
}
use kubewatch.Handlers.Choice.{
  Chosen, default_chosen, flock_chosen, hipchat_chosen, is_set, mattermost_chosen, run,
  slack_chosen, webhook_chosen,
}
use kubewatch.Handlers.Told.{
  Announces, Outside, Sent, hipchat_sent, http_sent, nothing_sent, slack_sent, tell, tell_deleted,
  tell_updated, told_text,
}
use kubewatch.Controller.{InformerEvent, deleted, process_item, updated}
use kubewatch.Common.Result.{Result, Result-cases, ok}

-- The settings without which a handler does not start.
abbrev pub IsReady : Chosen → Type 0
IsReady (slack_chosen s) = (s.token ≢ "") × (s.channel ≢ "")
IsReady (hipchat_chosen s) = (s.token ≢ "") × (s.room ≢ "")
IsReady (mattermost_chosen s) = (s.channel ≢ "") × (s.url ≢ "") × (s.username ≢ "")
IsReady (flock_chosen s) = s.url ≢ ""
IsReady (webhook_chosen s) = s.url ≢ ""
IsReady default_chosen = Unit

-- The error of the check of a handler.
abbrev missing_of : Chosen → Option InitError
missing_of (slack_chosen s) = check_missing_slack_vars s
missing_of (hipchat_chosen s) = check_missing_hipchat_vars s
missing_of (mattermost_chosen s) = check_missing_mattermost_vars s
missing_of (flock_chosen s) = check_missing_flock_vars s
missing_of (webhook_chosen s) = check_missing_webhook_vars s
missing_of default_chosen = none

missing_of-IsReady : (h : Chosen) → missing_of h ≡ none → IsReady h
unfolding check_missing_slack_vars check_missing_hipchat_vars check_missing_mattermost_vars
    check_missing_flock_vars check_missing_webhook_vars
missing_of-IsReady (slack_chosen s) e = ground (arith, eq_iff s.token "", eq_iff s.channel "")
missing_of-IsReady (hipchat_chosen s) e = ground (arith, eq_iff s.token "", eq_iff s.room "")
missing_of-IsReady (mattermost_chosen s) e =
    ground (arith, eq_iff s.channel "", eq_iff s.url "", eq_iff s.username "")
missing_of-IsReady (flock_chosen s) e = ground (arith, eq_iff s.url "")
missing_of-IsReady (webhook_chosen s) e = ground (arith, eq_iff s.url "")
missing_of-IsReady default_chosen e = tt

-- The error is the one that the check of the handler gives.
run-missing_of : (env : Environment) (c : Config) → (run env c).0 ≡ missing_of (run env c).1
unfolding run init_slack init_hipchat init_mattermost init_flock init_webhook
run-missing_of env c =
    let h = c.handler in
    elim (Bool-cases (is_set h.slack.channel || is_set h.slack.token)) [
      | inl p ↦ rw (run, p) refl
      | inr p ↦ elim (Bool-cases (is_set h.hipchat.room || is_set h.hipchat.token)) [
        | inl q ↦ rw (run, p, q) refl
        | inr q ↦ elim (Bool-cases (is_set h.mattermost.channel || is_set h.mattermost.url)) [
          | inl r ↦ rw (run, p, q, r) refl
          | inr r ↦ elim (Bool-cases (is_set h.flock.url)) [
            | inl f ↦ rw (run, p, q, r, f) refl
            | inr f ↦ elim (Bool-cases (is_set h.webhook.url)) [
              | inl w ↦ rw (run, p, q, r, f, w) refl
              | inr w ↦ rw (run, p, q, r, f, w) refl
            ]
          ]
        ]
      ]
    ]

told_message :
    (event : Event) (action : String)
    → event.kind ≢ "namespace"
    → event.kind ≢ "Event"
    → message_of (new (kubewatch_event event) action)
      ≡ told_text event.kind event.namespace action event.name
unfolding new describe overwrite message_of
told_message event action n v =
    rw (message_of, eq_of_ne event.kind "namespace" n, eq_of_ne event.kind "Event" v) refl

-- What a handler sends of an event, with the action.
module _ (o : Outside) where
  open o use {net, marshal_mattermost, marshal_flock, marshal_webhook, parse}

  abbrev deliver : Chosen → Event → String → Sent net.Response
  deliver (slack_chosen s) e action = slack_sent (notify_slack s (kubewatch_event e) action)
  deliver (hipchat_chosen s) e action =
      hipchat_sent (notify_hipchat parse s (kubewatch_event e) action)
  deliver (mattermost_chosen s) e action =
      http_sent (notify_mattermost net marshal_mattermost s (kubewatch_event e) action)
  deliver (flock_chosen s) e action =
      http_sent (notify_flock net marshal_flock s (kubewatch_event e) action)
  deliver (webhook_chosen s) e action =
      http_sent (notify_webhook net marshal_webhook s (kubewatch_event e) action)
  deliver default_chosen e action = nothing_sent

  tell-updated :
      (h : Chosen) (obj : Object) (e : Event) → tell o h (updated obj e) ≡ deliver h e "updated"
  unfolding tell tell_updated slack_object_updated hipchat_object_updated mattermost_object_updated
      flock_object_updated webhook_object_updated
  tell-updated (slack_chosen s) obj e = refl
  tell-updated (hipchat_chosen s) obj e = refl
  tell-updated (mattermost_chosen s) obj e = refl
  tell-updated (flock_chosen s) obj e = refl
  tell-updated (webhook_chosen s) obj e = refl
  tell-updated default_chosen obj e = refl

  tell-deleted : (h : Chosen) (e : Event) → tell o h (deleted e) ≡ deliver h e "deleted"
  unfolding tell tell_deleted slack_object_deleted hipchat_object_deleted mattermost_object_deleted
      flock_object_deleted webhook_object_deleted
  tell-deleted (slack_chosen s) e = refl
  tell-deleted (hipchat_chosen s) e = refl
  tell-deleted (mattermost_chosen s) e = refl
  tell-deleted (flock_chosen s) e = refl
  tell-deleted (webhook_chosen s) e = refl
  tell-deleted default_chosen e = refl

  hipchat-Announces :
      (s : HipchatHandler) (e : Event) (action : String)
      → IsReady (hipchat_chosen s)
      → e.kind ≢ "namespace"
      → e.kind ≢ "Event"
      → Announces o
          (hipchat_chosen s)
          (deliver (hipchat_chosen s) e action)
          e.kind
          e.namespace
          action
          e.name
  unfolding notify_hipchat prepare_hipchat_notification
  hipchat-Announces s e action (t, r) n v =
      let no_url : (s.url == "") ≡ true → s.url ≡ "" = λ u. (eq_iff s.url "").0 u in
      let a_url : (s.url == "") ≡ false → s.url ≢ "" = λ u q. cc (u, (eq_iff s.url "").1 q) in
      elim (Bool-cases (s.url == "")) [
        | inl u ↦
            rw (notify_hipchat, u)
              (t, r, refl, refl, inl (no_url u, refl), told_message e action n v)
        | inr u ↦ elim (Result-cases (parse s.url)) [
          | inl (base, p) ↦
              rw (notify_hipchat, u, p)
                (t, r, refl, refl, inr (a_url u, base, p, refl), told_message e action n v)
          | inr (m, p) ↦ rw (notify_hipchat, u, p) (a_url u, m, p)
        ]
      ]

  deliver-Announces :
      (h : Chosen) (e : Event) (action : String)
      → IsReady h
      → e.kind ≢ "namespace"
      → e.kind ≢ "Event"
      → Announces o h (deliver h e action) e.kind e.namespace action e.name
  unfolding notify_slack prepare_slack_attachment notify_mattermost prepare_mattermost_message
      notify_flock prepare_flock_message notify_webhook prepare_webhook_message
      post_mattermost_message post_flock_message post_webhook_message new describe overwrite
  deliver-Announces (slack_chosen s) e action (t, c) n v =
      (t, c, refl, refl, ap (λ x. (x ∷ []) ∷ []) (told_message e action n v))
  deliver-Announces (hipchat_chosen s) e action h n v = hipchat-Announces s e action h n v
  deliver-Announces (mattermost_chosen s) e action (c, u, m) n v =
      (c, u, m, _, refl, refl, refl, ap (λ x. x ∷ []) (told_message e action n v))
  deliver-Announces (flock_chosen s) e action u n v =
      (u, _, refl, ap (λ x. x ∷ []) (told_message e action n v))
  deliver-Announces (webhook_chosen s) e action u n v = (u, _, refl, refl, refl, refl, refl)
  deliver-Announces default_chosen e action h n v = tt

  -- If the start succeeds with a handler, then, where the store answers for the key of an event
  -- whose kind is neither namespace nor Event, the processing of an update or a deletion makes
  -- that handler send one message (none if it is the default one), with the text that an object
  -- of that kind and key has been updated or deleted: for a deletion in the namespace of the
  -- event, for an update with the namespace left empty. Slack gets it for the token and channel
  -- of the handler, Hipchat for its token and room, at the parsed URL of the handler if it has
  -- one, Mattermost at its URL for its channel and user, Flock at its URL; all of these but the
  -- URL of Hipchat are not empty. The webhook gets the parts of the text at its URL, which is
  -- not empty. A URL of Hipchat that cannot be parsed is a panic instead.
  pub run-Announces :
      (env : Environment) (c : Config) (h : Chosen)
      → run env c ≡ (none, h)
      → (get_by_key : String → Result Object) (start : Time) (e : InformerEvent) {stored : Object}
      → get_by_key e.key ≡ ok stored
      → e.resource_type ≢ "namespace"
      → e.resource_type ≢ "Event"
      → let sent = map (tell o h) (process_item get_by_key start e).1 in
        (e.event_type ≡ "update"
          → (s : Sent net.Response) × (sent ≡ s ∷ [])
            × Announces o h s e.resource_type "" "updated" e.key)
        × (e.event_type ≡ "delete"
            → (s : Sent net.Response) × (sent ≡ s ∷ [])
              × Announces o h s e.resource_type e.namespace "deleted" e.key)
  unfolding process_item
  run-Announces env c h starts get_by_key start e {stored} k n v =
      let ready : IsReady h =
        missing_of-IsReady h
          (sym (subst (λ r. r.0 ≡ missing_of r.1) starts (run-missing_of env c))) in
      let changed : Event = record zero_event { kind = e.resource_type; name = e.key } in
      let gone : Event = record changed { namespace = e.namespace } in
      (
        λ u. (
          deliver h changed "updated",
          rw (process_item, k, u) (ap (λ s. s ∷ []) (tell-updated h stored changed)),
          deliver-Announces h changed "updated" ready n v,
        ),
        λ d. (
          deliver h gone "deleted",
          rw (process_item, k, d) (ap (λ s. s ∷ []) (tell-deleted h gone)),
          deliver-Announces h gone "deleted" ready n v,
        ),
      )
