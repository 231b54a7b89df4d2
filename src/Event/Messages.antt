-- ===== src/Event/Messages.antt =====
-- What the events that kubewatch makes say (pkg/event/event.go).
use kubewatch.Common.{String, arith, eq_iff, inl, inr, refl, ◌≡◌, ◌≢◌, ◌⊎◌}
use kubewatch.Objects.{
  CoreEvent, Event, Object, ObjectMeta, apps_daemon_set, apps_deployment, apps_replica_set,
  beta_deployment, config_map, core_event, core_pod, core_secret, ext_daemon_set, ext_replica_set,
  get_object_meta_data, ingress, job, kubewatch_event, namespace_object, nil_object,
  persistent_volume, replication_controller, service, tombstone,
}
use kubewatch.Event.{describe, get_rollout_event_metadata, message_of, new, overwrite}

-- A workload of either version.
pub data IsWorkload : Object → Type 0 where
  apps_d : (m : ObjectMeta) → IsWorkload (apps_deployment m)
  beta_d : (m : ObjectMeta) → IsWorkload (beta_deployment m)
  apps_r : (m : ObjectMeta) → IsWorkload (apps_replica_set m)
  ext_r : (m : ObjectMeta) → IsWorkload (ext_replica_set m)
  apps_s : (m : ObjectMeta) → IsWorkload (apps_daemon_set m)
  ext_s : (m : ObjectMeta) → IsWorkload (ext_daemon_set m)

-- The event of a deployment, replica set or daemon set, of whichever version, never says both what
-- it is and which one: it has no kind, or it has no name and no namespace.
pub new-IsWorkload :
    {obj : Object}
    → IsWorkload obj
    → (action : String)
    → ((new obj action).kind ≡ "")
      ⊎ (((new obj action).name ≡ "") × ((new obj action).namespace ≡ ""))
unfolding new describe overwrite get_object_meta_data
new-IsWorkload (apps_d m) action = inl refl
new-IsWorkload (beta_d m) action = inr (refl, refl)
new-IsWorkload (apps_r m) action = inl refl
new-IsWorkload (ext_r m) action = inr (refl, refl)
new-IsWorkload (apps_s m) action = inl refl
new-IsWorkload (ext_s m) action = inr (refl, refl)

rollout-kind :
    (event : CoreEvent) (e : Event)
    → (overwrite (record e { kind = "event" }, get_rollout_event_metadata event)).kind ≢ "Event"
unfolding get_rollout_event_metadata overwrite
rollout-kind event e = ground (
  arith,
  eq_iff "event" "Event",
  eq_iff "Rollout" "Event",
  eq_iff event.involved_object.kind "Rollout",
)

-- What `describe` and `overwrite` leave of an event that has no message.
overwrite-message :
    (obj : Object) (e : Event)
    → e.kind ≡ ""
    → e.message ≡ ""
    → (overwrite (describe obj e)).kind ≡ "Event"
    → (overwrite (describe obj e)).message ≡ ""
unfolding describe overwrite
overwrite-message (core_event event) e k s h = absurd (rollout-kind event e h)
overwrite-message (ext_daemon_set meta) e k s h = s
overwrite-message (beta_deployment meta) e k s h = s
overwrite-message (job meta) e k s h = s
overwrite-message (namespace_object meta) e k s h = s
overwrite-message (ingress meta) e k s h = s
overwrite-message (persistent_volume meta) e k s h = s
overwrite-message (core_pod node_name meta) e k s h = s
overwrite-message (replication_controller meta) e k s h = s
overwrite-message (ext_replica_set meta) e k s h = s
overwrite-message (service type meta) e k s h = s
overwrite-message (core_secret meta) e k s h = s
overwrite-message (config_map meta) e k s h = s
overwrite-message (kubewatch_event event) e k s h = s
overwrite-message (apps_deployment meta) e k s h = s
overwrite-message (apps_replica_set meta) e k s h = s
overwrite-message (apps_daemon_set meta) e k s h = s
overwrite-message (tombstone key last) e k s h = s
overwrite-message nil_object e k s h = s

-- The message of an event is never shown: where its kind is the one for which the message would
-- be the text, the event has no message and its text is empty.
pub message_of-new :
    (obj : Object) (action : String)
    → (new obj action).kind ≡ "Event"
    → message_of (new obj action) ≡ ""
unfolding new message_of
message_of-new obj action h =
    let e = new obj action in
    let empty : e.message ≡ "" = unfold new in overwrite-message obj _ refl refl h in
    rw (message_of, h, empty)
