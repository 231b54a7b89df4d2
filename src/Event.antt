-- ===== src/Event.antt =====
-- The events that kubewatch reports of objects, and their texts (pkg/event/event.go).
pub mod Messages
use kubewatch.Common.{
  List, Option, String, [], concat, if◌then◌else◌, int_eq, lookup, nat_eq, none, some, string_eq,
  ◌==◌, ◌∷◌,
}
use kubewatch.Pod.{Time}
use kubewatch.Objects.{
  CoreEvent, Event, Object, apps_daemon_set, apps_deployment, apps_replica_set, beta_deployment,
  config_map, core_event, core_pod, core_secret, ext_daemon_set, ext_replica_set,
  get_object_meta_data, ingress, job, kubewatch_event, namespace_object, nil_object,
  persistent_volume, replication_controller, service, tombstone, zero_event,
}

pub record EventMetaData : Type 0 where
  pub kind : String
  pub name : String
  pub name_space : String
  pub resource_version : String
  pub creation_time_stamp : Time
  pub source_component : String
  pub reason : String
  pub message : String
  pub uid : String
  pub pipeline_name : String
  pub release_version : String
  pub gen : String

-- A missing key of a map of texts reads as the empty text.
abbrev pub text_or_empty : Option String → String
text_or_empty none = ""
text_or_empty (some text) = text

-- The map `m` from an action to a status.
abbrev pub statuses : List (String × String)
statuses = ("created", "Normal") ∷ ("deleted", "Danger") ∷ ("updated", "Warning") ∷ []

unfoldable pub get_rollout_event_metadata : CoreEvent → Option EventMetaData
get_rollout_event_metadata event =
    let object = event.involved_object in
    let ann = event.meta.annotations in
    if object.kind == "Rollout"
    then some (record {
      kind = object.kind;
      name = object.name;
      name_space = object.namespace;
      resource_version = object.resource_version;
      creation_time_stamp = event.meta.creation_timestamp;
      source_component = event.source_component;
      reason = event.reason;
      message = event.message;
      uid = object.uid;
      pipeline_name = text_or_empty (lookup "pipelineName" ann);
      release_version = text_or_empty (lookup "releaseVersion" ann);
      gen = text_or_empty (lookup "gen" ann);
    })
    else none

-- The `switch` of `New` on the type of the object, over the event that its metadata give: the
-- event, and the metadata of a rollout.
unfoldable pub describe : Object → Event → Event × Option EventMetaData
describe (ext_daemon_set meta) e = (record e { kind = "daemon set" }, none)
describe (beta_deployment meta) e = (record e { kind = "deployment" }, none)
describe (job meta) e = (record e { kind = "job" }, none)
describe (namespace_object meta) e = (record e { kind = "namespace" }, none)
describe (ingress meta) e = (record e { kind = "ingress" }, none)
describe (persistent_volume meta) e = (record e { kind = "persistent volume" }, none)
describe (core_pod node_name meta) e = (record e { kind = "pod"; host = node_name }, none)
describe (replication_controller meta) e = (record e { kind = "replication controller" }, none)
describe (ext_replica_set meta) e = (record e { kind = "replica set" }, none)
describe (service type meta) e = (record e { kind = "service"; component = type }, none)
describe (core_secret meta) e = (record e { kind = "secret" }, none)
describe (config_map meta) e = (record e { kind = "configmap" }, none)
describe (core_event event) e = (record e { kind = "event" }, get_rollout_event_metadata event)
describe (kubewatch_event event) e =
    (record e { name = event.name; kind = event.kind; namespace = event.namespace }, none)
describe (apps_deployment meta) e = (e, none)
describe (apps_replica_set meta) e = (e, none)
describe (apps_daemon_set meta) e = (e, none)
describe (tombstone key last) e = (e, none)
describe nil_object e = (e, none)

-- `if eventMetaData != nil`.
unfoldable pub overwrite : Event × Option EventMetaData → Event
overwrite (e, none) = e
overwrite (e, some extra) = record e {
  kind = extra.kind;
  component = extra.source_component;
  namespace = extra.name_space;
  reason = extra.reason;
  message = extra.message;
  resource_revision = extra.resource_version;
  creation_time_stamp = extra.creation_time_stamp;
  name = extra.name;
  uid = extra.uid;
  pipeline_name = extra.pipeline_name;
  release_version = extra.release_version;
  gen = extra.gen;
}

unfoldable pub new : Object → String → Event
new obj action =
    let meta = get_object_meta_data obj in
    overwrite (
      describe obj (record zero_event {
        namespace = meta.namespace;
        name = meta.name;
        reason = action;
        status = text_or_empty (lookup action statuses);
      }))

unfoldable pub message_of : Event → String
message_of e =
    if e.kind == "namespace"
    then concat ("A namespace `" ∷ e.name ∷ "` has been `" ∷ e.reason ∷ "`" ∷ [])
    else if e.kind == "Event"
    then e.message
    else concat (
        "A `" ∷ e.kind ∷ "` in namespace `" ∷ e.namespace ∷ "` has been `" ∷ e.reason ∷ "`:\n`"
        ∷ e.name ∷ "`" ∷ [])
