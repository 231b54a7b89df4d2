-- ===== src/Objects.antt =====
-- The objects that the resource informers deliver and what kubewatch reads of them
-- (pkg/utils/k8sutil.go, the types of pkg/event/event.go). A constructor of `Object` is a Go type
-- behind an `interface{}`: two versions of one kind are two constructors.
use kubewatch.Common.{List, String, []}
use kubewatch.Pod.{Time}

pub record ObjectMeta : Type 0 where
  pub name : String
  pub namespace : String
  pub creation_timestamp : Time
  pub annotations : List (String × String)

-- `Event` of pkg/event.
pub record Event : Type 0 where
  pub namespace : String
  pub kind : String
  pub component : String
  pub host : String
  pub reason : String
  pub status : String
  pub name : String
  pub message : String
  pub resource_revision : String
  pub creation_time_stamp : Time
  pub uid : String
  pub pipeline_name : String
  pub release_version : String
  pub gen : String

pub record ObjectReference : Type 0 where
  pub kind : String
  pub namespace : String
  pub name : String
  pub uid : String
  pub resource_version : String

-- `Event` of core/v1; `source_component` is `Source.Component`.
pub record CoreEvent : Type 0 where
  pub meta : ObjectMeta
  pub involved_object : ObjectReference
  pub reason : String
  pub message : String
  pub source_component : String

pub data Object : Type 0 where
  apps_deployment : ObjectMeta → Object
  beta_deployment : ObjectMeta → Object
  replication_controller : ObjectMeta → Object
  apps_replica_set : ObjectMeta → Object
  ext_replica_set : ObjectMeta → Object
  apps_daemon_set : ObjectMeta → Object
  ext_daemon_set : ObjectMeta → Object
  -- The type of the service.
  service : String → ObjectMeta → Object
  -- The name of the node.
  core_pod : String → ObjectMeta → Object
  job : ObjectMeta → Object
  persistent_volume : ObjectMeta → Object
  namespace_object : ObjectMeta → Object
  core_secret : ObjectMeta → Object
  config_map : ObjectMeta → Object
  ingress : ObjectMeta → Object
  core_event : CoreEvent → Object
  kubewatch_event : Event → Object
  -- `cache.DeletedFinalStateUnknown`: the key and the last state known.
  tombstone : String → Object → Object
  nil_object : Object

-- `ObjectMeta{}`.
abbrev pub zero_meta : ObjectMeta
zero_meta = record { name = ""; namespace = ""; creation_timestamp = 0; annotations = [] }

-- `Event{}`.
abbrev pub zero_event : Event
zero_event = record {
  namespace = "";
  kind = "";
  component = "";
  host = "";
  reason = "";
  status = "";
  name = "";
  message = "";
  resource_revision = "";
  creation_time_stamp = 0;
  uid = "";
  pipeline_name = "";
  release_version = "";
  gen = "";
}

unfoldable pub get_object_meta_data : Object → ObjectMeta
get_object_meta_data (apps_deployment meta) = meta
get_object_meta_data (replication_controller meta) = meta
get_object_meta_data (apps_replica_set meta) = meta
get_object_meta_data (apps_daemon_set meta) = meta
get_object_meta_data (service type meta) = meta
get_object_meta_data (core_pod node_name meta) = meta
get_object_meta_data (job meta) = meta
get_object_meta_data (persistent_volume meta) = meta
get_object_meta_data (namespace_object meta) = meta
get_object_meta_data (core_secret meta) = meta
get_object_meta_data (ingress meta) = meta
get_object_meta_data (core_event event) = event.meta
get_object_meta_data (beta_deployment meta) = zero_meta
get_object_meta_data (ext_replica_set meta) = zero_meta
get_object_meta_data (ext_daemon_set meta) = zero_meta
get_object_meta_data (config_map meta) = zero_meta
get_object_meta_data (kubewatch_event event) = zero_meta
get_object_meta_data (tombstone key last) = zero_meta
get_object_meta_data nil_object = zero_meta
