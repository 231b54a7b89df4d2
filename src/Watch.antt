-- ===== src/Watch.antt =====
-- The informers of workflows and of Argo CD applications (pkg/controller/informer.go).
pub mod Starting
pub mod Sending
use kubewatch.Common.{
  Bool, List, Option, String, [], false, if◌then◌else◌, int_eq, nat_eq, none, not, some, string_eq,
  true, ◌&&◌, ◌++◌, ◌==◌, ◌||◌, ◌∷◌,
}
use kubewatch.Common.Result.{Result, err, ok}
use kubewatch.Pod.{Time}
use kubewatch.Pod.Workflow.{cd_workflow_status_update, workflow_status_update_topic}

pub record CiConfig : Type 0 where
  pub default_namespace : String
  pub ci_informer : Bool

pub record CdConfig : Type 0 where
  pub default_namespace : String
  pub cd_informer : Bool

pub record ExternalConfig : Type 0 where
  pub external : Bool
  pub token : String
  pub listener_url : String
  pub namespace : String

pub record AcdConfig : Type 0 where
  pub acd_namespace : String
  pub acd_informer : Bool

abbrev pub application_status_update_topic : String
application_status_update_topic = "APPLICATION_STATUS_UPDATE"

abbrev pub application_status_delete_topic : String
application_status_delete_topic = "APPLICATION_STATUS_DELETE"

-- What `Start` is told by the packages that it calls: the error of the configuration of Kubernetes,
-- which is then nil, those of the HTTP client, the dynamic client and the client of Argo CD, and the
-- configurations parsed from the environment.
pub record Surroundings : Type 0 where
  pub k8s_config : Option String
  pub http_client : Option String
  pub dynamic_client : Option String
  pub ci : Result CiConfig
  pub cd : Result CdConfig
  pub acd : Result AcdConfig
  pub argo_client : Option String

-- An informer that runs: of workflows, with its namespace and topic, or of applications.
pub data Running : Type 0 where
  workflow_informer : String → String → Running
  application_informer : String → Running

-- How `Start` ends: it waits for the stop, it ended the program with code 2, or it panicked in
-- `HTTPClientFor`, as the configuration is nil, or in `NewForConfigOrDie`.
pub data Phase : Type 0 where
  waiting : Phase
  exited : Phase
  panicked : Phase

-- The namespace of an informer of workflows.
abbrev pub namespace_for : ExternalConfig → String → String
namespace_for ext default_namespace = if ext.external then ext.namespace else default_namespace

module _ (ext : ExternalConfig) (around : Surroundings) where
  unfoldable pub start_acd : List Running → Phase × List Running
  start_acd started = elim around.acd [
    | err e ↦ (exited, started)
    | ok acd ↦
        if acd.acd_informer && not ext.external
        then elim around.argo_client [
          | some e ↦ (panicked, started)
          | none ↦ (waiting, started ++ application_informer acd.acd_namespace ∷ [])
        ]
        else (waiting, started)
  ]

  unfoldable pub start_cd : List Running → Phase × List Running
  start_cd started = elim around.cd [
    | err e ↦ (exited, started)
    | ok cd ↦ start_acd (
        if cd.cd_informer
        then started
          ++ workflow_informer (namespace_for ext cd.default_namespace) cd_workflow_status_update
            ∷ []
        else started)
  ]

  -- `Start`, up to its wait for the stop, and the informers started by then.
  unfoldable pub start : Phase × List Running
  start = elim around.k8s_config [
    | some e ↦ (panicked, [])
    | none ↦ elim around.http_client [
      | some e ↦ (exited, [])
      | none ↦ elim around.dynamic_client [
        | some e ↦ (exited, [])
        | none ↦ elim around.ci [
          | err e ↦ (exited, [])
          | ok ci ↦ start_cd (
              if ci.ci_informer
              then workflow_informer (namespace_for ext ci.default_namespace)
                  workflow_status_update_topic
                ∷ []
              else [])
        ]
      ]
    ]
  ]

-- What leaves kubewatch: a post to the listener, with the token, or a message to NATS.
pub data Outgoing : Type 0 where
  rest_post : String → String → String → String → Outgoing
  nats_message : String → String → Outgoing

-- The parts of an Argo CD application that are read.
pub record Application : Type 0 where
  pub name : String
  pub history : List String
  pub sync_revision : String
  pub health_status : String
  pub sync_status : String

-- The client of NATS, if there is one, and `json.Marshal` of the details of an application.
pub record Publisher : Type 0 where
  pub has_client : Bool
  pub marshal : Application → Time → Option String

abbrev pub is_empty : List String → Bool
is_empty [] = true
is_empty (x ∷ xs) = false

module _ (publisher : Publisher) where
  unfoldable pub send_app : String → Application → Time → List Outgoing
  send_app topic app status_time =
      if not publisher.has_client then [] else elim (publisher.marshal app status_time) [
        | none ↦ []
        | some body ↦ nats_message topic body ∷ []
      ]

  unfoldable pub send_app_update : Application → Time → List Outgoing
  send_app_update app status_time = send_app application_status_update_topic app status_time

  unfoldable pub send_app_delete : Application → Time → List Outgoing
  send_app_delete app status_time = send_app application_status_delete_topic app status_time

  -- `UpdateFunc` of the informer of applications; `none` is an object of another type.
  unfoldable pub on_app_update : Option Application → Option Application → Time → List Outgoing
  on_app_update none new status_time = []
  on_app_update (some old) none status_time = []
  on_app_update (some old) (some new) status_time =
      if is_empty new.history
      then []
      else if is_empty old.history
      then send_app_update new status_time
      else if not (old.sync_revision == new.sync_revision)
          || not (old.health_status == new.health_status)
          || not (new.sync_status == old.sync_status)
      then send_app_update new status_time
      else []

  unfoldable pub on_app_delete : Option Application → Time → List Outgoing
  on_app_delete none status_time = []
  on_app_delete (some app) status_time = send_app_delete app status_time

-- `UpdateFunc` of the informer of workflows, for an object that is unstructured: `status` is the
-- text of its status, `none` where it has none, and an error where it cannot be marshalled.
unfoldable pub on_workflow_update :
    ExternalConfig → Bool → String → Option (Result String) → List Outgoing
on_workflow_update ext has_client event_name none = []
on_workflow_update ext has_client event_name (some (err e)) = []
on_workflow_update ext has_client event_name (some (ok body)) =
    if ext.external
    then rest_post ext.listener_url ext.token event_name body ∷ []
    else if not has_client
    then []
    else nats_message event_name body ∷ []
