-- ===== src/Pod/Workflow.antt =====
-- What is sent for a pod: `getWorkflowStatus`, `checkIfPodDeletedAndUpdateMessage`, `getTopic` and
-- the two event handlers of `startSystemWorkflowInformer` of pkg/informer/K8sInformer.go.
pub mod Messages
pub mod Steps
pub mod Sending
use kubewatch.Common.{
  Bool, List, Option, String, [], false, if◌then◌else◌, int_eq, lookup, nat_eq, none, not, some,
  string_eq, true, ℕ, ◌&&◌, ◌==◌, ◌||◌, ◌∷◌,
}
use kubewatch.Pod.{
  ContainerStatus, NodeStatus, OwnerReference, Pod, Time, node_error, node_failed, workflow_pending,
  workflow_running,
}
use kubewatch.Pod.Status.{Argo, assess_node_status}

-- `nodes` is the map of the status, as a list of pairs.
pub record WorkflowStatus : Type 0 where
  pub phase : String
  pub message : String
  pub finished_at : Time
  pub nodes : List (String × NodeStatus)

abbrev pub pod_deleted_message : String
pod_deleted_message = "pod deleted"

abbrev pub exit_code_143_error : String
exit_code_143_error = "Error (exit code 143)"

abbrev pub ci_workflow_name : String
ci_workflow_name = "ci"

abbrev pub cd_workflow_name : String
cd_workflow_name = "cd"

abbrev pub workflow_type_label_key : String
workflow_type_label_key = "workflowType"

abbrev pub job_kind : String
job_kind = "Job"

-- The topics, by the values that the vendored pubsub-lib declares.
abbrev pub cd_workflow_status_update : String
cd_workflow_status_update = "CD_WORKFLOW_STATUS_UPDATE"

abbrev pub workflow_status_update_topic : String
workflow_status_update_topic = "WORKFLOW_STATUS_UPDATE"

-- The loop over the owners; `otherwise` is the name of the pod.
unfoldable pub owner_name_from : List OwnerReference → String → String
owner_name_from [] otherwise = otherwise
owner_name_from (owner ∷ owners) otherwise =
    let rest = owner_name_from owners otherwise in
    if owner.kind == job_kind then owner.name else rest

unfoldable pub get_pod_owner_name : Pod → String
unfolding owner_name_from
get_pod_owner_name pod = owner_name_from pod.owner_references pod.name

unfoldable pub get_workflow_status : Argo → Pod → NodeStatus → String → WorkflowStatus
get_workflow_status argo pod node template_name =
    let phase = if node.phase == workflow_pending then workflow_running else node.phase in
    let named = record node {
      id = pod.name;
      template_name = template_name;
      name = pod.name;
      boundary_id = get_pod_owner_name pod;
    } in
    record {
      phase = phase;
      message = node.message;
      finished_at = if argo.workflow_completed phase then node.finished_at else 0;
      nodes = (pod.name, named) ∷ [];
    }

-- No topic is the error.
unfoldable pub get_topic : String → Option String
get_topic workflow_type =
    if workflow_type == cd_workflow_name
    then some cd_workflow_status_update
    else if workflow_type == ci_workflow_name
    then some workflow_status_update_topic
    else none

-- An error of the API server: a `StatusError` with its reason, or another one.
pub data ApiError : Type 0 where
  status_error : String → ApiError
  other_error : ApiError

pub data Fetched : Type 0 where
  found : Pod → Fetched
  failed : ApiError → Fetched

abbrev pub status_reason_not_found : String
status_reason_not_found = "NotFound"

unfoldable pub is_resource_not_found_err : ApiError → Bool
is_resource_not_found_err (status_error reason) = reason == status_reason_not_found
is_resource_not_found_err other_error = false

-- `get` is the API call, by namespace and name.
unfoldable pub check_if_pod_deleted_and_update_message :
    (String → String → Fetched) → String → String → NodeStatus → NodeStatus × Bool
check_if_pod_deleted_and_update_message get pod_name namespace node =
    if (node.phase == node_failed || node.phase == node_error)
      && node.message == exit_code_143_error
    then elim (get namespace pod_name) [
      | failed err ↦
          if is_resource_not_found_err err
          then (record node { message = pod_deleted_message }, true)
          else (node, false)
      | found pod ↦ elim pod.deletion_timestamp [
        | some t ↦ (record node { message = pod_deleted_message }, true)
        | none ↦ (node, false)
      ]
    ]
    else (node, false)

-- The label of the workflow type, empty if there is none.
unfoldable pub workflow_type_of : Pod → String
workflow_type_of pod = elim pod.labels [
  | none ↦ ""
  | some labels ↦ elim (lookup workflow_type_label_key labels) [ none ↦ "" | some val ↦ val ]
]

-- What an informer hands to its handlers: a pod, or an object of another type.
pub data Watched : Type 0 where
  pod_object : Pod → Watched
  other_object : Watched

-- `json.Marshal` and the client of the message broker, which may be nil.
pub record Sender : Type 0 where
  pub marshal : WorkflowStatus → Option String
  pub has_client : Bool

-- The end of both handlers: the topic and the text that `Publish` is called with, if it is called.
-- What `Publish` returns is only logged.
unfoldable pub publish_status : Sender → WorkflowStatus → String → Option (String × String)
publish_status sender status workflow_type = elim (sender.marshal status) [
  | none ↦ none
  | some wf_json ↦
      if not sender.has_client
      then none
      else elim (get_topic workflow_type) [ none ↦ none | some topic ↦ some (topic, wf_json) ]
]

module _
    (sort_slice : (ContainerStatus → ContainerStatus → Bool)
      → List ContainerStatus
      → List ContainerStatus)
    (argo : Argo) (now : ℕ → Time) (sender : Sender) where
  unfoldable pub on_pod_update : Watched → Option (String × String)
  on_pod_update other_object = none
  on_pod_update (pod_object given) =
      let (node, pod) = assess_node_status sort_slice argo now given in
      publish_status sender (get_workflow_status argo pod node (workflow_type_of given))
        (workflow_type_of given)

  unfoldable pub on_pod_delete : (String → String → Fetched) → Watched → Option (String × String)
  on_pod_delete get other_object = none
  on_pod_delete get (pod_object given) =
      let (assessed, pod) = assess_node_status sort_slice argo now given in
      let (node, retrigger) =
        check_if_pod_deleted_and_update_message get pod.name pod.namespace assessed in
      if not retrigger
      then none
      else publish_status sender (get_workflow_status argo pod node (workflow_type_of given))
          (workflow_type_of given)
