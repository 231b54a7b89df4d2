-- ===== src/Pod/Workflow/Messages.antt =====
-- When a message about a pod is sent, and what it says (pkg/informer/K8sInformer.go).
use kubewatch.Common.{
  String, [], arith, eq_iff, false, if◌then◌else◌, inl, inr, int_eq, nat_eq, none, refl, string_eq,
  true, ◌==◌, ◌↔◌, ◌∷◌, ◌≡◌, ◌≢◌, ◌⊎◌,
}
use kubewatch.Pod.{
  NodeStatus, Pod, node_error, node_failed, node_pending, node_succeeded, workflow_pending,
  workflow_running,
}
use kubewatch.Pod.Status.{Argo, ArgoLaws, IsFinal}
use kubewatch.Pod.Workflow.{
  ApiError, Fetched, check_if_pod_deleted_and_update_message, exit_code_143_error, failed, found,
  get_workflow_status, is_resource_not_found_err, other_error, pod_deleted_message, status_error,
  status_reason_not_found,
}

running_not_completed :
    (argo : Argo) → ArgoLaws argo → argo.workflow_completed workflow_running ≡ false
running_not_completed argo laws = ground (
  arith,
  laws.completed_iff workflow_running,
  eq_iff workflow_running node_succeeded,
  eq_iff workflow_running node_failed,
  eq_iff workflow_running node_error,
)

pending_not-IsFinal : ¬ IsFinal node_pending
pending_not-IsFinal h = ground (
  arith,
  eq_iff node_pending node_succeeded,
  eq_iff node_pending node_failed,
  eq_iff node_pending node_error,
)

-- A workflow status is never Pending: it is Running for a pending node, and has the phase of any
-- other node. It has the node's message, its finish time if the phase is final and none if not,
-- and holds the node alone, under the name of the pod.
pub get_workflow_status_lem :
    (argo : Argo)
    → ArgoLaws argo
    → (pod : Pod) (node : NodeStatus) (type : String)
    → let status = get_workflow_status argo pod node type in
      (status.phase ≢ workflow_pending)
      × (node.phase ≡ node_pending → status.phase ≡ workflow_running)
      × (node.phase ≢ node_pending → status.phase ≡ node.phase)
      × (status.message ≡ node.message)
      × (IsFinal node.phase → status.finished_at ≡ node.finished_at)
      × (¬ IsFinal node.phase → status.finished_at ≡ 0)
      × ((n : NodeStatus) × (status.nodes ≡ (pod.name, n) ∷ [])
          × (n.name ≡ pod.name)
          × (n.phase ≡ node.phase)
          × (n.message ≡ node.message)
          × (n.template_name ≡ type))
unfolding get_workflow_status
get_workflow_status_lem argo laws pod node type = (
  ground (arith, pending, apart),
  ground (arith, pending),
  ground (arith, pending),
  refl,
  ground (arith, pending, final, pending_not-IsFinal),
  ground (arith, pending, final, live),
  (_, refl, refl, refl, refl, refl),
)
  where
    pending : ((node.phase == workflow_pending) ≡ true) ↔ (node.phase ≡ workflow_pending)
    pending = eq_iff node.phase workflow_pending

    apart : ((workflow_running == workflow_pending) ≡ true) ↔ (workflow_running ≡ workflow_pending)
    apart = eq_iff workflow_running workflow_pending

    final : (argo.workflow_completed node.phase ≡ true) ↔ IsFinal node.phase
    final = laws.completed_iff node.phase

    live : argo.workflow_completed workflow_running ≡ false
    live = running_not_completed argo laws

Fetched-cases :
    (f : Fetched) → ((pod : Pod) × (f ≡ found pod)) ⊎ ((err : ApiError) × (f ≡ failed err))
Fetched-cases (found pod) = inl (pod, refl)
Fetched-cases (failed err) = inr (err, refl)

not_found_iff :
    (err : ApiError)
    → (is_resource_not_found_err err ≡ true) ↔ (err ≡ status_error status_reason_not_found)
unfolding is_resource_not_found_err
not_found_iff (status_error reason) = ground (arith, eq_iff reason status_reason_not_found)
not_found_iff other_error = ground arith

-- The API server says that the pod does not exist, or that it is being deleted.
abbrev pub IsDeletedOrLeaving : Fetched → Type 0
IsDeletedOrLeaving (found pod) = pod.deletion_timestamp ≢ none
IsDeletedOrLeaving (failed err) = err ≡ status_error status_reason_not_found

-- A deleted pod is reported exactly when its node is Failed or Error with the message of exit
-- code 143 and the API server has no such pod, or has it with a
-- deletion timestamp; the message is then replaced by "pod deleted",
-- and the node is left as it is in every other case.
pub check_if_pod_deleted_iff :
    (get : String → String → Fetched) (name namespace : String) (node : NodeStatus)
    → let (after, retrigger) = check_if_pod_deleted_and_update_message get name namespace node in
      ((retrigger ≡ true) ↔ (
        ((node.phase ≡ node_failed) ⊎ (node.phase ≡ node_error))
        × (node.message ≡ exit_code_143_error)
        × IsDeletedOrLeaving (get namespace name)))
      × (after ≡ (if retrigger then record node { message = pod_deleted_message } else node))
unfolding check_if_pod_deleted_and_update_message
check_if_pod_deleted_iff get name namespace node = elim (Fetched-cases (get namespace name)) [
  | inl (pod, e) ↦ rw e (
      ground (
        arith,
        eq_iff node.phase node_failed,
        eq_iff node.phase node_error,
        eq_iff node.message exit_code_143_error,
      ))
  | inr (err, e) ↦ rw e (
      ground (
        arith,
        eq_iff node.phase node_failed,
        eq_iff node.phase node_error,
        eq_iff node.message exit_code_143_error,
        not_found_iff err,
      ))
]
