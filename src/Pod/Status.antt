-- ===== src/Pod/Status.antt =====
-- The node status of a pod: `assessNodeStatus` of pkg/informer/K8sInformer.go. The methods of Argo's
-- types that it calls are vendored, and stand here as the fields of `Argo`.
use kubewatch.Common.{
  Bool, List, Option, String, [], concat, false, if◌then◌else◌, int_eq, lookup, nat_eq, none, not,
  some, sprint_int, string_eq, true, ℕ, ◌&&◌, ◌==◌, ◌↔◌, ◌∷◌, ◌≡◌, ◌⊎◌,
}
use kubewatch.Pod.{
  ContainerStatus, NodeStatus, Pod, Time, annotation_key_progress, node_error, node_failed,
  node_pending, node_running, node_succeeded, pod_failed, pod_pending, pod_running, pod_succeeded,
  progress_default, zero_node,
}
use kubewatch.Pod.Reason.{get_exit_code, get_pending_reason, infer_failed_reason}
use kubewatch.Pod.Times.{get_latest_finished_at}

-- What the code calls of argo-workflows: methods of `NodeStatus`, `Progress` and `WorkflowPhase`.
pub record Argo : Type 0 where
  pub node_completed : NodeStatus → Bool
  pub node_fulfilled : NodeStatus → Bool
  pub node_daemoned : NodeStatus → Bool
  pub progress_valid : String → Bool
  pub parse_progress : String → Option String
  pub workflow_completed : String → Bool

abbrev pub IsFinal : String → Type 0
IsFinal phase = (phase ≡ node_succeeded) ⊎ (phase ≡ node_failed) ⊎ (phase ≡ node_error)

-- Argo's phases of a node that is done without having run.
abbrev pub node_skipped : String
node_skipped = "Skipped"

abbrev pub node_omitted : String
node_omitted = "Omitted"

-- What is documented of them: a node that is not daemoned is fulfilled when its phase is one of the
-- three final ones, or it was skipped or omitted; a workflow is completed in the three final phases;
-- the empty progress is not valid.
pub record ArgoLaws (argo : Argo) : Type 0 where
  pub fulfilled_iff :
      (n : NodeStatus)
      → n.daemoned ≡ none
      → (argo.node_fulfilled n ≡ true)
        ↔ (IsFinal n.phase ⊎ (n.phase ≡ node_skipped) ⊎ (n.phase ≡ node_omitted))
  pub not_daemoned : (n : NodeStatus) → n.daemoned ≡ none → argo.node_daemoned n ≡ false
  pub completed_iff : (phase : String) → (argo.workflow_completed phase ≡ true) ↔ IsFinal phase
  pub empty_progress : argo.progress_valid "" ≡ false

-- `if !nodeStatus.Completed() && nodeStatus.IsDaemoned()`.
unfoldable pub set_pod_ip : Argo → Pod → NodeStatus → NodeStatus
set_pod_ip argo pod node =
    if not (argo.node_completed node) && argo.node_daemoned node
    then record node { pod_ip = pod.pod_ip }
    else node

abbrev default_progress : Argo → NodeStatus → NodeStatus
default_progress argo node =
    if not (argo.progress_valid node.progress)
    then record node { progress = progress_default }
    else node

-- The default progress, then that of the annotation if it parses.
unfoldable pub set_progress : Argo → Pod → NodeStatus → NodeStatus
set_progress argo pod node =
    let base = default_progress argo node in
    elim (lookup annotation_key_progress pod.annotations) [
      | none ↦ base
      | some x ↦ elim (argo.parse_progress x) [
        | none ↦ base
        | some p ↦ record base { progress = p }
      ]
    ]

-- `Outputs.ExitCode` is set whether or not there were outputs before.
unfoldable pub set_exit_code : Pod → NodeStatus → NodeStatus
set_exit_code pod node = elim (get_exit_code pod) [
  | none ↦ node
  | some code ↦ record node { outputs = some (record { exit_code = some (sprint_int code) }) }
]

unfoldable pub set_finished_at : Argo → (ℕ → Time) → Pod → NodeStatus → NodeStatus
set_finished_at argo now pod node =
    if argo.node_fulfilled node && node.finished_at == 0
    then record node { finished_at = get_latest_finished_at now pod }
    else node

module _
    (sort_slice : (ContainerStatus → ContainerStatus → Bool)
      → List ContainerStatus
      → List ContainerStatus)
    (argo : Argo) (now : ℕ → Time) where
  -- The `switch` on the phase of the pod; the pod comes back as `sort.Slice` leaves it.
  unfoldable pub pod_verdict : Pod → (String × String) × Pod
  pod_verdict pod =
      if pod.phase == pod_pending
      then ((node_pending, get_pending_reason pod), pod)
      else if pod.phase == pod_succeeded
      then ((node_succeeded, ""), pod)
      else if pod.phase == pod_failed
      then infer_failed_reason sort_slice pod
      else if pod.phase == pod_running
      then ((node_running, ""), pod)
      else (
        (node_error, concat ("Unexpected pod phase for " ∷ pod.name ∷ ": " ∷ pod.phase ∷ [])),
        pod,
      )

  unfoldable pub assess_node_status : Pod → NodeStatus × Pod
  assess_node_status given =
      let (verdict, pod) = pod_verdict given in
      let judged = record zero_node { phase = verdict.0; message = verdict.1 } in
      let placed = record (set_pod_ip argo pod judged) { host_node_name = pod.node_name } in
      let node = set_exit_code pod (set_progress argo pod placed) in
      (set_finished_at argo now pod node, pod)
