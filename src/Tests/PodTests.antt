-- ===== src/Tests/PodTests.antt =====
-- Runs and instances for the pods (pkg/informer/K8sInformer.go).
use kubewatch.Pod.Harmless.{IsHarmless}
use kubewatch.Common.{
  All, [], arith, eq_iff, here, if◌then◌else◌, refl, some, sprint_int, there, true, ◌++◌, ◌↔◌, ◌∷◌,
  ◌≡◌, ◌≢◌, ◌⊎◌,
}
use kubewatch.Pod.{
  NodeStatus, main_container_name, node_error, node_failed, node_pending, node_succeeded,
  wait_container_name, workflow_pending, workflow_running, zero_node,
}
use kubewatch.Pod.Reason.{
  failed_container, failure_message, get_exit_code, infer_failed_reason, judge, judge_all, order,
}
use kubewatch.Pod.Failure.{infer_failed_reason-succeeded_iff}
use kubewatch.Pod.Times.{ComesFrom, IsBound, get_latest_finished_at, get_latest_finished_at-latest}
use kubewatch.Pod.Status.{
  IsFinal, assess_node_status, pod_verdict, set_exit_code, set_finished_at, set_pod_ip,
  set_progress,
}
use kubewatch.Pod.Workflow.{
  WorkflowStatus, check_if_pod_deleted_and_update_message, exit_code_143_error, get_topic,
  get_workflow_status, is_resource_not_found_err, on_pod_delete, pod_deleted_message, pod_object,
  publish_status, workflow_type_of,
}
use kubewatch.Tests.Sorting.{insertion_sort, insertion_sort-SortLaws}
use kubewatch.Tests.PodSamples.{
  argo, argo-ArgoLaws, clock, get_nothing, killed, killed_pod, main_killed, quiet_pod, sender,
}
use kubewatch.Common.Int.{pos}
use kubewatch.Pod.Assess.{assess_node_status-exit_code}
use kubewatch.Pod.Workflow.Messages.{
  IsDeletedOrLeaving, check_if_pod_deleted_iff, get_workflow_status_lem,
}
use kubewatch.Pod.Workflow.Sending.{on_pod_delete_sound}

killed_run :
    on_pod_delete insertion_sort argo clock sender get_nothing (pod_object killed_pod)
    ≡ some ("WORKFLOW_STATUS_UPDATE", "Failed: pod deleted")
unfolding on_pod_delete assess_node_status pod_verdict infer_failed_reason judge_all judge
    failed_container failure_message sprint_int set_finished_at set_exit_code set_progress
    set_pod_ip check_if_pod_deleted_and_update_message is_resource_not_found_err publish_status
    get_topic get_workflow_status workflow_type_of order get_latest_finished_at get_exit_code
killed_run = refl

main_is_unique :
    All (λ c. c.name ≡ main_container_name → c ≡ main_killed) killed_pod.container_statuses
main_is_unique = (
  (λ e. ground (arith, eq_iff "proxy" main_container_name)),
  ((λ e. ground (arith, eq_iff wait_container_name main_container_name)), ((λ e. refl), tt)),
)

infer_failed_reason-succeeded_iff_example :
    ((infer_failed_reason insertion_sort quiet_pod).0 ≡ (node_succeeded, "")) ↔ (
      (quiet_pod.message ≡ "")
      × All IsHarmless quiet_pod.init_container_statuses
      × All IsHarmless quiet_pod.container_statuses)
infer_failed_reason-succeeded_iff_example =
    infer_failed_reason-succeeded_iff insertion_sort insertion_sort-SortLaws quiet_pod

get_latest_finished_at-latest_example :
    IsBound
      (get_latest_finished_at clock killed_pod)
      (killed_pod.init_container_statuses ++ killed_pod.container_statuses)
    × ComesFrom clock 0
        (killed_pod.init_container_statuses ++ killed_pod.container_statuses)
        (get_latest_finished_at clock killed_pod)
get_latest_finished_at-latest_example =
    get_latest_finished_at-latest clock killed_pod (λ k. omega arith) (omega arith)

assess_node_status-exit_code_example :
    (assess_node_status insertion_sort argo clock killed_pod).0.outputs
    ≡ some (record { exit_code = some (sprint_int (pos 143)) })
assess_node_status-exit_code_example =
    assess_node_status-exit_code insertion_sort argo clock argo-ArgoLaws insertion_sort-SortLaws
      killed_pod main_killed killed (there (there (here refl))) refl main_is_unique refl

abbrev failed_node : NodeStatus
failed_node = record zero_node {
  phase = "Failed";
  message = "Error (exit code 143)";
  finished_at = 900;
}

get_workflow_status_lem_example :
    let status = get_workflow_status argo killed_pod failed_node "ci" in
    (status.phase ≢ workflow_pending)
    × (failed_node.phase ≡ node_pending → status.phase ≡ workflow_running)
    × (failed_node.phase ≢ node_pending → status.phase ≡ failed_node.phase)
    × (status.message ≡ failed_node.message)
    × (IsFinal failed_node.phase → status.finished_at ≡ failed_node.finished_at)
    × (¬ IsFinal failed_node.phase → status.finished_at ≡ 0)
    × ((n : NodeStatus) × (status.nodes ≡ (killed_pod.name, n) ∷ [])
        × (n.name ≡ killed_pod.name)
        × (n.phase ≡ failed_node.phase)
        × (n.message ≡ failed_node.message)
        × (n.template_name ≡ "ci"))
get_workflow_status_lem_example =
    get_workflow_status_lem argo argo-ArgoLaws killed_pod failed_node "ci"

check_if_pod_deleted_iff_example :
    let (after, retrigger) =
      check_if_pod_deleted_and_update_message get_nothing "build-7" "devtron-ci" failed_node in
    ((retrigger ≡ true) ↔ (
      ((failed_node.phase ≡ node_failed) ⊎ (failed_node.phase ≡ node_error))
      × (failed_node.message ≡ exit_code_143_error)
      × IsDeletedOrLeaving (get_nothing "devtron-ci" "build-7")))
    × (after
        ≡ (if retrigger then record failed_node { message = pod_deleted_message } else failed_node))
check_if_pod_deleted_iff_example =
    check_if_pod_deleted_iff get_nothing "build-7" "devtron-ci" failed_node

on_pod_delete_sound_example :
    IsDeletedOrLeaving (get_nothing killed_pod.namespace killed_pod.name)
    × (get_topic (workflow_type_of killed_pod) ≡ some "WORKFLOW_STATUS_UPDATE")
    × ((status : WorkflowStatus) × (sender.marshal status ≡ some "Failed: pod deleted")
        × (status.message ≡ pod_deleted_message)
        × ((status.phase ≡ node_failed) ⊎ (status.phase ≡ node_error)))
on_pod_delete_sound_example =
    on_pod_delete_sound insertion_sort argo clock argo-ArgoLaws sender get_nothing killed_pod
      killed_run
