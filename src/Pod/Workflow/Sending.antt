-- ===== src/Pod/Workflow/Sending.antt =====
-- The handlers of pod updates and deletions from end to end (`UpdateFunc` and `DeleteFunc` of
-- `startSystemWorkflowInformer`, pkg/informer/K8sInformer.go).
use kubewatch.Common.{Bool, List, String, some, subst, ℕ, ◌≡◌, ◌⊎◌}
use kubewatch.Pod.{ContainerStatus, Pod, Time, node_error, node_failed}
use kubewatch.Pod.Status.{Argo, ArgoLaws, assess_node_status, pod_verdict}
use kubewatch.Pod.Assess.{pod_verdict-keeps}
use kubewatch.Pod.Workflow.{
  Fetched, Sender, WorkflowStatus, get_topic, on_pod_delete, pod_deleted_message, pod_object,
  workflow_type_of,
}
use kubewatch.Pod.Workflow.Messages.{IsDeletedOrLeaving}
use kubewatch.Pod.Workflow.Steps.{delete_step}

module _
    (sort_slice : (ContainerStatus → ContainerStatus → Bool)
      → List ContainerStatus
      → List ContainerStatus)
    (argo : Argo) (now : ℕ → Time) (laws : ArgoLaws argo) (sender : Sender) where
  -- A message about a deleted pod is sent only if the API server has no such pod, or has it with a
  -- deletion timestamp; it goes to
  -- the topic of the pod's workflow type, and is the text of a status that says "pod deleted" and
  -- whose phase is Failed or Error.
  pub on_pod_delete_sound :
      (get : String → String → Fetched) (given : Pod) {topic body : String}
      → on_pod_delete sort_slice argo now sender get (pod_object given) ≡ some (topic, body)
      → IsDeletedOrLeaving (get given.namespace given.name)
        × (get_topic (workflow_type_of given) ≡ some topic)
        × ((status : WorkflowStatus) × (sender.marshal status ≡ some body)
            × (status.message ≡ pod_deleted_message)
            × ((status.phase ≡ node_failed) ⊎ (status.phase ≡ node_error)))
  unfolding on_pod_delete assess_node_status
  on_pod_delete_sound get given h =
      let keeps = pod_verdict-keeps sort_slice argo now laws given in
      let after = (pod_verdict sort_slice argo now given).1 in
      let r =
        delete_step argo laws sender get after (assess_node_status sort_slice argo now given).0
          (workflow_type_of given) h in
      (
        subst (λ n. IsDeletedOrLeaving (get given.namespace n)) keeps.0
            (subst (λ n. IsDeletedOrLeaving (get n after.name)) keeps.1 r.0),
        r.1,
        r.2,
      )
