-- ===== src/Pod/Workflow/Steps.antt =====
-- The steps of the handlers of pods: publishing and the text of a deletion
-- (pkg/informer/K8sInformer.go).
use kubewatch.Common.{
  Bool-cases, Option, String, ap, arith, eq_iff, false, if◌then◌else◌, inl, inr, none, not, some,
  sprint_int, true, ◌∙◌, ◌≡◌, ◌≢◌, ◌⊎◌,
}
use kubewatch.Pod.{
  NodeStatus, Pod, Terminated, node_error, node_failed, node_pending, node_running, node_succeeded,
}
use kubewatch.Pod.Status.{Argo, ArgoLaws, IsFinal}
use kubewatch.Pod.Workflow.{
  Fetched, Sender, WorkflowStatus, check_if_pod_deleted_and_update_message, exit_code_143_error,
  get_topic, get_workflow_status, pod_deleted_message, publish_status,
}
use kubewatch.Pod.Workflow.Messages.{
  IsDeletedOrLeaving, check_if_pod_deleted_iff, get_workflow_status_lem,
}
use kubewatch.Common.Int.{pos, ℤ}
use kubewatch.Pod.Reason.{failure_message}

-- The message on a topic, if the status can be marshalled.
abbrev pub on_topic : String → Option String → Option (String × String)
on_topic topic none = none
on_topic topic (some body) = some (topic, body)

pub running_not_pending : {p : String} → p ≡ node_running → p ≢ node_pending
running_not_pending e f = ground (arith, eq_iff node_running node_pending)

pub final_not_pending : {p : String} → IsFinal p → p ≢ node_pending
final_not_pending h f = ground (
  arith,
  eq_iff node_succeeded node_pending,
  eq_iff node_failed node_pending,
  eq_iff node_error node_pending,
)

pub publish_status_lem :
    (sender : Sender) (status : WorkflowStatus) (type : String) {topic : String}
    → sender.has_client ≡ true
    → get_topic type ≡ some topic
    → publish_status sender status type ≡ on_topic topic (sender.marshal status)
unfolding publish_status
publish_status_lem sender status type c t = ground arith

publish_status_sound :
    (sender : Sender) (status : WorkflowStatus) (type : String) {topic body : String}
    → publish_status sender status type ≡ some (topic, body)
    → (get_topic type ≡ some topic)
      × (sender.marshal status ≡ some body)
      × (sender.has_client ≡ true)
unfolding publish_status
publish_status_sound sender status type h = ground arith

-- `checkIfPodDeletedAndUpdateMessage` and what follows it, for any assessed node.
pub delete_step :
    (argo : Argo) (laws : ArgoLaws argo) (sender : Sender) (get : String → String → Fetched)
    (pod : Pod) (assessed : NodeStatus) (type : String) {topic body : String}
    → let (node, retrigger) =
        check_if_pod_deleted_and_update_message get pod.name pod.namespace assessed in
      (if not retrigger
          then none
          else publish_status sender (get_workflow_status argo pod node type) type)
        ≡ some (topic, body)
      → IsDeletedOrLeaving (get pod.namespace pod.name)
        × (get_topic type ≡ some topic)
        × ((status : WorkflowStatus) × (sender.marshal status ≡ some body)
            × (status.message ≡ pod_deleted_message)
            × ((status.phase ≡ node_failed) ⊎ (status.phase ≡ node_error)))
delete_step argo laws sender get pod assessed type {topic} {body} h =
    elim (Bool-cases
      (check_if_pod_deleted_and_update_message get pod.name pod.namespace assessed).1) [
        | inr e ↦ absurd (none_sent e)
        | inl e ↦
            let (after, retrigger) =
              check_if_pod_deleted_and_update_message get pod.name pod.namespace assessed in
            let spec = check_if_pod_deleted_iff get pod.name pod.namespace assessed in
            let cause = spec.0.0 e in
            let status = get_workflow_status argo pod after type in
            let sent : publish_status sender status type ≡ some (topic, body) = ground arith in
            let sound = publish_status_sound sender status type sent in
            let s = get_workflow_status_lem argo laws pod after type in
            let same : after ≡ record assessed { message = pod_deleted_message } =
              ground (arith, spec.1) in
            let phase : after.phase ≡ assessed.phase = ap (λ (n : NodeStatus). n.phase) same in
            (
              cause.2,
              sound.0,
              (
                status,
                sound.1,
                s.3 ∙ ap (λ (n : NodeStatus). n.message) same,
                elim cause.0 [
                  | inl f ↦ inl (s.2 (final_not_pending (inr (inl (phase ∙ f)))) ∙ phase ∙ f)
                  | inr f ↦ inr (s.2 (final_not_pending (inr (inr (phase ∙ f)))) ∙ phase ∙ f)
                ],
              ),
            )
      ]
  where
    none_sent :
        (check_if_pod_deleted_and_update_message get pod.name pod.namespace assessed).1 ≡ false → ⊥
    none_sent e = ground arith

pub not_zero : {code : ℤ} → code ≡ pos 143 → code ≢ pos 0
not_zero e z = ground arith

-- The message of a container that was terminated, as `exit_code_143_error` spells it.
pub message_143 :
    (t : Terminated)
    → t.reason ≡ "Error"
    → t.exit_code ≡ pos 143
    → t.message ≡ ""
    → failure_message t ≡ exit_code_143_error
unfolding failure_message sprint_int
message_143 t r x z = rw (r, x, z)
