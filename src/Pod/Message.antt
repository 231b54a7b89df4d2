-- ===== src/Pod/Message.antt =====
-- The message of the node that `assessNodeStatus` makes of a pod, phase by phase
-- (pkg/informer/K8sInformer.go).
use kubewatch.Common.{
  All, Bool, List, String, [], ap₂, arith, concat, eq_iff, refl, subst, sym, ℕ, ◌∷◌, ◌≡◌, ◌≢◌, ◌⊎◌,
}
use kubewatch.Pod.{
  ContainerStatus, Pod, Time, node_error, node_failed, node_pending, node_running, node_succeeded,
  pod_failed, pod_pending, pod_running, pod_succeeded,
}
use kubewatch.Pod.Reason.{get_pending_reason, infer_failed_reason}
use kubewatch.Pod.Harmless.{IsHarmless}
use kubewatch.Pod.Failure.{SortLaws}
use kubewatch.Pod.Verdict.{Blames, Decides, infer_failed_reason-Blames}
use kubewatch.Pod.Status.{Argo, ArgoLaws, assess_node_status, pod_verdict}
use kubewatch.Pod.Assess.{assess_node_status-fields}
use kubewatch.Pod.Pending.{IsPendingReason, get_pending_reason-IsPendingReason}

-- The phase and message of a failed pod.
abbrev pub IsFailure : Pod → String × String → Type 0
IsFailure pod v =
    (pod.message ≢ "" → v ≡ (node_failed, pod.message))
    × (pod.message ≡ ""
        → ((v ≡ (node_succeeded, ""))
            × All IsHarmless pod.init_container_statuses
            × All IsHarmless pod.container_statuses)
          ⊎ ((c : ContainerStatus) × Decides c pod × Blames c v))

-- What the phase of a pod makes of the phase and message of its node.
pub record IsVerdict (pod : Pod) (v : String × String) : Type 0 where
  pub if_pending : pod.phase ≡ pod_pending → (v.0 ≡ node_pending) × IsPendingReason pod v.1
  pub if_running : pod.phase ≡ pod_running → v ≡ (node_running, "")
  pub if_succeeded : pod.phase ≡ pod_succeeded → v ≡ (node_succeeded, "")
  pub if_failed : pod.phase ≡ pod_failed → IsFailure pod v
  pub if_other :
      pod.phase ≢ pod_pending
      → pod.phase ≢ pod_running
      → pod.phase ≢ pod_succeeded
      → pod.phase ≢ pod_failed
      → v ≡ (node_error, concat ("Unexpected pod phase for " ∷ pod.name ∷ ": " ∷ pod.phase ∷ []))

module _
    (sort_slice : (ContainerStatus → ContainerStatus → Bool)
      → List ContainerStatus
      → List ContainerStatus)
    (argo : Argo) (now : ℕ → Time) (laws : ArgoLaws argo) (sorts : SortLaws sort_slice) where
  infer_failed_reason-IsFailure : (pod : Pod) → IsFailure pod (infer_failed_reason sort_slice pod).0
  unfolding infer_failed_reason
  infer_failed_reason-IsFailure pod = (
    (λ n. ground (arith, eq_iff pod.message "")),
    (λ e. infer_failed_reason-Blames sort_slice sorts pod e),
  )

  pod_verdict-failed :
      (pod : Pod)
      → pod.phase ≡ pod_failed
      → (pod_verdict sort_slice argo now pod).0 ≡ (infer_failed_reason sort_slice pod).0
  unfolding pod_verdict
  pod_verdict-failed pod e = ground (
    arith,
    eq_iff pod.phase pod_pending,
    eq_iff pod.phase pod_succeeded,
    eq_iff pod.phase pod_failed,
    eq_iff pod_failed pod_pending,
    eq_iff pod_failed pod_succeeded,
  )

  pod_verdict-IsVerdict : (pod : Pod) → IsVerdict pod (pod_verdict sort_slice argo now pod).0
  unfolding pod_verdict
  pod_verdict-IsVerdict pod = record {
    if_pending = λ e.
        subst (λ v. (v.0 ≡ node_pending) × IsPendingReason pod v.1) (sym (pending_first e))
          (refl, get_pending_reason-IsPendingReason pod);
    if_running = λ e. ground (
      arith,
      eq_iff pod.phase pod_pending,
      eq_iff pod.phase pod_succeeded,
      eq_iff pod.phase pod_failed,
      eq_iff pod.phase pod_running,
      eq_iff pod_running pod_pending,
      eq_iff pod_running pod_succeeded,
      eq_iff pod_running pod_failed,
    );
    if_succeeded = λ e. ground (
      arith,
      eq_iff pod.phase pod_pending,
      eq_iff pod.phase pod_succeeded,
      eq_iff pod_succeeded pod_pending,
    );
    if_failed = λ e.
        subst (IsFailure pod) (sym (pod_verdict-failed pod e)) (infer_failed_reason-IsFailure pod);
    if_other = λ p r s f. ground (
      arith,
      eq_iff pod.phase pod_pending,
      eq_iff pod.phase pod_succeeded,
      eq_iff pod.phase pod_failed,
      eq_iff pod.phase pod_running,
    );
  }
    where
      pending_first :
          pod.phase ≡ pod_pending
          → (pod_verdict sort_slice argo now pod).0 ≡ (node_pending, get_pending_reason pod)
      pending_first e = ground (arith, eq_iff pod.phase pod_pending)

  -- The phase and message of a node tell the state of its pod: a pending pod gives Pending with the
  -- reason of its first container that waits, or else of its first condition Unschedulable, or else
  -- no reason; a running pod Running and a pod that succeeded Succeeded, without a message; a pod
  -- of an unknown phase Error with a text that names it. A failed pod gives Failed with its message
  -- if it has one, and if not Succeeded where all its containers are harmless and otherwise the
  -- verdict of the container that decides: the first init container that is not harmless, or the
  -- one of the best rank.
  pub assess_node_status-IsVerdict :
      (pod : Pod)
      → let node = (assess_node_status sort_slice argo now pod).0 in
        IsVerdict pod (node.phase, node.message)
  assess_node_status-IsVerdict pod =
      let same = assess_node_status-fields sort_slice argo now laws pod in
      subst (IsVerdict pod) (ap₂ (λ p m. (p, m)) (sym same.0) (sym same.1))
        (pod_verdict-IsVerdict pod)
