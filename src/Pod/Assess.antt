-- ===== src/Pod/Assess.antt =====
-- What `assessNodeStatus` of pkg/informer/K8sInformer.go makes of a pod.
use kubewatch.Common.Permᴰ
use kubewatch.Common.{
  All, All-perm, Bool, Has, Has-perm, List, Option-cases, Permᴰ, String, [], ap, arith, eq_cases,
  eq_iff, here, inl, inr, ltb, none, refl, some, sprint_int, string_eq, subst, sym, there, to_list,
  ℕ, ◌++◌, ◌∙◌, ◌∷◌, ◌≡◌, ◌≢◌, ◌⊎◌,
}
use kubewatch.Pod.{
  ContainerStatus, NodeStatus, Pod, Terminated, Time, main_container_name, node_pending,
  node_running, pod_failed, pod_pending, pod_running, pod_succeeded, zero_node,
}
use kubewatch.Pod.Reason.{
  exit_code_from, failed_container, get_exit_code, infer_failed_reason, judge, judge_all,
}
use kubewatch.Pod.Times.{get_latest_finished_at}
use kubewatch.Pod.Status.{
  Argo, ArgoLaws, IsFinal, assess_node_status, node_omitted, node_skipped, pod_verdict,
  set_exit_code, set_finished_at, set_pod_ip, set_progress,
}
use kubewatch.Pod.Failure.{SortLaws, rank}

-- The phase that a node gets is one of five.
abbrev IsNodePhase : String → Type 0
IsNodePhase p = (p ≡ node_pending) ⊎ (p ≡ node_running) ⊎ IsFinal p

-- So it is fulfilled just if it is final.
not_fulfilled : (p : String) → IsNodePhase p → ¬ IsFinal p → (p ≢ node_skipped) × (p ≢ node_omitted)
not_fulfilled p h n = ground (
  arith,
  h,
  n,
  eq_iff p node_skipped,
  eq_iff p node_omitted,
  eq_iff p node_pending,
  eq_iff p node_running,
  eq_iff node_pending node_skipped,
  eq_iff node_pending node_omitted,
  eq_iff node_running node_skipped,
  eq_iff node_running node_omitted,
)

failed_container-IsFinal :
    (name : String) (t : Terminated) → All (λ v. IsFinal v.0) (to_list (failed_container name t))
unfolding failed_container
failed_container-IsFinal name t = ground arith

judge-IsFinal : (c : ContainerStatus) → All (λ v. IsFinal v.0) (to_list (judge c))
unfolding judge
judge-IsFinal c = elim (Option-cases c.state.terminated) [
  | inl e ↦ ground arith
  | inr (t, e) ↦ ground (arith, failed_container-IsFinal c.name t)
]

judge_all-IsFinal : (cs : List ContainerStatus) → IsFinal (judge_all cs).0
unfolding judge_all
judge_all-IsFinal [] = inl refl
judge_all-IsFinal (c ∷ cs) = elim (Option-cases (judge c)) [
  | inl e ↦ rw (judge_all, e) (judge_all-IsFinal cs)
  | inr (v, e) ↦ rw (judge_all, e) (rw e at (judge-IsFinal c)).0
]

-- The exit code of the containers if the one called main ended with code x.
exit_code_from-main :
    (m : ContainerStatus) (t : Terminated) (cs : List ContainerStatus)
    → Has m cs
    → m.name ≡ main_container_name
    → All (λ c. c.name ≡ main_container_name → c ≡ m) cs
    → m.state.terminated ≡ some t
    → exit_code_from cs ≡ some t.exit_code
unfolding exit_code_from
exit_code_from-main m t [] h n u e = elim h [ ]
exit_code_from-main m t (c ∷ cs) (here same) n u e =
    ground (arith, eq_iff c.name main_container_name, ap (λ (d : ContainerStatus). d.name) same)
exit_code_from-main m t (c ∷ cs) (there h) n u e =
    ground (arith, eq_iff c.name main_container_name, u.0, exit_code_from-main m t cs h n u.1 e)

-- Two node statuses that agree where the last step looks.
record Agree (a b : NodeStatus) : Type 0 where
  phase : b.phase ≡ a.phase
  message : b.message ≡ a.message
  host_node_name : b.host_node_name ≡ a.host_node_name
  daemoned : b.daemoned ≡ a.daemoned
  finished_at : b.finished_at ≡ a.finished_at

set_pod_ip-Agree : (argo : Argo) (pod : Pod) (n : NodeStatus) → Agree n (set_pod_ip argo pod n)
unfolding set_pod_ip
set_pod_ip-Agree argo pod n = ground arith

set_progress-Agree : (argo : Argo) (pod : Pod) (n : NodeStatus) → Agree n (set_progress argo pod n)
unfolding set_progress
set_progress-Agree argo pod n = ground arith

set_exit_code-Agree : (pod : Pod) (n : NodeStatus) → Agree n (set_exit_code pod n)
unfolding set_exit_code
set_exit_code-Agree pod n = ground arith

set_finished_at_lem :
    (argo : Argo) (now : ℕ → Time) (laws : ArgoLaws argo) (pod : Pod) (n : NodeStatus)
    → IsNodePhase n.phase
    → n.daemoned ≡ none
    → n.finished_at ≡ 0
    → let node = set_finished_at argo now pod n in
      (node.phase ≡ n.phase)
      × (node.message ≡ n.message)
      × (node.host_node_name ≡ n.host_node_name)
      × (IsFinal n.phase → node.finished_at ≡ get_latest_finished_at now pod)
      × (¬ IsFinal n.phase → node.finished_at ≡ 0)
unfolding set_finished_at
set_finished_at_lem argo now laws pod n h d z =
    ground (arith, laws.fulfilled_iff n d, not_fulfilled n.phase h)

module _
    (sort_slice : (ContainerStatus → ContainerStatus → Bool)
      → List ContainerStatus
      → List ContainerStatus)
    (argo : Argo) (now : ℕ → Time) (laws : ArgoLaws argo) where
  -- The sorting leaves everything of the pod but the order of its containers.
  pub pod_verdict-keeps :
      (pod : Pod)
      → let after = (pod_verdict sort_slice argo now pod).1 in
        (after.name ≡ pod.name)
        × (after.namespace ≡ pod.namespace)
        × (after.node_name ≡ pod.node_name)
        × (after.owner_references ≡ pod.owner_references)
  unfolding pod_verdict infer_failed_reason
  pod_verdict-keeps pod = ground arith

  pod_verdict-IsFinal :
      (given : Pod)
      → given.phase ≢ pod_pending
      → given.phase ≢ pod_running
      → IsFinal (pod_verdict sort_slice argo now given).0.0
  unfolding pod_verdict infer_failed_reason
  pod_verdict-IsFinal given p r = ground (
    arith,
    eq_iff given.phase pod_pending,
    eq_iff given.phase pod_running,
    judge_all-IsFinal (
        given.init_container_statuses
        ++ sort_slice (λ a b. ltb (rank a) (rank b)) given.container_statuses),
  )

  pod_verdict-live :
      (given : Pod)
      → (given.phase ≡ pod_pending → (pod_verdict sort_slice argo now given).0.0 ≡ node_pending)
        × (given.phase ≡ pod_running → (pod_verdict sort_slice argo now given).0.0 ≡ node_running)
  unfolding pod_verdict
  pod_verdict-live given = ground (
    arith,
    eq_iff given.phase pod_pending,
    eq_iff given.phase pod_running,
    eq_iff given.phase pod_succeeded,
    eq_iff given.phase pod_failed,
    eq_iff pod_running pod_pending,
    eq_iff pod_running pod_succeeded,
    eq_iff pod_running pod_failed,
  )

  pod_verdict-IsNodePhase : (given : Pod) → IsNodePhase (pod_verdict sort_slice argo now given).0.0
  pod_verdict-IsNodePhase given = elim (eq_cases ⦃e = string_eq⦄ given.phase pod_pending) [
    | inl p ↦ inl ((pod_verdict-live given).0 p)
    | inr p ↦ elim (eq_cases ⦃e = string_eq⦄ given.phase pod_running) [
      | inl r ↦ inr (inl ((pod_verdict-live given).1 r))
      | inr r ↦ inr (inr (pod_verdict-IsFinal given p r))
    ]
  ]

  -- The node status of a pod carries the phase and message of the verdict and the name of the
  -- pod's node. Its finish time is the latest one of the containers if the phase is final
  -- (Succeeded, Failed or Error), and zero if it is not.
  pub assess_node_status-fields :
      (given : Pod)
      → let (verdict, pod) = pod_verdict sort_slice argo now given in
        let node = (assess_node_status sort_slice argo now given).0 in
        (node.phase ≡ verdict.0)
        × (node.message ≡ verdict.1)
        × (node.host_node_name ≡ given.node_name)
        × (IsFinal verdict.0 → node.finished_at ≡ get_latest_finished_at now pod)
        × (¬ IsFinal verdict.0 → node.finished_at ≡ 0)
  unfolding assess_node_status
  assess_node_status-fields given =
      let (verdict, pod) = pod_verdict sort_slice argo now given in
      let judged : NodeStatus = record zero_node { phase = verdict.0; message = verdict.1 } in
      let a = set_pod_ip-Agree argo pod judged in
      let placed : NodeStatus = record (set_pod_ip argo pod judged) {
        host_node_name = pod.node_name;
      } in
      let b = set_progress-Agree argo pod placed in
      let c = set_exit_code-Agree pod (set_progress argo pod placed) in
      let phase = c.phase ∙ b.phase ∙ a.phase in
      let final =
        set_finished_at_lem argo now laws pod (set_exit_code pod (set_progress argo pod placed))
          (subst IsNodePhase (sym phase) (pod_verdict-IsNodePhase given))
          (c.daemoned ∙ b.daemoned ∙ a.daemoned) (c.finished_at ∙ b.finished_at ∙ a.finished_at) in
      (
        final.0 ∙ phase,
        final.1 ∙ c.message ∙ b.message ∙ a.message,
        final.2 ∙ c.host_node_name ∙ b.host_node_name ∙ (pod_verdict-keeps given).2,
        λ h. final.3 (subst IsFinal (sym phase) h),
        λ h. final.4 (λ g. h (subst IsFinal phase g)),
      )

  -- A pending pod gives a Pending node and a running pod a Running one; a pod in any other phase,
  -- an unknown one included, gives a node whose phase is final: Succeeded, Failed or Error.
  pub assess_node_status-phase :
      (given : Pod)
      → let phase = (assess_node_status sort_slice argo now given).0.phase in
        (given.phase ≡ pod_pending → phase ≡ node_pending)
        × (given.phase ≡ pod_running → phase ≡ node_running)
        × (given.phase ≢ pod_pending → given.phase ≢ pod_running → IsFinal phase)
  assess_node_status-phase given =
      let same = (assess_node_status-fields given).0 in
      let live = pod_verdict-live given in
      (
        λ p. same ∙ live.0 p,
        λ r. same ∙ live.1 r,
        λ p r. subst IsFinal (sym same) (pod_verdict-IsFinal given p r),
      )

  pod_verdict-perm :
      SortLaws sort_slice
      → (given : Pod)
      → Permᴰ given.container_statuses (pod_verdict sort_slice argo now given).1.container_statuses
  unfolding pod_verdict infer_failed_reason
  pod_verdict-perm sorts given = ground (
    arith,
    sorts.perm (λ a b. ltb (rank a) (rank b)) given.container_statuses,
    Permᴰ.refl given.container_statuses,
  )

  -- If the one container of a pod that is called main has ended, the outputs of the node carry
  -- its exit code in decimal, though the containers are sorted on the way where the pod failed.
  pub assess_node_status-exit_code :
      SortLaws sort_slice
      → (given : Pod) (m : ContainerStatus) (t : Terminated) → Has m given.container_statuses
      → m.name ≡ main_container_name
      → All (λ c. c.name ≡ main_container_name → c ≡ m) given.container_statuses
      → m.state.terminated ≡ some t
      → (assess_node_status sort_slice argo now given).0.outputs
        ≡ some (record { exit_code = some (sprint_int t.exit_code) })
  unfolding assess_node_status set_finished_at set_exit_code get_exit_code
  assess_node_status-exit_code sorts given m t h n u e =
      let p = pod_verdict-perm sorts given in
      let code =
        exit_code_from-main m t _ (Has-perm p h) n
          (All-perm (λ c. c.name ≡ main_container_name → c ≡ m) p u) e in
      ground (arith, code)
