-- ===== src/Pod/Reason.antt =====
-- Why a pod is pending or failed: `getPendingReason`, `getExitCode` and `inferFailedReason` of
-- pkg/informer/K8sInformer.go.
use kubewatch.Common.{
  Bool, List, Option, String, [], concat, if◌then◌else◌, int_eq, ltb, nat_eq, none, not, some,
  sprint_int, string_eq, ℕ, ◌++◌, ◌==◌, ◌||◌, ◌∷◌,
}
use kubewatch.Common.Int.{pos, ℤ}
use kubewatch.Pod.{
  Condition, ContainerStatus, Pod, Terminated, init_container_name, main_container_name, node_error,
  node_failed, node_succeeded, pod_reason_unschedulable, wait_container_name,
}

-- `"%s: %s"`, or the reason alone where the message is empty.
abbrev pub reason_and_message : String → String → String
reason_and_message reason message =
    if not (message == "") then concat (reason ∷ ": " ∷ message ∷ []) else reason

-- The second loop, over the conditions of the pod.
unfoldable pub pending_condition : List Condition → String
pending_condition [] = ""
pending_condition (cond ∷ conds) =
    let rest = pending_condition conds in
    if cond.reason == pod_reason_unschedulable
    then reason_and_message cond.reason cond.message
    else rest

-- The first loop, over the containers; `otherwise` is what follows it.
unfoldable pub pending_container : List ContainerStatus → String → String
pending_container [] otherwise = otherwise
pending_container (ctr ∷ ctrs) otherwise = elim ctr.state.waiting [
  | some w ↦ reason_and_message w.reason w.message
  | none ↦ pending_container ctrs otherwise
]

unfoldable pub get_pending_reason : Pod → String
unfolding pending_container pending_condition
get_pending_reason pod = pending_container pod.container_statuses (pending_condition pod.conditions)

-- The loop of `getExitCode`.
unfoldable pub exit_code_from : List ContainerStatus → Option ℤ
exit_code_from [] = none
exit_code_from (c ∷ cs) =
    let rest = exit_code_from cs in
    elim c.state.terminated [
      | some t ↦ if c.name == main_container_name then some t.exit_code else rest
      | none ↦ rest
    ]

unfoldable pub get_exit_code : Pod → Option ℤ
unfolding exit_code_from
get_exit_code pod = exit_code_from pod.container_statuses

-- The preference of a container by its name.
unfoldable pub order : String → ℕ
order n = if n == main_container_name then 1 else if n == wait_container_name then 2 else 3

unfoldable pub failure_message : Terminated → String
failure_message t =
    let msg = concat (t.reason ∷ " (exit code " ∷ sprint_int t.exit_code ∷ ")" ∷ []) in
    if not (t.message == "") then concat (msg ∷ ": " ∷ t.message ∷ []) else msg

-- The `switch` over the name of a container that ended with an exit code other than 0.
unfoldable pub failed_container : String → Terminated → Option (String × String)
failed_container name t =
    if name == init_container_name
    then some (node_error, failure_message t)
    else if name == main_container_name
    then some (node_failed, failure_message t)
    else if name == wait_container_name
    then some (node_error, failure_message t)
    else if t.exit_code == pos 137 || t.exit_code == pos 143
    then none
    else some (node_failed, failure_message t)

-- One round of the loop: `none` where the code goes on with the next container.
unfoldable pub judge : ContainerStatus → Option (String × String)
unfolding failed_container
judge ctr = elim ctr.state.waiting [
  | some w ↦ some (
    node_error,
    concat (
        "Pod failed before " ∷ ctr.name ∷ " container starts due to " ∷ w.reason ∷ ": " ∷ w.message
        ∷ []),
  )
  | none ↦ elim ctr.state.terminated [
    | none ↦ none
    | some t ↦ if t.exit_code == pos 0 then none else failed_container ctr.name t
  ]
]

unfoldable pub judge_all : List ContainerStatus → String × String
judge_all [] = (node_succeeded, "")
judge_all (ctr ∷ ctrs) = elim (judge ctr) [ some verdict ↦ verdict | none ↦ judge_all ctrs ]

-- `sort.Slice` sorts in place, so the pod comes back with its containers in the new order.
-- `sort_slice` stands for it: it takes the comparison and the slice.
module _
    (sort_slice : (ContainerStatus → ContainerStatus → Bool)
      → List ContainerStatus
      → List ContainerStatus) where
  unfoldable pub infer_failed_reason : Pod → (String × String) × Pod
  infer_failed_reason pod =
      if not (pod.message == "")
      then ((node_failed, pod.message), pod)
      else let ctrs =
          sort_slice (λ a b. ltb (order a.name) (order b.name)) pod.container_statuses in
        (judge_all (pod.init_container_statuses ++ ctrs), record pod { container_statuses = ctrs })
