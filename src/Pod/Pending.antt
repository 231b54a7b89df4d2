-- ===== src/Pod/Pending.antt =====
-- Why a pod is pending (`getPendingReason` of pkg/informer/K8sInformer.go), as a relation.
use kubewatch.Common.{
  All, Bool-cases, List, Option-cases, String, [], arith, concat, eq_iff, inl, inr, int_eq, nat_eq,
  none, refl, some, string_eq, ◌==◌, ◌∙◌, ◌∷◌, ◌≡◌, ◌≢◌, ◌⊎◌,
}
use kubewatch.Pod.{Condition, ContainerStatus, Pod, Waiting, pod_reason_unschedulable}
use kubewatch.Pod.Reason.{
  get_pending_reason, pending_condition, pending_container, reason_and_message,
}

-- The first container that waits, and what it waits for.
pub data FirstWaiting (w : Waiting) : List ContainerStatus → Type 0 where
  this_waits :
      {c : ContainerStatus} {cs : List ContainerStatus}
      → c.state.waiting ≡ some w
      → FirstWaiting w (c ∷ cs)
  later_waits :
      {c : ContainerStatus} {cs : List ContainerStatus}
      → c.state.waiting ≡ none
      → FirstWaiting w cs
      → FirstWaiting w (c ∷ cs)

-- The first condition with the reason Unschedulable.
pub data FirstUnschedulable (d : Condition) : List Condition → Type 0 where
  this_is :
      {c : Condition} {cs : List Condition}
      → d ≡ c
      → d.reason ≡ pod_reason_unschedulable
      → FirstUnschedulable d (c ∷ cs)
  later_is :
      {c : Condition} {cs : List Condition}
      → c.reason ≢ pod_reason_unschedulable
      → FirstUnschedulable d cs
      → FirstUnschedulable d (c ∷ cs)

-- The text of a reason and a message.
abbrev pub Shows : String → String → String → Type 0
Shows text reason message =
    (message ≡ "" → text ≡ reason) × (message ≢ "" → text ≡ concat (reason ∷ ": " ∷ message ∷ []))

abbrev pub NoneWaits : List ContainerStatus → Type 0
NoneWaits cs = All (λ c. c.state.waiting ≡ none) cs

-- Why a pod is pending: the first container that waits says it, or if none waits the first condition
-- with the reason Unschedulable, or if there is none nothing does.
pub data IsPendingReason (pod : Pod) (text : String) : Type 0 where
  of_container :
      (w : Waiting)
      → FirstWaiting w pod.container_statuses
      → Shows text w.reason w.message
      → IsPendingReason pod text
  of_condition :
      (d : Condition)
      → NoneWaits pod.container_statuses
      → FirstUnschedulable d pod.conditions
      → Shows text d.reason d.message
      → IsPendingReason pod text
  of_nothing :
      NoneWaits pod.container_statuses
      → All (λ d. d.reason ≢ pod_reason_unschedulable) pod.conditions
      → text ≡ ""
      → IsPendingReason pod text

reason_and_message-Shows : (r m : String) → Shows (reason_and_message r m) r m
reason_and_message-Shows r m =
    ((λ e. ground (arith, eq_iff m "")), (λ e. ground (arith, eq_iff m "")))

pending_condition_lem :
    (ds : List Condition)
    → ((d : Condition) × FirstUnschedulable d ds × Shows (pending_condition ds) d.reason d.message)
      ⊎ (All (λ d. d.reason ≢ pod_reason_unschedulable) ds × (pending_condition ds ≡ ""))
unfolding pending_condition
pending_condition_lem [] = inr (tt, refl)
pending_condition_lem (d ∷ ds) = elim (Bool-cases (d.reason == pod_reason_unschedulable)) [
  | inl e ↦ inl (
    d,
    this_is refl ((eq_iff d.reason pod_reason_unschedulable).0 e),
    rw (pending_condition, e) (reason_and_message-Shows d.reason d.message),
  )
  | inr e ↦
      let differs : d.reason ≢ pod_reason_unschedulable =
        λ p. cc (e, (eq_iff d.reason pod_reason_unschedulable).1 p) in
      elim (pending_condition_lem ds) [
        | inl (c, f, s) ↦ inl (c, later_is differs f, rw (pending_condition, e) s)
        | inr (n, s) ↦ inr ((differs, n), rw (pending_condition, e) s)
      ]
]

pending_container_lem :
    (cs : List ContainerStatus) (otherwise : String)
    → ((w : Waiting) × FirstWaiting w cs
        × Shows (pending_container cs otherwise) w.reason w.message)
      ⊎ (NoneWaits cs × (pending_container cs otherwise ≡ otherwise))
unfolding pending_container
pending_container_lem [] otherwise = inr (tt, refl)
pending_container_lem (c ∷ cs) otherwise = elim (Option-cases c.state.waiting) [
  | inr (w, e) ↦
      inl (w, this_waits e, rw (pending_container, e) (reason_and_message-Shows w.reason w.message))
  | inl e ↦ elim (pending_container_lem cs otherwise) [
    | inl (w, f, s) ↦ inl (w, later_waits e f, rw (pending_container, e) s)
    | inr (n, s) ↦ inr ((e, n), rw (pending_container, e) s)
  ]
]

pub get_pending_reason-IsPendingReason : (pod : Pod) → IsPendingReason pod (get_pending_reason pod)
unfolding get_pending_reason
get_pending_reason-IsPendingReason pod =
    elim (pending_container_lem pod.container_statuses (pending_condition pod.conditions)) [
      | inl (w, f, s) ↦ of_container w f s
      | inr (n, e) ↦ elim (pending_condition_lem pod.conditions) [
        | inl (d, f, s) ↦ of_condition d n f (rw e s)
        | inr (m, s) ↦ of_nothing n m (e ∙ s)
      ]
    ]
