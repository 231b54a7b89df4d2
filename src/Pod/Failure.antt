-- ===== src/Pod/Failure.antt =====
-- What `inferFailedReason` of pkg/informer/K8sInformer.go says of a failed pod, whatever order its
-- containers are reported in.
use kubewatch.Common.{
  All, All-Has, All-append, All-append_split, All-perm, Bool, Has, Has-perm, IsSortedBy, List,
  Permᴰ, String, [], arith, eq_iff, here, ltb, none, some, sym, there, ℕ, ◌++◌, ◌↔◌, ◌∙◌, ◌∷◌, ◌≡◌,
  ◌≢◌, ◌≤◌,
}
use kubewatch.Common.Permᴰ
use kubewatch.Common.Int.{int_beq_iff, pos}
use kubewatch.Pod.{
  ContainerStatus, Pod, Terminated, init_container_name, main_container_name, node_failed,
  node_succeeded,
}
use kubewatch.Pod.Reason.{failure_message, infer_failed_reason, judge, judge_all, order}
use kubewatch.Pod.Harmless.{
  IsHarmless, judge_all-append, judge_all-succeeded, judge_all_of_IsHarmless,
}

abbrev pub rank : ContainerStatus → ℕ
rank c = order c.name

order-main : (n : String) → order n ≤ order main_container_name → n ≡ main_container_name
unfolding order
order-main n h = ground (arith, eq_iff n main_container_name)

judge-main :
    (m : ContainerStatus) (t : Terminated)
    → m.name ≡ main_container_name
    → m.state.waiting ≡ none
    → m.state.terminated ≡ some t
    → t.exit_code ≢ pos 0
    → judge m ≡ some (node_failed, failure_message t)
unfolding judge
judge-main m t n w x z = ground (
  arith,
  eq_iff m.name init_container_name,
  eq_iff m.name main_container_name,
  eq_iff main_container_name init_container_name,
  int_beq_iff t.exit_code (pos 0),
)

-- The laws of `sort.Slice` that the code relies on: it rearranges the slice, and, with the
-- comparison of a number that each element has, leaves it ascending. Nothing is said of the order
-- of equal elements.
pub record SortLaws
    (sort_slice : (ContainerStatus → ContainerStatus → Bool)
      → List ContainerStatus
      → List ContainerStatus)
    : Type 0 where
  pub perm :
      (less : ContainerStatus → ContainerStatus → Bool) (l : List ContainerStatus)
      → Permᴰ l (sort_slice less l)
  pub sorted :
      (key : ContainerStatus → ℕ) (l : List ContainerStatus)
      → IsSortedBy key (sort_slice (λ a b. ltb (key a) (key b)) l)

pub rank-head :
    (m c : ContainerStatus) (cs : List ContainerStatus)
    → IsSortedBy rank (c ∷ cs)
    → Has m (c ∷ cs)
    → rank c ≤ rank m
rank-head m c cs s (here e) = rw e (omega arith)
rank-head m c cs s (there h) = All-Has (λ y. rank c ≤ rank y) s.0 h

-- Where the only container called main ended with an exit code other than 0, it decides.
judge_sorted :
    (m : ContainerStatus) (cs : List ContainerStatus) {v : String × String}
    → IsSortedBy rank cs
    → Has m cs
    → m.name ≡ main_container_name
    → All (λ c. c.name ≡ main_container_name → c ≡ m) cs
    → judge m ≡ some v
    → judge_all cs ≡ v
unfolding judge_all
judge_sorted m [] s h n u j = elim h [ ]
judge_sorted m (c ∷ cs) s h n u j =
    let first : c ≡ m = u.0 (order-main c.name (rw (← n) (rank-head m c cs s h))) in
    rw (judge_all, first, j)

module _
    (sort_slice : (ContainerStatus → ContainerStatus → Bool)
      → List ContainerStatus
      → List ContainerStatus)
    (laws : SortLaws sort_slice) where
  pub infer_no_message :
      (pod : Pod)
      → pod.message ≡ ""
      → (infer_failed_reason sort_slice pod).0
        ≡ judge_all (
            pod.init_container_statuses
            ++ sort_slice (λ a b. ltb (rank a) (rank b)) pod.container_statuses)
  unfolding infer_failed_reason
  infer_no_message pod e = ground (arith, eq_iff pod.message "")

  succeeded_no_message :
      (pod : Pod) → (infer_failed_reason sort_slice pod).0 ≡ (node_succeeded, "") → pod.message ≡ ""
  unfolding infer_failed_reason
  succeeded_no_message pod h =
      ground (arith, eq_iff pod.message "", eq_iff node_failed node_succeeded)

  -- A failed pod is reported as Succeeded exactly when it has no message of its own and every init
  -- container and container is harmless: it waits for nothing, and has not ended, ended with 0, or
  -- is a sidecar that ended with 137 or 143.
  pub infer_failed_reason-succeeded_iff :
      (pod : Pod)
      → ((infer_failed_reason sort_slice pod).0 ≡ (node_succeeded, "")) ↔ (
          (pod.message ≡ "")
          × All IsHarmless pod.init_container_statuses
          × All IsHarmless pod.container_statuses)
  unfolding infer_failed_reason
  infer_failed_reason-succeeded_iff pod = (
    (λ h.
        let quiet = succeeded_no_message pod h in
        let (i, c) =
          All-append_split IsHarmless pod.init_container_statuses _
            (judge_all-succeeded _ (sym (infer_no_message pod quiet) ∙ h)) in
        (quiet, i, All-perm IsHarmless (Permᴰ.symm (laws.perm _ _)) c)),
    (λ (quiet, i, c).
        infer_no_message pod quiet
        ∙ judge_all_of_IsHarmless _ (
            All-append IsHarmless pod.init_container_statuses _ i
              (All-perm IsHarmless (laws.perm _ _) c))),
  )

  -- If a failed pod has no message, its init containers are harmless, and its one container called
  -- main does not wait and ended with an exit code other than 0, then the verdict is Failed with
  -- main's message, whatever the other containers did and in whatever order they are reported.
  pub infer_failed_reason-main :
      (pod : Pod) (m : ContainerStatus) (t : Terminated)
      → pod.message ≡ ""
      → All IsHarmless pod.init_container_statuses
      → Has m pod.container_statuses
      → m.name ≡ main_container_name
      → All (λ c. c.name ≡ main_container_name → c ≡ m) pod.container_statuses
      → m.state.waiting ≡ none
      → m.state.terminated ≡ some t
      → t.exit_code ≢ pos 0
      → (infer_failed_reason sort_slice pod).0 ≡ (node_failed, failure_message t)
  infer_failed_reason-main pod m t e i h n u w x z =
      infer_no_message pod e
      ∙ judge_all-append pod.init_container_statuses _ i
      ∙ judge_sorted m _ (laws.sorted rank _) (Has-perm (laws.perm _ _) h) n
          (All-perm (λ c. c.name ≡ main_container_name → c ≡ m) (laws.perm _ _) u)
          (judge-main m t n w x z)
