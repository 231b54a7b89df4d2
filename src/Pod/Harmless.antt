-- ===== src/Pod/Harmless.antt =====
-- Which ends of containers make a failed pod count as succeeded (pkg/informer/K8sInformer.go).
use kubewatch.Common.{
  All, List, Option, Option-cases, String, [], arith, eq_iff, inl, inr, none, refl, some, ◌++◌, ◌∷◌,
  ◌≡◌, ◌≢◌, ◌⊎◌,
}
use kubewatch.Common.Int.{int_beq_iff, pos}
use kubewatch.Pod.{
  ContainerStatus, Terminated, init_container_name, main_container_name, node_error, node_failed,
  node_succeeded, wait_container_name,
}
use kubewatch.Pod.Reason.{failed_container, judge, judge_all}

-- A container that ended in a way that is no failure of the pod.
abbrev pub EndsWell : String → Option Terminated → Type 0
EndsWell name none = Unit
EndsWell name (some t) =
    (t.exit_code ≡ pos 0)
    ⊎ ((name ≢ init_container_name)
        × (name ≢ main_container_name)
        × (name ≢ wait_container_name)
        × ((t.exit_code ≡ pos 137) ⊎ (t.exit_code ≡ pos 143)))

-- It waits for nothing, and has not ended, or ended well.
abbrev pub IsHarmless : ContainerStatus → Type 0
IsHarmless c = (c.state.waiting ≡ none) × EndsWell c.name c.state.terminated

failed_container-none :
    (name : String) (t : Terminated) → failed_container name t ≡ none → EndsWell name (some t)
unfolding failed_container
failed_container-none name t h = ground (
  arith,
  eq_iff name init_container_name,
  eq_iff name main_container_name,
  eq_iff name wait_container_name,
  int_beq_iff t.exit_code (pos 137),
  int_beq_iff t.exit_code (pos 143),
)

failed_container_of_EndsWell :
    (name : String) (t : Terminated)
    → t.exit_code ≢ pos 0
    → EndsWell name (some t)
    → failed_container name t ≡ none
unfolding failed_container
failed_container_of_EndsWell name t nz h = ground (
  arith,
  eq_iff name init_container_name,
  eq_iff name main_container_name,
  eq_iff name wait_container_name,
  int_beq_iff t.exit_code (pos 137),
  int_beq_iff t.exit_code (pos 143),
)

failed_container-ne-succeeded :
    (name : String) (t : Terminated) {v : String × String}
    → failed_container name t ≡ some v
    → v.0 ≢ node_succeeded
unfolding failed_container
failed_container-ne-succeeded name t h e =
    ground (arith, eq_iff node_error node_succeeded, eq_iff node_failed node_succeeded)

pub judge-none : (c : ContainerStatus) → judge c ≡ none → IsHarmless c
unfolding judge
judge-none c h = elim (Option-cases c.state.waiting) [
  | inr (w, e) ↦ ground arith
  | inl e ↦ elim (Option-cases c.state.terminated) [
    | inl e' ↦ (e, rw e' tt)
    | inr (t, e') ↦
        (e, rw e' (ground (arith, failed_container-none c.name t, int_beq_iff t.exit_code (pos 0))))
  ]
]

pub judge_of_IsHarmless : (c : ContainerStatus) → IsHarmless c → judge c ≡ none
unfolding judge
judge_of_IsHarmless c h = elim (Option-cases c.state.terminated) [
  | inl e ↦ ground arith
  | inr (t, e) ↦
      ground
        (arith, rw e at h.1, failed_container_of_EndsWell c.name t, int_beq_iff t.exit_code (pos 0))
]

judge-ne-succeeded :
    (c : ContainerStatus) {v : String × String} → judge c ≡ some v → v.0 ≢ node_succeeded
unfolding judge
judge-ne-succeeded c {v} h e = elim (Option-cases c.state.terminated) [
  | inl x ↦ ground (arith, eq_iff node_error node_succeeded)
  | inr (t, x) ↦
      ground
        (arith, failed_container-ne-succeeded c.name t {v = v}, eq_iff node_error node_succeeded)
]

pub judge_all-succeeded :
    (cs : List ContainerStatus) → judge_all cs ≡ (node_succeeded, "") → All IsHarmless cs
unfolding judge_all
judge_all-succeeded [] h = tt
judge_all-succeeded (c ∷ cs) h = elim (Option-cases (judge c)) [
  | inl e ↦ (judge-none c e, judge_all-succeeded cs (ground arith))
  | inr (v, e) ↦ absurd (judge-ne-succeeded c e (ground arith))
]

pub judge_all-append :
    (cs ds : List ContainerStatus) → All IsHarmless cs → judge_all (cs ++ ds) ≡ judge_all ds
unfolding judge_all
judge_all-append [] ds h = refl
judge_all-append (c ∷ cs) ds (p, h) =
    rw (judge_all, judge_of_IsHarmless c p) (judge_all-append cs ds h)

pub judge_all_of_IsHarmless :
    (cs : List ContainerStatus) → All IsHarmless cs → judge_all cs ≡ (node_succeeded, "")
unfolding judge_all
judge_all_of_IsHarmless [] h = refl
judge_all_of_IsHarmless (c ∷ cs) (p, h) =
    rw (judge_all, judge_of_IsHarmless c p) (judge_all_of_IsHarmless cs h)
