-- ===== src/Pod/Verdict.antt =====
-- Which container of a failed pod `inferFailedReason` names (pkg/informer/K8sInformer.go), as a
-- relation that speaks of no order of the slice.
use kubewatch.Common.{
  All, All-append, All-perm, Bool, Bool-cases, Has, Has-perm, IsSortedBy, List, Option-cases,
  String, [], ap, arith, concat, eq_iff, here, inl, inr, int_eq, ltb, nat_eq, none, refl, some,
  some_eq, string_eq, subst, sym, there, ◌++◌, ◌<◌, ◌==◌, ◌∙◌, ◌∷◌, ◌≡◌, ◌≢◌, ◌≤◌, ◌⊎◌,
}
use kubewatch.Common.Permᴰ
use mathlib.Core.List.{append-nil}
use kubewatch.Common.Int.{pos}
use kubewatch.Pod.{
  ContainerStatus, Pod, Terminated, Waiting, init_container_name, main_container_name, node_error,
  node_failed, node_succeeded, wait_container_name,
}
use kubewatch.Pod.Reason.{failed_container, failure_message, infer_failed_reason, judge, judge_all}
use kubewatch.Pod.Harmless.{
  IsHarmless, judge-none, judge_all-append, judge_all_of_IsHarmless, judge_of_IsHarmless,
}
use kubewatch.Pod.Failure.{SortLaws, infer_no_message, rank, rank-head}

-- The first container of a list that is not harmless.
pub data IsFirst (c : ContainerStatus) : List ContainerStatus → Type 0 where
  first :
      {d : ContainerStatus} {ds : List ContainerStatus}
      → c ≡ d
      → ¬ IsHarmless c
      → IsFirst c (d ∷ ds)
  later :
      {d : ContainerStatus} {ds : List ContainerStatus}
      → IsHarmless d
      → IsFirst c ds
      → IsFirst c (d ∷ ds)

-- The container decides: it is the first init container that is not harmless, or, if these all are
-- harmless, a container that is not harmless where each of a better rank is.
pub data Decides (c : ContainerStatus) (pod : Pod) : Type 0 where
  by_init : IsFirst c pod.init_container_statuses → Decides c pod
  by_rank :
      All IsHarmless pod.init_container_statuses
      → Has c pod.container_statuses
      → ¬ IsHarmless c
      → ((d : ContainerStatus) → Has d pod.container_statuses → rank d < rank c → IsHarmless d)
      → Decides c pod

-- What is said of a pod that the container decides for.
abbrev pub Blames : ContainerStatus → String × String → Type 0
Blames c v =
    ((w : Waiting) × (c.state.waiting ≡ some w)
      × (v.0 ≡ node_error)
      × (v.1
          ≡ concat (
              "Pod failed before " ∷ c.name ∷ " container starts due to " ∷ w.reason ∷ ": "
              ∷ w.message ∷ [])))
    ⊎ ((t : Terminated) × (c.state.waiting ≡ none)
        × (c.state.terminated ≡ some t)
        × (v.1 ≡ failure_message t)
        × (((c.name ≡ init_container_name) ⊎ (c.name ≡ wait_container_name)) → v.0 ≡ node_error)
        × (c.name ≢ init_container_name → c.name ≢ wait_container_name → v.0 ≡ node_failed))

failed_container-Blames :
    (name : String) (t : Terminated) {v : String × String}
    → failed_container name t ≡ some v
    → (v.1 ≡ failure_message t)
      × (((name ≡ init_container_name) ⊎ (name ≡ wait_container_name)) → v.0 ≡ node_error)
      × (name ≢ init_container_name → name ≢ wait_container_name → v.0 ≡ node_failed)
unfolding failed_container
failed_container-Blames name t h = (
  ground (arith, eq_iff name init_container_name),
  (λ e. ground (
    arith,
    eq_iff name init_container_name,
    eq_iff name main_container_name,
    eq_iff name wait_container_name,
    eq_iff wait_container_name main_container_name,
  )),
  (λ e f. ground (arith, eq_iff name init_container_name, eq_iff name wait_container_name)),
)

judge-Blames : (c : ContainerStatus) {v : String × String} → judge c ≡ some v → Blames c v
unfolding judge
judge-Blames c {v} h = elim (Option-cases c.state.waiting) [
  | inr (w, e) ↦
      let k : v ≡ _ = some_eq (sym (rw e at h)) in inl (w, e, ap (λ p. p.0) k, ap (λ p. p.1) k)
  | inl e ↦ elim (Option-cases c.state.terminated) [
    | inl e' ↦ ground arith
    | inr (t, e') ↦ elim (Bool-cases (t.exit_code == pos 0)) [
      | inl z ↦ ground arith
      | inr z ↦
          let (m, err, fail) = failed_container-Blames c.name t (rw (e, e', z) at h) in
          inr (t, e, e', m, err, fail)
    ]
  ]
]

judge-some : (c : ContainerStatus) {v : String × String} → judge c ≡ some v → ¬ IsHarmless c
judge-some c h k = cc (h, judge_of_IsHarmless c k)

-- Either nothing is wrong, or the first container with a verdict decides.
judge_all-IsFirst :
    (cs : List ContainerStatus)
    → All IsHarmless cs
      ⊎ ((c : ContainerStatus) × (v : String × String) × IsFirst c cs
          × (judge c ≡ some v)
          × ((ds : List ContainerStatus) → judge_all (cs ++ ds) ≡ v))
unfolding judge_all
judge_all-IsFirst [] = inl tt
judge_all-IsFirst (c ∷ cs) = elim (Option-cases (judge c)) [
  | inr (v, e) ↦ inr (c, v, first refl (judge-some c e), e, λ ds. rw (judge_all, e) refl)
  | inl e ↦ elim (judge_all-IsFirst cs) [
    | inl h ↦ inl (judge-none c e, h)
    | inr (d, v, f, j, k) ↦ inr (d, v, later (judge-none c e) f, j, λ ds. rw (judge_all, e) (k ds))
  ]
]

-- In a list ascending in the rank, the first that is not harmless has the best rank of these.
IsFirst-rank :
    {c : ContainerStatus} (cs : List ContainerStatus)
    → IsSortedBy rank cs
    → IsFirst c cs
    → Has c cs
      × (¬ IsHarmless c)
      × ((d : ContainerStatus) → Has d cs → rank d < rank c → IsHarmless d)
IsFirst-rank {c} [] s f = elim f [ ]
IsFirst-rank {c} (x ∷ xs) s (first e n) = (
  here e,
  n,
  λ d m l. absurd (omega (arith, l, subst (λ y. rank y ≤ rank d) (sym e) (rank-head d x xs s m))),
)
IsFirst-rank {c} (x ∷ xs) s (later h f) =
    let (m, n, k) = IsFirst-rank xs s.1 f in (there m, n, λ d m' l. later_rank d m' l k)
  where
    later_rank :
        (d : ContainerStatus)
        → Has d (x ∷ xs)
        → rank d < rank c
        → ((d : ContainerStatus) → Has d xs → rank d < rank c → IsHarmless d)
        → IsHarmless d
    later_rank d (here e) l k = subst IsHarmless (sym e) h
    later_rank d (there m) l k = k d m l

module _
    (sort_slice : (ContainerStatus → ContainerStatus → Bool)
      → List ContainerStatus
      → List ContainerStatus)
    (laws : SortLaws sort_slice) where
  -- What the containers of a pod make of it: all are harmless, or one decides.
  abbrev pub IsJudged : Pod → String × String → Type 0
  IsJudged pod v =
      ((v ≡ (node_succeeded, ""))
        × All IsHarmless pod.init_container_statuses
        × All IsHarmless pod.container_statuses)
      ⊎ ((c : ContainerStatus) × Decides c pod × (judge c ≡ some v))

  pub infer-IsJudged :
      (pod : Pod) → pod.message ≡ "" → IsJudged pod (infer_failed_reason sort_slice pod).0
  infer-IsJudged pod e =
      let sorted = sort_slice (λ a b. ltb (rank a) (rank b)) pod.container_statuses in
      let q = laws.perm (λ a b. ltb (rank a) (rank b)) pod.container_statuses in
      subst (IsJudged pod) (sym (infer_no_message sort_slice laws pod e))
        (elim (judge_all-IsFirst pod.init_container_statuses) [
          | inr (c, v, f, j, k) ↦ inr (c, by_init f, j ∙ ap some (sym (k sorted)))
          | inl h ↦ elim (judge_all-IsFirst sorted) [
            | inl h' ↦ inl (
              judge_all_of_IsHarmless _ (All-append IsHarmless pod.init_container_statuses _ h h'),
              h,
              All-perm IsHarmless (Permᴰ.symm q) h',
            )
            | inr (c, v, f, j, k) ↦
                let (m, n, best) = IsFirst-rank sorted (laws.sorted rank _) f in
                inr (
                  c,
                  by_rank h (Has-perm (Permᴰ.symm q) m) n (λ d m' l. best d (Has-perm q m') l),
                  j
                      ∙ ap some (
                          sym (
                            judge_all-append pod.init_container_statuses _ h
                            ∙ ap judge_all (sym (append-nil sorted))
                            ∙ k [])),
                )
          ]
        ])

  -- A failed pod without a message of its own is reported as Succeeded if all its containers are
  -- harmless. Otherwise one container decides, which is the first init container that is not
  -- harmless, or, if these are harmless, a container that is not harmless while all of a better
  -- rank are (main, then the one called wait, then the rest); the report names it as Error if it
  -- waits, or is called init or wait, and as Failed otherwise, with the text made of its state.
  pub infer_failed_reason-Blames :
      (pod : Pod)
      → pod.message ≡ ""
      → let v = (infer_failed_reason sort_slice pod).0 in
        ((v ≡ (node_succeeded, ""))
          × All IsHarmless pod.init_container_statuses
          × All IsHarmless pod.container_statuses)
        ⊎ ((c : ContainerStatus) × Decides c pod × Blames c v)
  infer_failed_reason-Blames pod e = elim (infer-IsJudged pod e) [
    | inl h ↦ inl h
    | inr (c, d, j) ↦ inr (c, d, judge-Blames c j)
  ]
