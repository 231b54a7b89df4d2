-- ===== src/Informer/Events/Service.antt =====
-- The informers from their start on, against the abstract view (`BuildInformerForAllClusters` and the
-- handlers of pkg/informer/K8sInformer.go).
use kubewatch.Common.{
  All, Bool, List, [], ap, arith, contains, eq_cases, eq_of_ne, false, if◌then◌else◌, inl, inr,
  int_eq, map, nat_eq, refl, some, string_eq, subst, sym, true, ◌&&◌, ◌==◌, ◌||◌, ◌∙◌, ◌∷◌, ◌≡◌,
}
use kubewatch.Common.Int.{ℤ}
use kubewatch.Common.Result.{Result, Result-cases, err, ok}
use kubewatch.Cluster.{Cluster, Pg, find_all_active}
use kubewatch.Informer.{K8s, Registry, new_registry, start_system_workflow_informer}
use kubewatch.Informer.Events.{
  SecretEvent, build_informer_for_all_clusters, on_secret_events, start_cluster_informer,
  start_each,
}
use kubewatch.Informer.Events.Safety.{build-Inv, watch-Same}
use kubewatch.Informer.Events.Spec.{expected_all, reachable, runs_at}
use kubewatch.Informer.Events.Refinement.{Lawful, on_secret_events-expected}
use kubewatch.Informer.Events.Runs.{start_runs}

abbrev ids_of : List Cluster → List ℤ
ids_of models = map (λ c. c.id) models

-- One cluster of the loop, and the others behind it.
one_more :
    (own listed before : Bool) (id a : ℤ) (can : ℤ → Bool)
    → (id == a) ≡ own
    → ((if own then before || can id else before) || (listed && can a))
      ≡ (before || ((own || listed) && can a))
one_more false listed before id a can h = refl
one_more true listed before id a can h = elim (eq_cases id a) [
  | inl p ↦
      subst (λ x. ((before || can x) || (listed && can a)) ≡ (before || can a)) (sym p)
        (ground arith)
  | inr p ↦ cc (eq_of_ne id a p, h)
]

module _ (k8s : K8s) where
  abbrev listed_and_reachable : Pg → ℤ → Result (List Cluster) → Bool
  listed_and_reachable pg a (err e) = false
  listed_and_reachable pg a (ok models) = contains a (ids_of models) && reachable k8s pg a

  -- Whether a cluster has an informer after the start: it is one of the active clusters, and it
  -- could be reached.
  abbrev pub expected_built : Pg → ℤ → Bool
  expected_built pg a = listed_and_reachable pg a (find_all_active pg)

  start_each-runs_at :
      (pg : Pg) (models : List Cluster) (r : Registry) (a : ℤ)
      → runs_at (start_each k8s pg models r) a
        ≡ (runs_at r a || (contains a (ids_of models) && reachable k8s pg a))
  unfolding start_each
  start_each-runs_at pg [] r a = ground arith
  start_each-runs_at pg (model ∷ models) r a =
      let s = (start_system_workflow_informer k8s pg model.id r).1 in
      start_each-runs_at pg models s a
      ∙ rw (start_runs k8s pg model.id r a) (
          one_more (model.id == a) (contains a (ids_of models)) (runs_at r a) model.id a
            (reachable k8s pg) refl)

  build-runs_at :
      (pg : Pg) (a : ℤ)
      → runs_at (build_informer_for_all_clusters k8s pg new_registry).1 a ≡ expected_built pg a
  unfolding build_informer_for_all_clusters new_registry
  build-runs_at pg a =
      let watching = start_cluster_informer k8s new_registry in
      let none_runs : runs_at watching a ≡ false =
        rw (watch-Same k8s new_registry).same_stopper refl in
      elim (Result-cases (find_all_active pg)) [
        | inr (m, f) ↦ rw (build_informer_for_all_clusters, f) none_runs
        | inl (models, f) ↦
            rw (build_informer_for_all_clusters, f)
              (start_each-runs_at pg models watching a ∙ rw none_runs refl)
      ]

  -- Where the configuration of the default cluster was found (without one the start panics): after the
  -- start of all informers and any events of cluster secrets, with databases whose queries return
  -- rows that meet their conditions, nothing panicked, and a cluster has an informer just if
  -- the abstract view says so: at the start the active clusters that can be reached have one; an
  -- added cluster has one from then on if it is active and can be reached, an updated one just if it
  -- can still be reached, and a deleted one none. An event decides of its own cluster alone, and one
  -- that is not such a secret, or whose cluster the database does not have, of none.
  pub build-expected_all :
      (pg : Pg) (events : List SecretEvent)
      → All Lawful events
      → (s : Registry) × (on_secret_events k8s events
            (build_informer_for_all_clusters k8s pg new_registry).1
          ≡ some s)
        × ((a : ℤ) → runs_at s a ≡ expected_all k8s events a (expected_built pg a))
  build-expected_all pg events laws =
      let (s, run, v, after) = on_secret_events-expected k8s events laws (build-Inv k8s pg) in
      (s, run, λ a. after a ∙ ap (expected_all k8s events a) (build-runs_at pg a))
