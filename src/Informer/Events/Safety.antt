-- ===== src/Informer/Events/Safety.antt =====
-- Whatever the informer of cluster secrets reports, no channel is closed twice and no cluster has
-- two informers; the shutdown stops them all (pkg/informer/K8sInformer.go).
use kubewatch.Common.{
  Has, List, Option, Option-cases, [], arith, contains, false, inl, inr, int_eq, lookup, nat_eq,
  none, some, some_eq, string_eq, sym, ℕ, ◌∙◌, ◌∷◌, ◌≡◌,
}
use kubewatch.Common.Int.{ℤ}
use kubewatch.Common.Result.{Result-cases}
use kubewatch.Cluster.{Cluster, Pg, find_all_active, find_by_id, find_by_id_with_active_false}
use kubewatch.Informer.{
  GoError, K8s, Registry, errors_new, foreign, get_k8s_client_for_config,
  inc_un_unreachable_cluster, new_registry, start_system_workflow_informer,
}
use kubewatch.Informer.Events.{
  Secret, SecretEvent, added, after_change, build_informer_for_all_clusters, cluster_id_of, deleted,
  handle_cluster_change_event, handle_cluster_delete, handle_cluster_delete_event, is_other_error,
  on_secret_event, on_secret_events, other_object, second, secret_object, start_cluster_informer,
  start_each, sync_system_workflow_informer, updated,
}
use kubewatch.Informer.Events.Invariant.{
  Inv, SameChannels, SameChannels-Inv, new_registry-Inv, stop-Inv,
}
use kubewatch.Informer.Events.Start.{start-Inv}

-- The operation ends without a panic, in a registry with the invariant.
abbrev pub IsSafe : Option Registry → Type 0
IsSafe none = ⊥
IsSafe (some r) = Inv r

pub is_other_error-Same :
    (e : Option GoError) (r : Registry) → SameChannels r (is_other_error e r).1
unfolding is_other_error errors_new
is_other_error-Same none r = ground arith
is_other_error-Same (some e) r = ground arith

after_change-IsSafe :
    (e : Option GoError) (r : Registry) → Inv r → IsSafe (after_change (some (e, r)))
unfolding after_change
after_change-IsSafe e r v = SameChannels-Inv (is_other_error-Same e r) v

module _ (k8s : K8s) where
  sync-IsSafe :
      (pg pg' : Pg) (id : ℤ) {r : Registry}
      → Inv r
      → IsSafe (after_change (sync_system_workflow_informer k8s pg pg' id r))
  unfolding sync_system_workflow_informer
  sync-IsSafe pg pg' id {r} v = elim (Result-cases (find_by_id pg id)) [
    | inr (m, f) ↦
        rw (sync_system_workflow_informer, f) (after_change-IsSafe (some (foreign m)) r v)
    | inl (c, f) ↦
        let (r', stopped, v', gone) = stop-Inv c.id v in
        rw (sync_system_workflow_informer, f, stopped)
          (after_change-IsSafe (start_system_workflow_informer k8s pg' id r').0 _
            (start-Inv k8s pg' id v'))
  ]

  change-IsSafe :
      (pg pg' : Pg) (secret : Secret) {r : Registry}
      → Inv r
      → IsSafe (handle_cluster_change_event k8s pg pg' secret r)
  unfolding handle_cluster_change_event
  change-IsSafe pg pg' secret {r} v =
      let id = cluster_id_of secret in
      ground (
        arith,
        v,
        sync-IsSafe pg pg' id v,
        after_change-IsSafe (start_system_workflow_informer k8s pg id r).0
            (start_system_workflow_informer k8s pg id r).1 (start-Inv k8s pg id v),
      )

  delete_cluster-IsSafe :
      (pg : Pg) (id : ℤ) {r : Registry}
      → Inv r
      → IsSafe (second (handle_cluster_delete k8s pg id r))
  unfolding handle_cluster_delete
  delete_cluster-IsSafe pg id {r} v = elim (Result-cases (find_by_id_with_active_false pg id)) [
    | inr (m, f) ↦ rw (handle_cluster_delete, f) v
    | inl (c, f) ↦
        let (r', stopped, v', gone) = stop-Inv c.id v in rw (handle_cluster_delete, f, stopped) v'
  ]

  delete-IsSafe :
      (pg : Pg) (secret : Secret) {r : Registry}
      → Inv r
      → IsSafe (second (handle_cluster_delete_event k8s pg secret r))
  unfolding handle_cluster_delete_event
  delete-IsSafe pg secret {r} v =
      ground (arith, v, delete_cluster-IsSafe pg (cluster_id_of secret) v)

  event-IsSafe : (event : SecretEvent) {r : Registry} → Inv r → IsSafe (on_secret_event k8s event r)
  unfolding on_secret_event
  event-IsSafe (added pg pg' (secret_object s)) v = change-IsSafe pg pg' s v
  event-IsSafe (added pg pg' other_object) v = v
  event-IsSafe (updated pg pg' (secret_object s)) v = change-IsSafe pg pg' s v
  event-IsSafe (updated pg pg' other_object) v = v
  event-IsSafe (deleted pg (secret_object s)) v = delete-IsSafe pg s v
  event-IsSafe (deleted pg other_object) v = v

  pub events-IsSafe :
      (events : List SecretEvent) {r : Registry} → Inv r → IsSafe (on_secret_events k8s events r)
  unfolding on_secret_events
  events-IsSafe [] v = v
  events-IsSafe (event ∷ events) {r} v = elim (Option-cases (on_secret_event k8s event r)) [
    | inl e ↦ absurd (rw e at (event-IsSafe event v))
    | inr (s, e) ↦ rw (on_secret_events, e) (events-IsSafe events (rw e at (event-IsSafe event v)))
  ]

  start_each-Inv :
      (pg : Pg) (models : List Cluster) {r : Registry} → Inv r → Inv (start_each k8s pg models r)
  unfolding start_each
  start_each-Inv pg [] v = v
  start_each-Inv pg (model ∷ models) v = start_each-Inv pg models (start-Inv k8s pg model.id v)

  pub watch-Same : (r : Registry) → SameChannels r (start_cluster_informer k8s r)
  unfolding start_cluster_informer inc_un_unreachable_cluster
  watch-Same r = elim (Result-cases (get_k8s_client_for_config k8s k8s.default_k8s_config)) [
    | inl (c, f) ↦ rw (start_cluster_informer, f) (ground arith)
    | inr (m, f) ↦ rw (start_cluster_informer, f) (ground arith)
  ]

  pub build-Inv : (pg : Pg) → Inv (build_informer_for_all_clusters k8s pg new_registry).1
  unfolding build_informer_for_all_clusters
  build-Inv pg =
      let v = SameChannels-Inv (watch-Same new_registry) new_registry-Inv in
      elim (Result-cases (find_all_active pg)) [
        | inl (models, f) ↦ rw (build_informer_for_all_clusters, f) (start_each-Inv pg models v)
        | inr (m, f) ↦ rw (build_informer_for_all_clusters, f) v
      ]

  -- Where the configuration of the default cluster was found (without one the start panics): after the
  -- start of all informers and any events of cluster secrets, with any database at each query:
  -- nothing panicked, so no channel was closed twice, and of two informers of one cluster whose
  -- channels are open both are the same, the one that the map of stop channels has.
  pub one_informer :
      (pg : Pg) (events : List SecretEvent)
      → (r : Registry) × (on_secret_events k8s events
            (build_informer_for_all_clusters k8s pg new_registry).1
          ≡ some r)
        × ((id : ℤ) (a b : ℕ)
            → Has (id, a) r.started
            → Has (id, b) r.started
            → contains a r.closed ≡ false
            → contains b r.closed ≡ false
            → (a ≡ b) × (lookup id r.informer_stopper ≡ some a))
  one_informer pg events =
      elim (Option-cases
        (on_secret_events k8s events (build_informer_for_all_clusters k8s pg new_registry).1)) [
          | inl e ↦ absurd (rw e at (events-IsSafe events (build-Inv pg)))
          | inr (r, e) ↦
              let v : Inv r = rw e at (events-IsSafe events (build-Inv pg)) in
              (
                r,
                e,
                λ id a b h k c d.
                    let first = v.registered id h c in
                    (some_eq (sym first ∙ v.registered id k d), first),
              )
        ]
