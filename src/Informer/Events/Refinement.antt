-- ===== src/Informer/Events/Refinement.antt =====
-- The handlers of cluster secrets keep the promise of `Spec` (pkg/informer/K8sInformer.go).
use kubewatch.Common.{
  All, Bool, Bool-cases, List, Option, Option-cases, [], ap, if◌then◌else◌, inl, inr, int_eq,
  nat_eq, none, refl, some, string_eq, ◌==◌, ◌∙◌, ◌∷◌, ◌≡◌,
}
use kubewatch.Common.Int.{ℤ}
use kubewatch.Cluster.{Pg, PgLaws}
use kubewatch.Informer.{GoError, K8s, Registry, start_system_workflow_informer}
use kubewatch.Informer.Events.{
  Secret, SecretEvent, add_action, added, after_change, cluster_id_of,
  cluster_modify_event_secret_type, delete_action, deleted, handle_cluster_change_event,
  handle_cluster_delete_event, is_other_error, on_secret_event, on_secret_events, other_object,
  second, secret_object, text_at, update_action, updated,
}
use kubewatch.Informer.Events.Invariant.{Inv, SameChannels-Inv}
use kubewatch.Informer.Events.Start.{start-Inv}
use kubewatch.Informer.Events.Spec.{changed, expected, expected_all, removed, runs_at}
use kubewatch.Informer.Events.Safety.{is_other_error-Same}
use kubewatch.Informer.Events.Runs.{delete_runs, if_same, start_runs, sync_runs}

-- The laws of the databases that an event is given.
abbrev pub Lawful : SecretEvent → Type 0
Lawful (added pg pg' secret) = PgLaws pg
Lawful (updated pg pg' secret) = PgLaws pg
Lawful (deleted pg secret) = PgLaws pg

-- The operation ends without a panic, in a registry with the invariant where the clusters that have
-- an informer are those of the flags given.
abbrev pub Becomes : (ℤ → Bool) → Option Registry → Type 0
Becomes after none = ⊥
Becomes after (some r) = Inv r × ((a : ℤ) → runs_at r a ≡ after a)

module _ (k8s : K8s) where
  is_other_error_runs :
      (e : Option GoError) (r : Registry) (a : ℤ) → runs_at (is_other_error e r).1 a ≡ runs_at r a
  is_other_error_runs e r a = rw (is_other_error-Same e r).same_stopper refl

  after_change-Becomes :
      (e : Option GoError) (r : Registry) {after : ℤ → Bool}
      → Inv r
      → ((a : ℤ) → runs_at r a ≡ after a)
      → Becomes after (after_change (some (e, r)))
  unfolding after_change
  after_change-Becomes e r v h =
      (SameChannels-Inv (is_other_error-Same e r) v, λ a. is_other_error_runs e r a ∙ h a)

  change-Becomes :
      (pg pg' : Pg)
      → PgLaws pg
      → (secret : Secret) {r : Registry} → Inv r
      → Becomes
          (λ a.
            if cluster_id_of secret == a
            then changed k8s pg pg' secret (runs_at r a)
            else runs_at r a)
          (handle_cluster_change_event k8s pg pg' secret r)
  unfolding handle_cluster_change_event
  change-Becomes pg pg' laws secret {r} v =
      let id = cluster_id_of secret in
      let action = text_at "action" secret.content in
      elim (Bool-cases (secret.type == cluster_modify_event_secret_type)) [
        | inr p ↦ rw p (v, λ a. if_same (id == a) (runs_at r a))
        | inl p ↦ elim (Bool-cases (action == add_action)) [
          | inl q ↦
              rw (p, q)
                (after_change-Becomes (start_system_workflow_informer k8s pg id r).0
                  (start_system_workflow_informer k8s pg id r).1 (start-Inv k8s pg id v)
                  (start_runs k8s pg id r))
          | inr q ↦ elim (Bool-cases (action == update_action)) [
            | inr u ↦ rw (p, q, u) (v, λ a. if_same (id == a) (runs_at r a))
            | inl u ↦
                let (e, s, run, vs, after) = sync_runs k8s pg pg' laws id v in
                rw (p, q, u, run) (after_change-Becomes e s vs after)
          ]
        ]
      ]

  delete-Becomes :
      (pg : Pg)
      → PgLaws pg
      → (secret : Secret) {r : Registry} → Inv r
      → Becomes
          (λ a. if cluster_id_of secret == a then removed pg secret (runs_at r a) else runs_at r a)
          (second (handle_cluster_delete_event k8s pg secret r))
  unfolding handle_cluster_delete_event
  delete-Becomes pg laws secret {r} v =
      let id = cluster_id_of secret in
      let action = text_at "action" secret.content in
      elim (Bool-cases (secret.type == cluster_modify_event_secret_type)) [
        | inr p ↦ rw p (v, λ a. if_same (id == a) (runs_at r a))
        | inl p ↦ elim (Bool-cases (action == delete_action)) [
          | inr q ↦ rw (p, q) (v, λ a. if_same (id == a) (runs_at r a))
          | inl q ↦
              let (s, run, vs, after) = delete_runs k8s pg laws id v in rw (p, q, run) (vs, after)
        ]
      ]

  pub event-Becomes :
      (event : SecretEvent)
      → Lawful event
      → {r : Registry} → Inv r
      → Becomes (λ a. expected k8s event a (runs_at r a)) (on_secret_event k8s event r)
  unfolding on_secret_event
  event-Becomes (added pg pg' (secret_object s)) laws v = change-Becomes pg pg' laws s v
  event-Becomes (added pg pg' other_object) laws v = (v, λ a. refl)
  event-Becomes (updated pg pg' (secret_object s)) laws v = change-Becomes pg pg' laws s v
  event-Becomes (updated pg pg' other_object) laws v = (v, λ a. refl)
  event-Becomes (deleted pg (secret_object s)) laws v = delete-Becomes pg laws s v
  event-Becomes (deleted pg other_object) laws v = (v, λ a. refl)

  -- From a registry with the invariant, any events of cluster secrets, with databases whose queries
  -- return rows that meet their conditions, end without a panic in a registry with the invariant,
  -- and a cluster then has an informer just if the abstract events say so, of its own flag alone.
  pub on_secret_events-expected :
      (events : List SecretEvent)
      → All Lawful events
      → {r : Registry} → Inv r
      → (s : Registry) × (on_secret_events k8s events r ≡ some s)
        × Inv s
        × ((a : ℤ) → runs_at s a ≡ expected_all k8s events a (runs_at r a))
  unfolding on_secret_events
  on_secret_events-expected [] laws {r} v = (r, refl, v, λ a. refl)
  on_secret_events-expected (event ∷ events) (law, laws) {r} v =
      elim (Option-cases (on_secret_event k8s event r)) [
        | inl e ↦ absurd (rw e at (event-Becomes event law v))
        | inr (s, e) ↦
            let (vs, here_runs) = rw e at (event-Becomes event law v) in
            let (t, run, vt, after) = on_secret_events-expected events laws vs in
            (
              t,
              rw (on_secret_events, e) run,
              vt,
              λ a. after a ∙ ap (expected_all k8s events a) (here_runs a),
            )
      ]
