-- ===== src/Informer/Events/Runs.antt =====
-- Which clusters have an informer after each operation (pkg/informer/K8sInformer.go).
use kubewatch.Common.{
  Bool, Option, Option-cases, arith, eq_cases, eq_of_ne, eq_self, false, if◌then◌else◌, inl, inr,
  int_eq, lookup, lookup-delete_ne, lookup-delete_self, lookup-insert_ne, lookup-insert_self,
  nat_eq, refl, some, string_eq, subst, sym, true, ◌==◌, ◌||◌, ◌∙◌, ◌≡◌, ◌≢◌,
}
use kubewatch.Common.Int.{ℤ}
use kubewatch.Cluster.{
  Cluster, Pg, PgLaws, find_by_id, find_by_id-id, find_by_id_with_active_false, find_inactive-id,
}
use kubewatch.Informer.{
  GoError, K8s, Registry, errors_new, foreign, get_k8s_client_for_cluster,
  inc_un_unreachable_cluster, install, note_connecting_error, start_system_workflow_informer,
  stop_system_workflow_informer,
}
use kubewatch.Informer.Events.{handle_cluster_delete, second, sync_system_workflow_informer}
use kubewatch.Informer.Events.Invariant.{Inv, retire, retire-Inv, stop-absent, stop-retire}
use kubewatch.Informer.Events.Start.{
  Started, exists, no_client, note-Same, runs, start-Inv, start_found-Started,
}
use kubewatch.Informer.Events.Spec.{is_ok, reachable, runs_at}
use kubewatch.Common.Result.{Result-cases}

pub if_same : {A : Type 0} (b : Bool) (x : A) → x ≡ (if b then x else x)
if_same true x = refl
if_same false x = refl

-- A change of one cluster, put together from that cluster and the others.
by_cluster :
    (id : ℤ) (after own before : ℤ → Bool)
    → after id ≡ own id
    → ((a : ℤ) → id ≢ a → after a ≡ before a)
    → (a : ℤ) → after a ≡ (if id == a then own a else before a)
by_cluster id after own before here_same others a = elim (eq_cases id a) [
  | inl p ↦
      subst (λ x. after x ≡ (if id == x then own x else before x)) p (rw (eq_self id) here_same)
  | inr p ↦ rw (eq_of_ne id a p) (others a p)
]

-- After a stop, the cluster has no informer, and the others have what they had.
stop_runs :
    (id : ℤ) {r : Registry}
    → Inv r
    → (s : Registry) × (stop_system_workflow_informer id r ≡ some s)
      × Inv s
      × ((a : ℤ) → runs_at s a ≡ (if id == a then false else runs_at r a))
stop_runs id {r} v = elim (Option-cases (lookup id r.informer_stopper)) [
  | inl e ↦ (
    r,
    stop-absent id r e,
    v,
    by_cluster id (runs_at r) (λ a. false) (runs_at r) (rw e refl) (λ a p. refl),
  )
  | inr (ch, e) ↦ (
    retire id ch r,
    stop-retire id r e (v.stopper_open id e),
    retire-Inv id ch e v,
    by_cluster id (runs_at (retire id ch r)) (λ a. false) (runs_at r)
        (rw (lookup-delete_self id r.informer_stopper) refl)
        (λ a p. rw (lookup-delete_ne id a r.informer_stopper p) refl),
  )
]

module _ (k8s : K8s) where
  Started-runs_at :
      {cluster : Cluster} {id : ℤ} {r : Registry} {after : Option GoError × Registry}
      → Started k8s cluster id r after
      → (a : ℤ)
      → runs_at after.1 a ≡ (
          if id == a
          then runs_at r a || is_ok (get_k8s_client_for_cluster k8s cluster)
          else runs_at r a)
  unfolding errors_new inc_un_unreachable_cluster install
  Started-runs_at {cluster} {id} {r} (exists e) =
      by_cluster id (runs_at r) (λ a. runs_at r a || is_ok (get_k8s_client_for_cluster k8s cluster))
        (runs_at r) (rw e refl) (λ a p. refl)
  Started-runs_at {cluster} {id} {r} (no_client e f) =
      by_cluster id (runs_at r) (λ a. runs_at r a || is_ok (get_k8s_client_for_cluster k8s cluster))
        (runs_at r) (rw (e, f) refl) (λ a p. refl)
  Started-runs_at {cluster} {id} {r} (runs e f) =
      by_cluster id (runs_at (install id r))
        (λ a. runs_at r a || is_ok (get_k8s_client_for_cluster k8s cluster)) (runs_at r)
        (rw (e, f, lookup-insert_self id r.next_channel r.informer_stopper) refl)
        (λ a p. rw (lookup-insert_ne id a r.next_channel r.informer_stopper p) refl)

  note_runs :
      (cluster : Cluster) (r : Registry) (a : ℤ)
      → runs_at (note_connecting_error cluster r) a ≡ runs_at r a
  note_runs cluster r a = rw (note-Same cluster r).same_stopper refl

  pub start_runs :
      (pg : Pg) (id : ℤ) (r : Registry) (a : ℤ)
      → runs_at (start_system_workflow_informer k8s pg id r).1 a
        ≡ (if id == a then runs_at r a || reachable k8s pg id else runs_at r a)
  unfolding start_system_workflow_informer
  start_runs pg id r a = elim (Result-cases (find_by_id pg id)) [
    | inr (m, f) ↦
        rw (start_system_workflow_informer, f)
          (by_cluster id (runs_at r) (λ a. runs_at r a || false) (runs_at r) (ground arith)
            (λ a p. refl) a)
    | inl (c, f) ↦
        let own = Started-runs_at (start_found-Started k8s c id r) a in
        rw (start_system_workflow_informer, f) (rw (note_runs c r a) at own)
  ]

  -- An update, if it finds the cluster, ends with an informer where the cluster is reachable.
  pub sync_runs :
      (pg pg' : Pg)
      → PgLaws pg
      → (id : ℤ) {r : Registry} → Inv r
      → (e : Option GoError) × (s : Registry) × (sync_system_workflow_informer k8s pg pg' id r
          ≡ some (e, s))
        × Inv s
        × ((a : ℤ)
            → runs_at s a ≡ (
                if id == a
                then if is_ok (find_by_id pg id) then reachable k8s pg' id else runs_at r a
                else runs_at r a))
  unfolding sync_system_workflow_informer
  sync_runs pg pg' laws id {r} v = elim (Result-cases (find_by_id pg id)) [
    | inr (m, f) ↦ (
      some (foreign m),
      r,
      rw (sync_system_workflow_informer, f) refl,
      v,
      λ a. rw f (if_same (id == a) (runs_at r a)),
    )
    | inl (c, f) ↦
        let (s, stopped, vs, before) = stop_runs id v in
        let own =
          subst (λ i. stop_system_workflow_informer i r ≡ some s) (sym (find_by_id-id laws id f).0)
            stopped in
        (
          (start_system_workflow_informer k8s pg' id s).0,
          (start_system_workflow_informer k8s pg' id s).1,
          rw (sync_system_workflow_informer, f, own) refl,
          start-Inv k8s pg' id vs,
          λ a. start_runs pg' id s a ∙ rw (f, before a) (ground arith),
        )
  ]

  -- A deletion, if it finds the inactive cluster, ends with no informer of it.
  pub delete_runs :
      (pg : Pg)
      → PgLaws pg
      → (id : ℤ) {r : Registry} → Inv r
      → (s : Registry) × (second (handle_cluster_delete k8s pg id r) ≡ some s)
        × Inv s
        × ((a : ℤ)
            → runs_at s a ≡ (
                if id == a
                then if is_ok (find_by_id_with_active_false pg id) then false else runs_at r a
                else runs_at r a))
  unfolding handle_cluster_delete
  delete_runs pg laws id {r} v = elim (Result-cases (find_by_id_with_active_false pg id)) [
    | inr (m, f) ↦
        (r, rw (handle_cluster_delete, f) refl, v, λ a. rw f (if_same (id == a) (runs_at r a)))
    | inl (c, f) ↦
        let (s, stopped, vs, before) = stop_runs id v in
        let own =
          subst (λ i. stop_system_workflow_informer i r ≡ some s)
            (sym (find_inactive-id laws id f).0) stopped in
        (s, rw (handle_cluster_delete, f, own) refl, vs, λ a. rw f (before a))
  ]
