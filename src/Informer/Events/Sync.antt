-- ===== src/Informer/Events/Sync.antt =====
-- What an update of a cluster does to its informer, and which errors of a start are told apart
-- (pkg/informer/K8sInformer.go).
use kubewatch.Common.{
  Has, Option, Option-cases, String, ap, arith, contains, eq_self, here, inl, inr, int_eq, lookup,
  lookup-delete_self, lookup-insert_self, nat_eq, none, refl, some, sprint_int, string_eq, subst,
  sym, true, ℕ, ◌<◌, ◌∙◌, ◌≡◌,
}
use kubewatch.Common.Int.{ℤ}
use kubewatch.Common.Result.{Result-cases, err, ok}
use kubewatch.Cluster.{Cluster, Pg, PgLaws, find_by_id, find_by_id-id}
use kubewatch.Informer.{
  GoError, K8s, Registry, RestConfig, created, errors_new, foreign, get_k8s_client_for_cluster,
  inc_un_unreachable_cluster, informer_already_exist_message, install, note_connecting_error,
  start_found, start_system_workflow_informer, stop_system_workflow_informer,
}
use kubewatch.Informer.Events.{
  ClusterInfo, is_other_error, reach_config, return_other_error,
  start_system_workflow_informer_for_cluster, sync_system_workflow_informer,
}
use kubewatch.Informer.Events.Invariant.{Inv, SameChannels, retire, stop-absent, stop-retire}
use kubewatch.Informer.Events.Start.{
  SameChannels-trans, Started, errors_new-Same, exists, no_client, note-Same, runs,
  start_found-Started,
}

-- The old channel, if there was one, is closed.
abbrev pub IsClosedIn : Option ℕ → Registry → Type 0
IsClosedIn none s = Unit
IsClosedIn (some ch) s = contains ch s.closed ≡ true

note-unreachable :
    (cluster : Cluster) (r : Registry)
    → (note_connecting_error cluster r).next_channel ≡ r.next_channel
note-unreachable cluster r = (note-Same cluster r).same_next

-- The registry that a stop leaves, with what a later start needs of it.
stop-closes :
    (id : ℤ) {r : Registry}
    → Inv r
    → (s : Registry) × (stop_system_workflow_informer id r ≡ some s)
      × (lookup id s.informer_stopper ≡ none)
      × (s.next_channel ≡ r.next_channel)
      × IsClosedIn (lookup id r.informer_stopper) s
stop-closes id {r} v = elim (Option-cases (lookup id r.informer_stopper)) [
  | inl e ↦ (r, stop-absent id r e, e, refl, rw e tt)
  | inr (ch, e) ↦ (
    retire id ch r,
    stop-retire id r e (v.stopper_open id e),
    lookup-delete_self id r.informer_stopper,
    refl,
    rw e (rw (eq_self ch)),
  )
]

IsClosedIn-same :
    (o : Option ℕ) (s t : Registry) → t.closed ≡ s.closed → IsClosedIn o s → IsClosedIn o t
IsClosedIn-same none s t e h = tt
IsClosedIn-same (some ch) s t e h = rw e h

installed :
    (id : ℤ) (r : Registry) {n : ℕ}
    → r.next_channel ≡ n
    → lookup id (install id r).informer_stopper ≡ some n
unfolding install
installed id r e = lookup-insert_self id r.next_channel r.informer_stopper ∙ ap some e

-- An error that was made before the next one is.
abbrev IsKnown : Option GoError → Registry → Type 0
IsKnown (some (created a m)) r = a < r.next_error
IsKnown _ r = Unit

kept : (e : Option GoError) (r : Registry) → IsKnown e r → (return_other_error e r).0 ≡ e
unfolding return_other_error is_other_error errors_new
kept none r h = refl
kept (some (foreign m)) r h = refl
kept (some (created a m)) r h = ground arith

module _ (k8s : K8s) where
  Started-IsKnown :
      {c : Cluster} {id : ℤ} {r : Registry} {after : Option GoError × Registry}
      → Started k8s c id r after
      → IsKnown after.0 after.1
  unfolding errors_new
  Started-IsKnown (exists e) = omega arith
  Started-IsKnown (no_client e f) = tt
  Started-IsKnown (runs e f) = tt

  start-IsKnown :
      (pg : Pg) (id : ℤ) (r : Registry)
      → let (e, s) = start_system_workflow_informer k8s pg id r in IsKnown e s
  unfolding start_system_workflow_informer
  start-IsKnown pg id r = elim (Result-cases (find_by_id pg id)) [
    | inr (m, f) ↦ rw (start_system_workflow_informer, f) tt
    | inl (c, f) ↦
        rw (start_system_workflow_informer, f) (Started-IsKnown (start_found-Started k8s c id r))
  ]

  sync_found :
      (pg pg' : Pg) (id : ℤ) (r s : Registry) {c : Cluster}
      → find_by_id pg id ≡ ok c
      → stop_system_workflow_informer c.id r ≡ some s
      → sync_system_workflow_informer k8s pg pg' id r
        ≡ some (start_system_workflow_informer k8s pg' id s)
  unfolding sync_system_workflow_informer
  sync_found pg pg' id r s f e = rw (sync_system_workflow_informer, f, e)

  -- A start where the map has no informer for the cluster.
  start_free :
      (pg : Pg) (id : ℤ) (r : Registry) {c : Cluster}
      → find_by_id pg id ≡ ok c
      → lookup id r.informer_stopper ≡ none
      → ((client : k8s.Clientset)
          → get_k8s_client_for_cluster k8s c ≡ ok client
          → start_system_workflow_informer k8s pg id r
            ≡ (none, install id (note_connecting_error c r)))
        × ((m : String)
            → get_k8s_client_for_cluster k8s c ≡ err m
            → start_system_workflow_informer k8s pg id r ≡ (
              some (foreign m),
              inc_un_unreachable_cluster c.cluster_name
                  (sprint_int c.id)
                  (note_connecting_error c r),
            ))
  unfolding start_system_workflow_informer start_found
  start_free pg id r {c} f e =
      let same : lookup id (note_connecting_error c r).informer_stopper ≡ none =
        rw (note-Same c r).same_stopper e in
      (
        λ client g. rw (start_system_workflow_informer, f, start_found, same, g),
        λ m g. rw (start_system_workflow_informer, f, start_found, same, g),
      )

  -- An update of a cluster that is active, before and after its old informer is stopped, closes the
  -- channel of that informer. If the cluster can then be reached, it has a new informer with a
  -- channel made for it, and no error is returned; if not, it is left with no informer, the error
  -- of the client is returned, and the cluster is counted as unreachable.
  pub sync_lem :
      (pg pg' : Pg)
      → PgLaws pg
      → (id : ℤ) {r : Registry} → Inv r
      → {c c' : Cluster} → find_by_id pg id ≡ ok c
      → find_by_id pg' id ≡ ok c'
      → (e : Option GoError) × (s : Registry) × (sync_system_workflow_informer k8s pg pg' id r
          ≡ some (e, s))
        × IsClosedIn (lookup id r.informer_stopper) s
        × ((client : k8s.Clientset)
            → get_k8s_client_for_cluster k8s c' ≡ ok client
            → (e ≡ none) × (lookup id s.informer_stopper ≡ some r.next_channel))
        × ((m : String)
            → get_k8s_client_for_cluster k8s c' ≡ err m
            → (e ≡ some (foreign m))
              × (lookup id s.informer_stopper ≡ none)
              × Has (c'.cluster_name, sprint_int c'.id) s.unreachable)
  sync_lem pg pg' laws id {r} v {c} {c'} f f' =
      let (s, stopped, absent, next, closes) = stop-closes id v in
      let run : sync_system_workflow_informer k8s pg pg' id r
          ≡ some (start_system_workflow_informer k8s pg' id s) =
        sync_found pg pg' id r s f (
          subst (λ i. stop_system_workflow_informer i r ≡ some s) (sym (find_by_id-id laws id f).0)
            stopped) in
      let noted = note_connecting_error c' s in
      let same = note-Same c' s in
      elim (Result-cases (get_k8s_client_for_cluster k8s c')) [
        | inl (client, g) ↦ (
          none,
          install id noted,
          run ∙ ap some ((start_free pg' id s f' absent).0 client g),
          IsClosedIn-same (lookup id r.informer_stopper) s (install id noted)
              (unfold install in same.same_closed) closes,
          λ k h. (refl, installed id noted (same.same_next ∙ next)),
          λ m h. cc (g, h),
        )
        | inr (m, g) ↦
            let counted = inc_un_unreachable_cluster c'.cluster_name (sprint_int c'.id) noted in
            (
              some (foreign m),
              counted,
              run ∙ ap some ((start_free pg' id s f' absent).1 m g),
              IsClosedIn-same (lookup id r.informer_stopper) s counted
                  (unfold inc_un_unreachable_cluster in same.same_closed) closes,
              λ k h. cc (g, h),
              λ k h. (
                cc (g, h),
                unfold inc_un_unreachable_cluster in rw same.same_stopper absent,
                unfold inc_un_unreachable_cluster in here refl,
              ),
            )
      ]

  -- `startSystemWorkflowInformerForCluster` returns the error of the start as it is, also where it
  -- says that the informer exists already: the comparison with a new error never finds it.
  pub start_for_cluster_error :
      (pg : Pg) (info : ClusterInfo) (r : Registry) {config : RestConfig}
      → reach_config k8s info ≡ ok config
      → (start_system_workflow_informer_for_cluster k8s pg info r).0
        ≡ (start_system_workflow_informer k8s pg info.cluster_id r).0
  unfolding start_system_workflow_informer_for_cluster
  start_for_cluster_error pg info r f =
      rw (start_system_workflow_informer_for_cluster, f)
        (kept (start_system_workflow_informer k8s pg info.cluster_id r).0
          (start_system_workflow_informer k8s pg info.cluster_id r).1
          (start-IsKnown pg info.cluster_id r))

  -- Where the map has an informer for an active cluster, another start fails with the message that
  -- it exists, and starts, stops and closes nothing.
  pub start_twice :
      (pg : Pg) (id : ℤ) (r : Registry) {c : Cluster} {ch : ℕ}
      → find_by_id pg id ≡ ok c
      → lookup id r.informer_stopper ≡ some ch
      → ((address : ℕ) × ((start_system_workflow_informer k8s pg id r).0
            ≡ some (created address informer_already_exist_message)))
        × SameChannels r (start_system_workflow_informer k8s pg id r).1
  unfolding start_system_workflow_informer start_found errors_new
  start_twice pg id r {c} {ch} f e =
      let noted = note_connecting_error c r in
      let same : lookup id noted.informer_stopper ≡ some ch = rw (note-Same c r).same_stopper e in
      (
        (noted.next_error, rw (start_system_workflow_informer, f, start_found, same, errors_new)),
        rw (start_system_workflow_informer, f, start_found, same)
            (SameChannels-trans (note-Same c r)
              (errors_new-Same informer_already_exist_message noted)),
      )
