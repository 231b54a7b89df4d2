-- ===== src/Informer/Events/Start.antt =====
-- What the start of an informer does to the registry (pkg/informer/K8sInformer.go).
use kubewatch.Common.{
  Bool-cases, Option, Option-cases, String, arith, inl, inr, int_eq, lookup, nat_eq, none, some,
  sprint_int, string_eq, ℕ, ◌==◌, ◌∙◌, ◌≡◌,
}
use kubewatch.Common.Int.{ℤ}
use kubewatch.Common.Result.{Result-cases, err, ok}
use kubewatch.Cluster.{Cluster, Pg, find_by_id}
use kubewatch.Informer.{
  GoError, K8s, Registry, errors_new, foreign, get_k8s_client_for_cluster,
  inc_un_unreachable_cluster, informer_already_exist_message, install, note_connecting_error,
  start_found, start_system_workflow_informer,
}
use kubewatch.Informer.Events.Invariant.{Inv, SameChannels, SameChannels-Inv, install-Inv}

pub errors_new-Same : (message : String) (r : Registry) → SameChannels r (errors_new message r).1
unfolding errors_new
errors_new-Same message r = ground arith

pub SameChannels-trans : {r s t : Registry} → SameChannels r s → SameChannels s t → SameChannels r t
SameChannels-trans p q = record {
  same_stopper = q.same_stopper ∙ p.same_stopper;
  same_next = q.same_next ∙ p.same_next;
  same_closed = q.same_closed ∙ p.same_closed;
  same_started = q.same_started ∙ p.same_started;
}

pub inc-Same :
    (name id : String) (r : Registry) → SameChannels r (inc_un_unreachable_cluster name id r)
unfolding inc_un_unreachable_cluster
inc-Same name id r = ground arith

pub note-Same :
    (cluster : Cluster) (r : Registry) → SameChannels r (note_connecting_error cluster r)
unfolding note_connecting_error
note-Same cluster r = elim (Bool-cases (cluster.error_in_connecting == "")) [
  | inl e ↦ rw e (ground arith)
  | inr e ↦ rw e (inc-Same _ _ r)
]

module _ (k8s : K8s) where
  -- What `startSystemWorkflowInformer` does with a cluster that is found: it fails with the message
  -- that the informer exists, it fails as the client does, or it installs the informer.
  pub data Started (cluster : Cluster) (id : ℤ) (r : Registry)
      : Option GoError × Registry → Type 0 where
    exists :
        {ch : ℕ}
        → lookup id r.informer_stopper ≡ some ch
        → Started cluster id r
            (let (e, s) = errors_new informer_already_exist_message r in (some e, s))
    no_client :
        {e : String}
        → lookup id r.informer_stopper ≡ none
        → get_k8s_client_for_cluster k8s cluster ≡ err e
        → Started cluster id r (
          some (foreign e),
          inc_un_unreachable_cluster cluster.cluster_name (sprint_int cluster.id) r,
        )
    runs :
        {c : k8s.Clientset}
        → lookup id r.informer_stopper ≡ none
        → get_k8s_client_for_cluster k8s cluster ≡ ok c
        → Started cluster id r (none, install id r)

  pub start_found-Started :
      (cluster : Cluster) (id : ℤ) (r : Registry)
      → Started cluster id (note_connecting_error cluster r) (start_found k8s cluster id r)
  unfolding start_found
  start_found-Started cluster id r =
      let s = note_connecting_error cluster r in
      elim (Option-cases (lookup id s.informer_stopper)) [
        | inr (ch, e) ↦ rw (start_found, e) (exists e)
        | inl e ↦ elim (Result-cases (get_k8s_client_for_cluster k8s cluster)) [
          | inl (c, f) ↦ rw (start_found, e, f) (runs e f)
          | inr (m, f) ↦ rw (start_found, e, f) (no_client e f)
        ]
      ]

  Started-Inv :
      {cluster : Cluster} {id : ℤ} {r : Registry} {after : Option GoError × Registry}
      → Started cluster id r after
      → Inv r
      → Inv after.1
  Started-Inv {r} (exists e) v = SameChannels-Inv (errors_new-Same _ r) v
  Started-Inv {r} (no_client e f) v = SameChannels-Inv (inc-Same _ _ r) v
  Started-Inv (runs e f) v = install-Inv _ e v

  pub start-Inv :
      (pg : Pg) (id : ℤ) {r : Registry} → Inv r → Inv (start_system_workflow_informer k8s pg id r).1
  unfolding start_system_workflow_informer
  start-Inv pg id {r} v = elim (Result-cases (find_by_id pg id)) [
    | inl (c, f) ↦
        rw (start_system_workflow_informer, f)
          (Started-Inv (start_found-Started c id r) (SameChannels-Inv (note-Same c r) v))
    | inr (m, f) ↦ rw (start_system_workflow_informer, f) v
  ]
