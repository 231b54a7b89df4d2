-- ===== src/Informer/Events/Restart.antt =====
-- The informer of cluster secrets after the shutdown (pkg/informer/K8sInformer.go).
use kubewatch.Common.{
  Bool, Has, List, Option-cases, arith, contains, eq_self, false, inl, inr, int_eq, lookup, nat_eq,
  none, some, string_eq, subst, true, ℕ, ◌==◌, ◌∙◌, ◌≡◌,
}
use kubewatch.Common.Int.{ℤ}
use kubewatch.Cluster.{Pg, PgLaws}
use kubewatch.Informer.{K8s, Registry, stop_all_system_workflow_informer}
use kubewatch.Informer.Events.{
  Secret, add_action, added, cluster_id_of, cluster_modify_event_secret_type, on_secret_event,
  secret_object, text_at,
}
use kubewatch.Informer.Events.Invariant.{Inv}
use kubewatch.Informer.Events.Shutdown.{stop_all-Inv, stop_all_lem}
use kubewatch.Informer.Events.Spec.{expected, reachable, runs_at}
use kubewatch.Informer.Events.Refinement.{event-Becomes}

-- A cluster that has an informer has it with a channel.
runs_channel :
    (id : ℤ) (r : Registry)
    → runs_at r id ≡ true
    → (ch : ℕ) × (lookup id r.informer_stopper ≡ some ch)
runs_channel id r h = elim (Option-cases (lookup id r.informer_stopper)) [
  | inl e ↦ cc (rw e at h)
  | inr (ch, e) ↦ (ch, e)
]

module _ (k8s : K8s) where
  -- The flag of the cluster of an added secret.
  added_expected :
      (pg pg' : Pg) (secret : Secret) (before : Bool)
      → secret.type ≡ cluster_modify_event_secret_type
      → text_at "action" secret.content ≡ add_action
      → reachable k8s pg (cluster_id_of secret) ≡ true
      → expected k8s (added pg pg' (secret_object secret)) (cluster_id_of secret) before ≡ true
  added_expected pg pg' secret before t a h =
      let typed : (secret.type == cluster_modify_event_secret_type) ≡ true =
        subst (λ x. (secret.type == x) ≡ true) t (eq_self secret.type) in
      let action = text_at "action" secret.content in
      let adds : (action == add_action) ≡ true =
        subst (λ x. (action == x) ≡ true) a (eq_self action) in
      rw (eq_self (cluster_id_of secret), typed, adds, h) (ground arith)

  -- From a registry with the invariant, and in any order that leaves no key out, the shutdown leaves
  -- no informer of a cluster in the map, but if the informer of cluster secrets runs, it runs on: a
  -- secret that is then added for an active cluster that can be reached, with a database whose rows
  -- meet the conditions of its queries, starts an informer of that cluster, with a channel that is
  -- open.
  pub stop_all-added :
      (key_order : List ℤ → List ℤ)
      → ((ids : List ℤ) (id : ℤ) → Has id ids → Has id (key_order ids))
      → {r : Registry} → Inv r
      → (pg pg' : Pg) → PgLaws pg
      → (secret : Secret) → secret.type ≡ cluster_modify_event_secret_type
      → text_at "action" secret.content ≡ add_action
      → reachable k8s pg (cluster_id_of secret) ≡ true
      → (s : Registry) × (stop_all_system_workflow_informer key_order r ≡ some s)
        × ((id : ℤ) → lookup id s.informer_stopper ≡ none)
        × (s.watching ≡ r.watching)
        × (t : Registry) × (on_secret_event k8s (added pg pg' (secret_object secret)) s ≡ some t)
        × (ch : ℕ) × (lookup (cluster_id_of secret) t.informer_stopper ≡ some ch)
        × (contains ch t.closed ≡ false)
  stop_all-added key_order complete {r} v pg pg' laws secret type action can =
      let (s, stops, same, closed, empty, watching) = stop_all_lem key_order complete v in
      let event = added pg pg' (secret_object secret) in
      let id = cluster_id_of secret in
      let own = event-Becomes k8s event laws (stop_all-Inv key_order v stops) in
      elim (Option-cases (on_secret_event k8s event s)) [
        | inl e ↦ absurd (rw e at own)
        | inr (t, e) ↦
            let (vt, flags) = rw e at own in
            let (ch, has) =
              runs_channel id t
                (flags id ∙ added_expected pg pg' secret (runs_at s id) type action can) in
            (s, stops, empty, watching, t, e, ch, has, vt.stopper_open id has)
      ]
