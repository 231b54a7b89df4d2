-- ===== src/Informer/Events/Spec.antt =====
-- What the informers promise, without channels: which clusters have an informer. An event decides
-- that of its own cluster, from what it was and what the database and the cluster answer
-- (pkg/informer/K8sInformer.go).
use kubewatch.Common.{
  Bool, List, Option, [], false, if◌then◌else◌, int_eq, lookup, nat_eq, none, not, some, string_eq,
  true, ◌==◌, ◌||◌, ◌∷◌,
}
use kubewatch.Common.Int.{ℤ}
use kubewatch.Common.Result.{Result, err, ok}
use kubewatch.Cluster.{Cluster, Pg, find_by_id, find_by_id_with_active_false}
use kubewatch.Informer.{K8s, Registry, get_k8s_client_for_cluster}
use kubewatch.Informer.Events.{
  Secret, SecretEvent, add_action, added, cluster_id_of, cluster_modify_event_secret_type,
  delete_action, deleted, secret_object, text_at, update_action, updated,
}

abbrev pub is_some : {A : Type 0} → Option A → Bool
is_some none = false
is_some (some a) = true

abbrev pub is_ok : {A : Type 0} → Result A → Bool
is_ok (ok a) = true
is_ok (err e) = false

-- Whether the map has an informer for a cluster.
abbrev pub runs_at : Registry → ℤ → Bool
runs_at r id = is_some (lookup id r.informer_stopper)

-- A deletion, for the cluster of the secret.
abbrev pub removed : Pg → Secret → Bool → Bool
removed pg secret before =
    let action = text_at "action" secret.content in
    let id = cluster_id_of secret in
    if not (secret.type == cluster_modify_event_secret_type)
    then before
    else if action == delete_action
    then if is_ok (find_by_id_with_active_false pg id) then false else before
    else before

module _ (k8s : K8s) where
  abbrev reaches : Result Cluster → Bool
  reaches (err e) = false
  reaches (ok cluster) = is_ok (get_k8s_client_for_cluster k8s cluster)

  -- The cluster is active and its client can be made.
  abbrev pub reachable : Pg → ℤ → Bool
  reachable pg id = reaches (find_by_id pg id)

  -- An addition or update, for the cluster of the secret.
  abbrev pub changed : Pg → Pg → Secret → Bool → Bool
  changed pg pg' secret before =
      let action = text_at "action" secret.content in
      let id = cluster_id_of secret in
      if not (secret.type == cluster_modify_event_secret_type)
      then before
      else if action == add_action
      then before || reachable pg id
      else if action == update_action
      then if is_ok (find_by_id pg id) then reachable pg' id else before
      else before

  -- Whether a cluster has an informer after an event.
  abbrev pub expected : SecretEvent → ℤ → Bool → Bool
  expected (added pg pg' (secret_object secret)) id before =
      if cluster_id_of secret == id then changed pg pg' secret before else before
  expected (updated pg pg' (secret_object secret)) id before =
      if cluster_id_of secret == id then changed pg pg' secret before else before
  expected (deleted pg (secret_object secret)) id before =
      if cluster_id_of secret == id then removed pg secret before else before
  expected _ id before = before

  abbrev pub expected_all : List SecretEvent → ℤ → Bool → Bool
  expected_all [] id before = before
  expected_all (event ∷ events) id before = expected_all events id (expected event id before)
