-- ===== src/Tests/SecretTests.antt =====
-- Instances for the events of cluster secrets and the race of two starts
-- (pkg/informer/K8sInformer.go).
use kubewatch.Common.{
  Has, [], contains, false, int_eq, lookup, nat_eq, none, refl, some, string_eq, suc, true, ℕ, ◌∷◌,
  ◌≡◌, ◌≢◌,
}
use kubewatch.Common.Int.{pos, ℤ}
use kubewatch.Common.Result.{ok}
use kubewatch.Common.Strconv.{atoi, parse_uint, positive, scan}
use kubewatch.Cluster.{find_by_id}
use kubewatch.Informer.{
  Registry, get_k8s_client_for_cluster, get_k8s_client_for_config, new_registry,
  stop_all_system_workflow_informer, stop_system_workflow_informer,
}
use kubewatch.Informer.Events.{
  Secret, add_action, added, cluster_id_of, cluster_modify_event_secret_type, on_secret_event,
  on_secret_events, secret_object,
}
use kubewatch.Informer.Events.Invariant.{Inv, new_registry-Inv}
use kubewatch.Informer.Events.Safety.{build-Inv}
use kubewatch.Informer.Events.Spec.{expected_all, reachable, runs_at}
use kubewatch.Informer.Events.Service.{build-expected_all, expected_built}
use kubewatch.Informer.Events.Restart.{stop_all-added}
use kubewatch.Informer.Race.{Both, both_waiting, ended, take_turns}
use kubewatch.Informer.Race.Same.{interleaved, take_turns-interleaved}
use kubewatch.Informer.Race.Apart.{take_turns-Inv}
use kubewatch.Tests.InformerTests.{
  Has-backwards, backwards, built, cluster_at, events, pg, pg-PgLaws, reach,
}

build-expected_all_example :
    (s : Registry) × (on_secret_events reach events built ≡ some s)
    × ((a : ℤ) → runs_at s a ≡ expected_all reach events a (expected_built reach pg a))
build-expected_all_example = build-expected_all reach pg events (pg-PgLaws, (pg-PgLaws, tt))

abbrev added_secret : Secret
added_secret = record {
  type = cluster_modify_event_secret_type;
  content = ("cluster_id", "1") ∷ ("action", add_action) ∷ [];
}

added_id : cluster_id_of added_secret ≡ pos 1
unfolding cluster_id_of atoi parse_uint scan positive
added_id = refl

added_reachable : reachable reach pg (cluster_id_of added_secret) ≡ true
unfolding cluster_id_of atoi parse_uint scan positive find_by_id get_k8s_client_for_cluster
    get_k8s_client_for_config
added_reachable = refl

stop_all-added_example :
    (s : Registry) × (stop_all_system_workflow_informer backwards built ≡ some s)
    × ((id : ℤ) → lookup id s.informer_stopper ≡ none)
    × (s.watching ≡ built.watching)
    × (t : Registry) × (on_secret_event reach (added pg pg (secret_object added_secret)) s ≡ some t)
    × (ch : ℕ) × (lookup (cluster_id_of added_secret) t.informer_stopper ≡ some ch)
    × (contains ch t.closed ≡ false)
stop_all-added_example =
    stop_all-added reach backwards Has-backwards (build-Inv reach pg) pg pg pg-PgLaws added_secret
      refl refl added_reachable

client_there : get_k8s_client_for_cluster reach (cluster_at (pos 1) true) ≡ ok 7
unfolding get_k8s_client_for_cluster get_k8s_client_for_config
client_there = refl

none_yet : lookup (pos 1) new_registry.informer_stopper ≡ none
unfolding new_registry
none_yet = refl

abbrev raced : Both
raced =
    take_turns reach (cluster_at (pos 1) true) (pos 1) (cluster_at (pos 1) true) (pos 1) interleaved
      (both_waiting new_registry)

take_turns-interleaved_example :
    (raced.left ≡ ended none)
    × (raced.right ≡ ended none)
    × Has (pos 1, new_registry.next_channel) raced.shared.started
    × (lookup (pos 1) raced.shared.informer_stopper ≡ some (suc new_registry.next_channel))
    × (u : Registry) × (stop_system_workflow_informer (pos 1) raced.shared ≡ some u)
    × (lookup (pos 1) u.informer_stopper ≡ none)
    × Has (pos 1, new_registry.next_channel) u.started
    × (contains new_registry.next_channel u.closed ≡ false)
take_turns-interleaved_example =
    take_turns-interleaved reach (cluster_at (pos 1) true) (pos 1) new_registry-Inv none_yet
      client_there

pub one_is_not_two : pos 1 ≢ pos 2
one_is_not_two = λ p. cc

take_turns-Inv_example :
    Inv
      (take_turns reach
        (cluster_at (pos 1) true)
        (pos 1)
        (cluster_at (pos 2) true)
        (pos 2)
        interleaved
        (both_waiting new_registry)).shared
take_turns-Inv_example =
    take_turns-Inv reach (cluster_at (pos 1) true) (cluster_at (pos 2) true) (pos 1) (pos 2)
      one_is_not_two interleaved (both_waiting new_registry) new_registry-Inv tt tt
