-- ===== src/Tests/RaceTests.antt =====
-- Runs and instances for stops at once (pkg/informer/K8sInformer.go).
use kubewatch.Common.{delete, insert, int_eq, lookup, nat_eq, none, refl, some, string_eq, ◌≡◌, ◌≢◌}
use kubewatch.Common.Int.{pos}
use kubewatch.Informer.{
  Registry, get_k8s_client_for_cluster, get_k8s_client_for_config, inc_un_unreachable_cluster,
  install, new_registry, note_connecting_error, start_found, start_system_workflow_informer,
  stop_system_workflow_informer,
}
use kubewatch.Informer.Race.Stops.{
  Reaches, TwoStops, both_at_lookup, by_left, by_right, left_step, panicked, right_step, stay,
  stopped,
}
use kubewatch.Informer.Race.Stops.Twice.{stops_panicked}
use kubewatch.Informer.Race.Stops.Safe.{IsShut, stops_safe}
use kubewatch.Tests.InformerTests.{built, pg, reach}
use kubewatch.Informer.Events.Safety.{build-Inv}
use kubewatch.Tests.SecretTests.{one_is_not_two}
use kubewatch.Informer.Events.{build_informer_for_all_clusters, start_cluster_informer, start_each}
use kubewatch.Cluster.{find_all_active, find_by_id}

one_there : lookup (pos 1) built.informer_stopper ≡ some 0
unfolding build_informer_for_all_clusters find_all_active start_cluster_informer start_each
    start_system_workflow_informer start_found note_connecting_error get_k8s_client_for_cluster
    get_k8s_client_for_config new_registry find_by_id install insert delete
    inc_un_unreachable_cluster
one_there = refl

stops_panicked_example :
    ((s : TwoStops) × Reaches (pos 1) (pos 1) (both_at_lookup built) s × (s.right ≡ panicked))
    × ((t : Registry) × (stop_system_workflow_informer (pos 1) built ≡ some t)
        × (stop_system_workflow_informer (pos 1) t ≡ some t))
stops_panicked_example = stops_panicked (pos 1) (build-Inv reach pg) one_there

abbrev halfway : TwoStops
halfway = right_step (pos 1) (pos 2) (left_step (pos 1) (pos 2) (both_at_lookup built))

stops_safe_example :
    (halfway.left ≢ panicked)
    × (halfway.right ≢ panicked)
    × (halfway.left ≡ stopped
        → halfway.right ≡ stopped
        → (lookup (pos 1) halfway.shared.informer_stopper ≡ none)
          × (lookup (pos 2) halfway.shared.informer_stopper ≡ none)
          × IsShut (lookup (pos 1) built.informer_stopper) halfway.shared
          × IsShut (lookup (pos 2) built.informer_stopper) halfway.shared)
stops_safe_example =
    stops_safe (pos 1) (pos 2) one_is_not_two (build-Inv reach pg) halfway (by_right (by_left stay))
