-- ===== src/Tests/AppTests.antt =====
-- A run of the server (main.go, App.go).
use kubewatch.Common.{List, [], false, length, none, refl, some, true, ℕ, ◌+◌, ◌∷◌, ◌≡◌, ◌≤◌, ◌⊎◌}
use kubewatch.Common.Result.{ok}
use kubewatch.Informer.{new_registry}
use kubewatch.Watch.{
  ExternalConfig, Running, Surroundings, start, start_acd, start_cd, waiting, workflow_informer,
}
use kubewatch.App.{
  App, Closing, ClusterConfig, build_informer, cluster_type_all,
  get_pub_sub_client_for_internal_config, is_cluster_type_all_and_is_internal_config, on_events,
  start_app, stop_app,
}
use kubewatch.Logger.{level_of, new_sugared_logger, new_sugared_logger-level}
use kubewatch.Common.Int.{negsuc, pos, ℤ}
use kubewatch.Common.Wrap.{IsWithin, wrap}
use kubewatch.App.Wiring.{
  Parsed, initialize_app, initialize_logged, logger_at, main, main_with, new_app, timeout_of,
}
use kubewatch.App.Whole.{StartedWith, stop_app-main}
use kubewatch.App.Lifetime.{AllStopped}
use kubewatch.Tests.InformerTests.{Has-backwards, backwards, events, pg, reach}
use kubewatch.Informer.Events.{build_informer_for_all_clusters}
use kubewatch.Pod.Workflow.{cd_workflow_status_update, workflow_status_update_topic}
use kubewatch.App.Handshake.{After, Server, Step, at_signal, at_start, live}
use kubewatch.App.Handshake.Whole.{EndsWell, server_ends-main}

abbrev all_clusters : ClusterConfig
all_clusters = record { cluster_type = cluster_type_all }

abbrev inside : ExternalConfig
inside = record { external = false; token = ""; listener_url = ""; namespace = "" }

abbrev up : App
up = record {
  k8s_informer = some (build_informer_for_all_clusters reach pg new_registry).1;
  db_open = true;
  server_open = true;
}

-- The shutdown of the HTTP server runs into its timeout.
abbrev late : Closing
late = record { shutdown_error = some "context deadline exceeded"; close_error = none }

abbrev parsed : Parsed
parsed = record {
  log_level = ok (negsuc 0);
  build_logger = λ level. ok (logger_at level);
  cluster = ok all_clusters;
  external = ok inside;
  sleep_timeout = ok (pos 5);
}

comes_up : main reach none none (ok pg) parsed ≡ some up
unfolding main main_with initialize_app initialize_logged new_app new_sugared_logger level_of wrap
    start_app is_cluster_type_all_and_is_internal_config build_informer
    get_pub_sub_client_for_internal_config
comes_up = refl

five_seconds : timeout_of (pos 5) ≡ pos 5000000000
unfolding timeout_of wrap
five_seconds = refl

-- A level out of range wraps: 255 is debug.
level_255 : level_of (pos 255) ≡ negsuc 0
unfolding level_of wrap
level_255 = refl

stop_app-main_example :
    (w : StartedWith reach none none (ok pg) (ok all_clusters) (ok inside) (ok (pos 5)) up)
    × (running : App) × (on_events w.cluster_cfg w.ext reach events up ≡ some running)
    × (stopped : App) × (stop_app w.cluster_cfg w.ext late backwards running ≡ some stopped)
    × (late.shutdown_error ≡ none → stopped.server_open ≡ false)
    × (late.close_error ≡ none → stopped.db_open ≡ false)
    × AllStopped stopped.k8s_informer
stop_app-main_example =
    stop_app-main reach none none (ok pg) late backwards Has-backwards parsed events comes_up

level_built :
    new_sugared_logger (λ level. ok (logger_at level)) (ok (pos 1)) ≡ some (logger_at (pos 1))
unfolding new_sugared_logger level_of wrap
level_built = refl

new_sugared_logger-level_example :
    (used : ℤ) × (ok (logger_at used) ≡ ok (logger_at (pos 1)))
    × IsWithin 128 used
    × (IsWithin 128 (pos 1) → used ≡ pos 1)
new_sugared_logger-level_example =
    new_sugared_logger-level (λ level. ok (logger_at level)) (pos 1) level_built

abbrev quiet_around : Surroundings
quiet_around = record {
  k8s_config = none;
  http_client = none;
  dynamic_client = none;
  ci = ok (record { default_namespace = "devtron-ci"; ci_informer = true });
  cd = ok (record { default_namespace = "devtron-cd"; cd_informer = true });
  acd = ok (record { acd_namespace = "devtroncd"; acd_informer = false });
  argo_client = none;
}

abbrev two_informers : List Running
two_informers =
    workflow_informer "devtron-ci" workflow_status_update_topic
    ∷ workflow_informer "devtron-cd" cd_workflow_status_update
    ∷ []

start_waits : start inside quiet_around ≡ (waiting, two_informers)
unfolding start start_cd start_acd
start_waits = refl

server_ends-main_example :
    (running : App) × (on_events all_clusters inside reach events up ≡ some running)
    × ((n : ℕ) (s : Server)
        → After all_clusters inside quiet_around late backwards
            (live at_signal at_start running [])
            n
            s
        → (n ≤ 6 + length two_informers)
          × (((t : Server) × Step all_clusters inside quiet_around late backwards s t)
              ⊎ EndsWell late two_informers s))
server_ends-main_example =
    server_ends-main reach none none (ok pg) late backwards Has-backwards parsed quiet_around events
      comes_up refl refl start_waits
