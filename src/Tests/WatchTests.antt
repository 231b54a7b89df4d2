-- ===== src/Tests/WatchTests.antt =====
-- Runs and instances for the informers of workflows and applications
-- (pkg/controller/informer.go).
use kubewatch.Common.{All, [], none, refl, some, true, ◌↔◌, ◌∷◌, ◌≡◌, ◌≢◌}
use kubewatch.Common.Result.{ok}
use kubewatch.Watch.{
  AcdConfig, Application, CdConfig, CiConfig, ExternalConfig, Publisher, Surroundings, nats_message,
  on_app_update, panicked, start,
}
use kubewatch.Watch.Starting.{IsExternal, start-external}
use kubewatch.Watch.Sending.{IsNews, on_app_update_lem}

abbrev remote : ExternalConfig
remote = record { external = true; token = "t"; listener_url = "https://hub"; namespace = "jobs" }

abbrev ci : CiConfig
ci = record { default_namespace = "devtron-ci"; ci_informer = true }

abbrev cd : CdConfig
cd = record { default_namespace = "devtron-cd"; cd_informer = true }

abbrev acd : AcdConfig
acd = record { acd_namespace = "devtroncd"; acd_informer = true }

abbrev well : Surroundings
well = record {
  k8s_config = none;
  http_client = none;
  dynamic_client = none;
  ci = ok ci;
  cd = ok cd;
  acd = ok acd;
  argo_client = none;
}

start-external_example :
    (((start remote well).0 ≡ panicked) ↔ (well.k8s_config ≢ none))
    × All (IsExternal remote) (start remote well).1
start-external_example = start-external remote well refl

abbrev shop_app : Application
shop_app = record {
  name = "shop";
  history = "r1" ∷ [];
  sync_revision = "r1";
  health_status = "Healthy";
  sync_status = "Synced";
}

abbrev nats : Publisher
nats = record { has_client = true; marshal = λ app t. some app.sync_revision }

on_app_update_lem_example :
    (IsNews (record shop_app { history = [] }) shop_app
      → on_app_update nats (some (record shop_app { history = [] })) (some shop_app) 5
        ≡ nats_message "APPLICATION_STATUS_UPDATE" "r1" ∷ [])
    × (¬ IsNews (record shop_app { history = [] }) shop_app
        → on_app_update nats (some (record shop_app { history = [] })) (some shop_app) 5 ≡ [])
on_app_update_lem_example =
    on_app_update_lem nats (record shop_app { history = [] }) shop_app 5 refl refl
