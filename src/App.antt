-- ===== src/App.antt =====
-- The server: what it starts and how it shuts down (main.go, App.go). `none` is a panic, or an end
-- of the program by `os.Exit(2)`.
pub mod Lifetime
pub mod Wiring
pub mod Whole
pub mod Handshake
use kubewatch.Common.{
  Bool, List, Option, String, false, if◌then◌else◌, int_eq, nat_eq, none, not, some, string_eq,
  true, ◌&&◌, ◌==◌,
}
use kubewatch.Common.Int.{ℤ}
use kubewatch.Common.Result.{Result, err, ok}
use kubewatch.Cluster.{Pg}
use kubewatch.Informer.{K8s, Registry, new_registry, stop_all_system_workflow_informer}
use kubewatch.Informer.Events.{SecretEvent, build_informer_for_all_clusters, on_secret_events}
use kubewatch.Watch.{ExternalConfig}

pub record ClusterConfig : Type 0 where
  pub cluster_type : String

abbrev pub cluster_type_all : String
cluster_type_all = "ALL_CLUSTER"

-- The state of the server: the informers of the clusters, if they were built, and whether the
-- database and the HTTP server are open.
pub record App : Type 0 where
  pub k8s_informer : Option Registry
  pub db_open : Bool
  pub server_open : Bool

-- The errors of `server.Shutdown` and of `db.Close`.
pub record Closing : Type 0 where
  pub shutdown_error : Option String
  pub close_error : Option String

-- What is open is closed, unless its close fails.
abbrev pub still_open : Option String → Bool → Bool
still_open none is_open = false
still_open (some e) is_open = is_open

module _ (cluster_cfg : ClusterConfig) (ext : ExternalConfig) where
  unfoldable pub is_cluster_type_all_and_is_internal_config : Bool
  is_cluster_type_all_and_is_internal_config =
      cluster_cfg.cluster_type == cluster_type_all && not ext.external

  -- Whether there is a client of NATS; `failure` is the error of making one.
  unfoldable pub get_pub_sub_client_for_internal_config : Option String → Option Bool
  get_pub_sub_client_for_internal_config failure =
      if ext.external then some false else elim failure [ none ↦ some true | some e ↦ none ]

  -- `no_default` is the error of `GetDefaultK8sConfig` in `NewK8sInformerImpl`, which drops it: with
  -- nil, `startClusterInformer` panics as it makes its client.
  unfoldable pub build_informer : K8s → Option String → Result Pg → App → Option App
  build_informer k8s no_default connection app = elim connection [
    | err e ↦ none
    | ok pg ↦ elim no_default [
      | some e ↦ none
      | none ↦ some (record app {
        db_open = true;
        k8s_informer = some (build_informer_for_all_clusters k8s pg new_registry).1;
      })
    ]
  ]

  -- `main` up to the wait for a signal.
  unfoldable pub start_app : K8s → Option String → Option String → Result Pg → Option App
  start_app k8s no_default failure connection =
      let app : App = record { k8s_informer = none; db_open = false; server_open = true } in
      elim (get_pub_sub_client_for_internal_config failure) [
        | none ↦ none
        | some client ↦
            if is_cluster_type_all_and_is_internal_config
            then build_informer k8s no_default connection app
            else some app
      ]

  -- The informer of cluster secrets runs where the informers were built.
  unfoldable pub on_events : K8s → List SecretEvent → App → Option App
  on_events k8s events app = elim app.k8s_informer [
    | none ↦ some app
    | some r ↦ elim (on_secret_events k8s events r) [
      | none ↦ none
      | some r' ↦ some (record app { k8s_informer = some r' })
    ]
  ]

  -- The informers of the clusters and the database, in `Stop`. An error of `Close` is only logged.
  unfoldable pub stop_informers : Closing → (List ℤ → List ℤ) → App → Option App
  stop_informers closing key_order app = elim app.k8s_informer [
    | none ↦ none
    | some r ↦ elim (stop_all_system_workflow_informer key_order r) [
      | none ↦ none
      | some r' ↦ some (record app {
        k8s_informer = some r';
        db_open = still_open closing.close_error app.db_open;
      })
    ]
  ]

  -- An error of `Shutdown`, such as the end of the timeout, is only logged.
  unfoldable pub stop_app : Closing → (List ℤ → List ℤ) → App → Option App
  stop_app closing key_order app =
      let after = record app { server_open = still_open closing.shutdown_error app.server_open } in
      if is_cluster_type_all_and_is_internal_config
      then stop_informers closing key_order after
      else some after
