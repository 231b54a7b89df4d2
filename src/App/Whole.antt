-- ===== src/App/Whole.antt =====
-- A run of the server from `main` to its shutdown (main.go, wire_gen.go, App.go,
-- pkg/informer/K8sInformer.go).
use kubewatch.Common.{
  Has, List, Option, Option-cases, String, false, inl, inr, none, refl, some, ◌≡◌,
}
use kubewatch.Common.Int.{ℤ}
use kubewatch.Common.Result.{Result, err, ok}
use kubewatch.Cluster.{Pg}
use kubewatch.Informer.{K8s}
use kubewatch.Informer.Events.{SecretEvent}
use kubewatch.Watch.{ExternalConfig}
use kubewatch.Logger.{new_sugared_logger}
use kubewatch.App.{App, Closing, ClusterConfig, on_events, start_app, stop_app}
use kubewatch.App.Lifetime.{AllStopped, stop_app-start_app}
use kubewatch.App.Wiring.{Parsed, initialize_app, initialize_logged, main, main_with, new_app}

-- The configurations with which `main` started the server.
pub record StartedWith (k8s : K8s) (no_default failure : Option String) (connection : Result Pg)
    (cluster : Result ClusterConfig) (external : Result ExternalConfig) (sleep : Result ℤ)
    (app : App) : Type 0 where
  pub cluster_cfg : ClusterConfig
  pub ext : ExternalConfig
  pub timeout : ℤ
  pub has_cluster : cluster ≡ ok cluster_cfg
  pub has_external : external ≡ ok ext
  pub has_timeout : sleep ≡ ok timeout
  pub starts : start_app cluster_cfg ext k8s no_default failure connection ≡ some app

module _ (k8s : K8s) (no_default failure : Option String) (connection : Result Pg) where
  logged_start :
      (cluster : Result ClusterConfig) (external : Result ExternalConfig) (sleep : Result ℤ)
      {app : App}
      → main_with k8s no_default failure connection
          (some (initialize_logged cluster external sleep))
        ≡ some app
      → StartedWith k8s no_default failure connection cluster external sleep app
  unfolding main_with initialize_logged new_app
  logged_start (err e) external sleep h = cc
  logged_start (ok c) (err e) sleep h = cc
  logged_start (ok c) (ok x) (err e) h = cc
  logged_start (ok c) (ok x) (ok t) h = record {
    cluster_cfg = c;
    ext = x;
    timeout = t;
    has_cluster = refl;
    has_external = refl;
    has_timeout = refl;
    starts = h;
  }

  pub main-StartedWith :
      (p : Parsed) {app : App}
      → main k8s no_default failure connection p ≡ some app
      → StartedWith k8s no_default failure connection p.cluster p.external p.sleep_timeout app
  unfolding main initialize_app main_with
  main-StartedWith p h = elim (Option-cases (new_sugared_logger p.build_logger p.log_level)) [
    | inl e ↦ cc (rw (main, initialize_app, e) at h)
    | inr (log, e) ↦
        logged_start p.cluster p.external p.sleep_timeout (rw (main, initialize_app, e) at h)
  ]

  -- If `main` starts the server, then both configurations and the timeout were parsed, it handles
  -- any events of cluster secrets without a panic, and its shutdown, in any order of the clusters
  -- that leaves none out, ends with every informer of a cluster stopped, with the HTTP server closed
  -- if `Shutdown` returns no error, and with the database closed if `Close` returns none.
  pub stop_app-main :
      (closing : Closing) (key_order : List ℤ → List ℤ)
      → ((ids : List ℤ) (id : ℤ) → Has id ids → Has id (key_order ids))
      → (p : Parsed) (events : List SecretEvent) {app : App}
      → main k8s no_default failure connection p ≡ some app
      → (w : StartedWith k8s no_default failure connection p.cluster p.external p.sleep_timeout app)
        × (running : App) × (on_events w.cluster_cfg w.ext k8s events app ≡ some running)
        × (stopped : App) × (stop_app w.cluster_cfg w.ext closing key_order running ≡ some stopped)
        × (closing.shutdown_error ≡ none → stopped.server_open ≡ false)
        × (closing.close_error ≡ none → stopped.db_open ≡ false)
        × AllStopped stopped.k8s_informer
  stop_app-main closing key_order complete p events h =
      let w = main-StartedWith p h in
      let (running, handles, stopped, stops, server, db, all_stopped) =
        stop_app-start_app w.cluster_cfg w.ext k8s closing key_order complete no_default failure
          connection events w.starts in
      (w, running, handles, stopped, stops, server, db, all_stopped)
