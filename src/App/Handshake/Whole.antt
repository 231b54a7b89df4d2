-- ===== src/App/Handshake/Whole.antt =====
-- From `main` to its end (main.go, App.go, wire_gen.go, pkg/controller/informer.go).
use kubewatch.Common.{
  Has, List, Option, String, [], false, inl, inr, length, none, some, subst, sym, ℕ, ◌+◌, ◌∙◌, ◌≡◌,
  ◌≤◌, ◌⊎◌,
}
use kubewatch.Common.Int.{ℤ}
use kubewatch.Common.Result.{Result, ok, ok_eq}
use kubewatch.Cluster.{Pg}
use kubewatch.Informer.{K8s}
use kubewatch.Informer.Events.{SecretEvent}
use kubewatch.Watch.{ExternalConfig, Running, Surroundings, start, waiting}
use kubewatch.App.{App, Closing, ClusterConfig, on_events, start_app}
use kubewatch.App.Lifetime.{AllStopped, stop_app-start_app}
use kubewatch.App.Wiring.{Parsed, main}
use kubewatch.App.Whole.{StartedWith, main-StartedWith}
use kubewatch.App.Handshake.{After, Server, Step, at_signal, at_start, live}
use kubewatch.App.Handshake.Ending.{IsOver, server_ends}

-- The end of a server: every informer of a cluster is stopped, the HTTP server and the database are
-- closed unless their closing failed, and `Start`, if it has returned, has closed the channels of
-- its own informers.
pub record EndsWell (closing : Closing) (rs : List Running) (s : Server) : Type 0 where
  pub stopped : App
  pub ends : IsOver rs stopped s
  pub server_closed : closing.shutdown_error ≡ none → stopped.server_open ≡ false
  pub db_closed : closing.close_error ≡ none → stopped.db_open ≡ false
  pub all_stopped : AllStopped stopped.k8s_informer

same_start :
    (k8s : K8s) (no_default failure : Option String) (connection : Result Pg) (p : Parsed)
    {app : App} {cluster_cfg : ClusterConfig} {ext : ExternalConfig}
    → p.cluster ≡ ok cluster_cfg
    → p.external ≡ ok ext
    → StartedWith k8s no_default failure connection p.cluster p.external p.sleep_timeout app
    → start_app cluster_cfg ext k8s no_default failure connection ≡ some app
same_start k8s no_default failure connection p {app} {ext = ext} c e w =
    let same_c = ok_eq (sym w.has_cluster ∙ c) in
    let same_e = ok_eq (sym w.has_external ∙ e) in
    subst (λ x. start_app x ext k8s no_default failure connection ≡ some app) same_c
      (subst (λ y. start_app w.cluster_cfg y k8s no_default failure connection ≡ some app) same_e
        w.starts)

-- If `main` starts the server, its HTTP server included, and `Start` of the controller comes to
-- its wait with the given informers, then after any events of cluster secrets the server runs to
-- its end, whatever the order of the steps of `main` and `Start` from then on: there are at most
-- 6 of them and one for each informer of `Start`, before the end some step is possible, and at
-- the end the informers of the clusters are stopped, as are those of `Start` if it has returned
-- by then, the HTTP server is closed if `Shutdown` returned no error, and the database if
-- `Close` returned none. The order of the clusters is any that leaves none out.
pub server_ends-main :
    (k8s : K8s) (no_default failure : Option String) (connection : Result Pg) (closing : Closing)
    (key_order : List ℤ → List ℤ)
    → ((ids : List ℤ) (id : ℤ) → Has id ids → Has id (key_order ids))
    → (p : Parsed) (around : Surroundings) (events : List SecretEvent) {app : App}
      {cluster_cfg : ClusterConfig} {ext : ExternalConfig} {rs : List Running}
    → main k8s no_default failure connection p ≡ some app
    → p.cluster ≡ ok cluster_cfg
    → p.external ≡ ok ext
    → start ext around ≡ (waiting, rs)
    → (running : App) × (on_events cluster_cfg ext k8s events app ≡ some running)
      × ((n : ℕ) (s : Server)
          → After cluster_cfg ext around closing key_order (live at_signal at_start running []) n s
          → (n ≤ 6 + length rs)
            × (((t : Server) × Step cluster_cfg ext around closing key_order s t)
                ⊎ EndsWell closing rs s))
server_ends-main k8s no_default failure connection closing key_order complete p around events {app}
      {cluster_cfg} {ext} {rs} h c e w =
    let starts =
      same_start k8s no_default failure connection p c e
        (main-StartedWith k8s no_default failure connection p h) in
    let (running, handles, stopped, halts, server, db, all_stopped) =
      stop_app-start_app cluster_cfg ext k8s closing key_order complete no_default failure
        connection events starts in
    (
      running,
      handles,
      λ n s m.
          let (bound, more, after) =
            server_ends rs running stopped cluster_cfg ext around closing key_order w halts n m in
          (
            bound,
            elim more [
              | inl t ↦ inl t
              | inr o ↦ inr (record {
                stopped = stopped;
                ends = o;
                server_closed = server;
                db_closed = db;
                all_stopped = all_stopped;
              })
            ],
          ),
    )
