-- ===== src/App/Lifetime.antt =====
-- A run of the server from its start to its shutdown (main.go, App.go).
use kubewatch.Common.{
  Bool, Bool-cases, Has, List, Option, Option-cases, String, contains, false, inl, inr, int_eq,
  nat_eq, none, refl, some, some_eq, string_eq, subst, sym, true, ℕ, ◌≡◌,
}
use kubewatch.Common.Int.{ℤ}
use kubewatch.Common.Result.{Result, Result-cases}
use kubewatch.Cluster.{Pg}
use kubewatch.Informer.{K8s, Registry}
use kubewatch.Informer.Events.{SecretEvent, on_secret_events}
use kubewatch.Informer.Events.Invariant.{Inv}
use kubewatch.Informer.Events.Safety.{build-Inv, events-IsSafe}
use kubewatch.Informer.Events.Shutdown.{stop_all_lem}
use kubewatch.Watch.{ExternalConfig}
use kubewatch.App.{
  App, Closing, ClusterConfig, build_informer, get_pub_sub_client_for_internal_config,
  is_cluster_type_all_and_is_internal_config, on_events, start_app, still_open, stop_app,
  stop_informers,
}

-- The stop channel of every informer that was started is closed.
abbrev pub AllStopped : Option Registry → Type 0
AllStopped none = Unit
AllStopped (some r) = (id : ℤ) (ch : ℕ) → Has (id, ch) r.started → contains ch r.closed ≡ true

-- The server has informers exactly if the configuration says so, and they keep the invariant.
record Runs (both : Bool) (app : App) : Type 0 where
  db : both ≡ false → app.db_open ≡ false
  absent : both ≡ false → app.k8s_informer ≡ none
  present : both ≡ true → (r : Registry) × (app.k8s_informer ≡ some r) × Inv r

closed_well : {e : Option String} → e ≡ none → (is_open : Bool) → still_open e is_open ≡ false
closed_well h is_open = rw h refl

module _ (cluster_cfg : ClusterConfig) (ext : ExternalConfig) (k8s : K8s) where
  start_app-Runs :
      (no_default failure : Option String) (connection : Result Pg) {app : App}
      → start_app cluster_cfg ext k8s no_default failure connection ≡ some app
      → Runs (is_cluster_type_all_and_is_internal_config cluster_cfg ext) app
  unfolding start_app build_informer
  start_app-Runs no_default failure connection {app} h =
      let both = is_cluster_type_all_and_is_internal_config cluster_cfg ext in
      elim (Option-cases (get_pub_sub_client_for_internal_config cluster_cfg ext failure)) [
        | inl e ↦ cc (rw (start_app, e) at h)
        | inr (client, e) ↦ elim (Bool-cases both) [
          | inr b ↦
              subst (Runs both) (some_eq (rw (start_app, e, b) at h))
                (record { db = λ p. refl; absent = λ p. refl; present = λ p. cc (p, b) })
          | inl b ↦ elim (Result-cases connection) [
            | inr (m, c) ↦ cc (rw (start_app, e, b, build_informer, c) at h)
            | inl (pg, c) ↦ elim (Option-cases no_default) [
              | inr (m, n) ↦ cc (rw (start_app, e, b, build_informer, c, n) at h)
              | inl n ↦
                  subst (Runs both) (some_eq (rw (start_app, e, b, build_informer, c, n) at h))
                    (record {
                      db = λ p. cc (p, b);
                      absent = λ p. cc (p, b);
                      present = λ p. (_, refl, build-Inv k8s pg);
                    })
            ]
          ]
        ]
      ]

  -- Whatever the configuration, if the server starts, then it handles any events of cluster
  -- secrets without a panic, and its shutdown, in any order of the clusters that leaves none out,
  -- ends with every informer of a cluster stopped, with the HTTP server closed if `Shutdown` returns
  -- no error, and with the database closed if `Close` returns none.
  pub stop_app-start_app :
      (closing : Closing) (key_order : List ℤ → List ℤ)
      → ((ids : List ℤ) (id : ℤ) → Has id ids → Has id (key_order ids))
      → (no_default failure : Option String) (connection : Result Pg) (events : List SecretEvent)
        {app : App}
      → start_app cluster_cfg ext k8s no_default failure connection ≡ some app
      → (running : App) × (on_events cluster_cfg ext k8s events app ≡ some running)
        × (stopped : App) × (stop_app cluster_cfg ext closing key_order running ≡ some stopped)
        × (closing.shutdown_error ≡ none → stopped.server_open ≡ false)
        × (closing.close_error ≡ none → stopped.db_open ≡ false)
        × AllStopped stopped.k8s_informer
  unfolding on_events stop_app stop_informers
  stop_app-start_app closing key_order complete no_default failure connection events {app} h =
      let both = is_cluster_type_all_and_is_internal_config cluster_cfg ext in
      let v = start_app-Runs no_default failure connection h in
      elim (Bool-cases both) [
        | inr b ↦ (
          app,
          simp (on_events, v.absent b),
          record app { server_open = still_open closing.shutdown_error app.server_open },
          rw (stop_app, b) refl,
          λ c. closed_well c app.server_open,
          λ c. v.db b,
          subst AllStopped (sym (v.absent b)) tt,
        )
        | inl b ↦
            let (r, has, inv) = v.present b in
            elim (Option-cases (on_secret_events k8s events r)) [
              | inl e ↦ absurd (rw e at (events-IsSafe k8s events inv))
              | inr (r', e) ↦
                  let inv' : Inv r' = rw e at (events-IsSafe k8s events inv) in
                  let (s, stops, same, closed, empty, watching) =
                    stop_all_lem key_order complete inv' in
                  (
                    record app { k8s_informer = some r' },
                    rw (on_events, has, e) refl,
                    record app {
                      k8s_informer = some s;
                      server_open = still_open closing.shutdown_error app.server_open;
                      db_open = still_open closing.close_error app.db_open;
                    },
                    rw (stop_app, b, stop_informers, stops) refl,
                    λ c. closed_well c app.server_open,
                    λ c. closed_well c app.db_open,
                    closed,
                  )
            ]
      ]
