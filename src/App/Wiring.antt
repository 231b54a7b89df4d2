-- ===== src/App/Wiring.antt =====
-- How the server is put together, and its `main` (wire_gen.go, App.go, main.go, pkg/logger/Logger.go).
use Prim.Native.Nat.{◌^◌}
use kubewatch.Common.{Option, String, arith, none, refl, some, ℕ, ◌*◌, ◌+◌, ◌≡◌}
use kubewatch.Common.Int.{negsuc, pos, ℤ}
use kubewatch.Common.Result.{Result, err, ok}
use kubewatch.Common.Wrap.{IsWithin, wrap, wrap-IsWithin, wrap-within}
use kubewatch.Cluster.{Pg}
use kubewatch.Informer.{K8s}
use kubewatch.Watch.{ExternalConfig}
use kubewatch.Logger.{new_sugared_logger}
use kubewatch.App.{App, ClusterConfig, start_app}

-- A logger of a level.
pub data BuiltLogger : Type 0 where
  logger_at : ℤ → BuiltLogger

-- What `env.Parse` makes of the environment for each structure of configuration, and whether a
-- logger can be built.
pub record Parsed : Type 0 where
  pub log_level : Result ℤ
  pub build_logger : ℤ → Result BuiltLogger
  pub cluster : Result ClusterConfig
  pub external : Result ExternalConfig
  pub sleep_timeout : Result ℤ

-- `App` as `NewApp` makes it; the timeout is in nanoseconds.
pub record NewApp : Type 0 where
  pub cluster_cfg : ClusterConfig
  pub external_config : ExternalConfig
  pub default_timeout : ℤ

-- A product by the nanoseconds of a second.
abbrev pub seconds : ℤ → ℤ
seconds (pos n) = pos (n * 1000000000)
seconds (negsuc n) = negsuc (n * 1000000000 + 999999999)

-- `time.Duration(timeout.SleepTimeout) * time.Second`, in 64 bits.
unfoldable pub timeout_of : ℤ → ℤ
timeout_of sleep = wrap (2 ^ 63) (seconds sleep)

-- `NewApp`, which is nil where the timeout cannot be parsed.
unfoldable pub new_app : ClusterConfig → ExternalConfig → Result ℤ → Option NewApp
new_app cluster_cfg ext (err e) = none
new_app cluster_cfg ext (ok sleep) = some (record {
  cluster_cfg = cluster_cfg;
  external_config = ext;
  default_timeout = timeout_of sleep;
})

-- `InitializeApp` once there is a logger.
unfoldable pub initialize_logged :
    Result ClusterConfig → Result ExternalConfig → Result ℤ → Result (Option NewApp)
initialize_logged (err e) ext sleep = err e
initialize_logged (ok cluster_cfg) (err e) sleep = err e
initialize_logged (ok cluster_cfg) (ok ext) sleep = ok (new_app cluster_cfg ext sleep)

abbrev if_logged : Parsed → Option BuiltLogger → Option (Result (Option NewApp))
if_logged p none = none
if_logged p (some log) = some (initialize_logged p.cluster p.external p.sleep_timeout)

-- `InitializeApp`: `none` is a panic, and an app may be nil.
unfoldable pub initialize_app : Parsed → Option (Result (Option NewApp))
initialize_app p = if_logged p (new_sugared_logger p.build_logger p.log_level)

module _ (k8s : K8s) (no_default failure : Option String) (connection : Result Pg) where
  -- `main` after `InitializeApp`: `log.Panic` on an error, and a panic on the fields of a nil app.
  unfoldable pub main_with : Option (Result (Option NewApp)) → Option App
  main_with none = none
  main_with (some (err e)) = none
  main_with (some (ok none)) = none
  main_with (some (ok (some app))) =
      start_app app.cluster_cfg app.external_config k8s no_default failure connection

  -- `main` up to the wait for a signal.
  unfoldable pub main : Parsed → Option App
  main p = main_with (initialize_app p)

-- How `ListenAndServe` returns: with `ErrServerClosed`, or with another error.
pub data Served : Type 0 where
  server_closed : Served
  serve_failed : String → Served

-- `Start`: the address of the server, and the code with which the program ends if it does.
unfoldable pub start_server : (String → Served) → Option ℕ
start_server listen = exit_code (listen ":8080")
  where
    exit_code : Served → Option ℕ
    exit_code server_closed = none
    exit_code (serve_failed e) = some 2

-- Where a logger is built and both configurations are parsed but the timeout is not, the app is nil
-- and there is no error, and `main` panics whatever else holds.
pub initialize_app-nil :
    (p : Parsed) {log : BuiltLogger} {cluster_cfg : ClusterConfig} {ext : ExternalConfig}
    {e : String}
    → new_sugared_logger p.build_logger p.log_level ≡ some log
    → p.cluster ≡ ok cluster_cfg
    → p.external ≡ ok ext
    → p.sleep_timeout ≡ err e
    → (initialize_app p ≡ some (ok none))
      × ((k8s : K8s) (no_default failure : Option String) (connection : Result Pg)
          → main k8s no_default failure connection p ≡ none)
unfolding initialize_app initialize_logged new_app main main_with
initialize_app-nil p l c x t = (
  rw (initialize_app, l, initialize_logged, c, x, t) refl,
  λ k8s no_default failure connection.
      rw (main, initialize_app, l, initialize_logged, c, x, t) refl,
)

-- The timeout of the shutdown is a 64-bit integer, whatever the environment says. It is the number
-- of seconds given wherever that is between -9223372036 and 9223372036.
pub timeout_of_lem :
    (sleep : ℤ)
    → IsWithin (2 ^ 63) (timeout_of sleep)
      × (IsWithin 9223372036 sleep → timeout_of sleep ≡ seconds sleep)
unfolding timeout_of
timeout_of_lem sleep = (
  wrap-IsWithin (2 ^ 63) (omega arith) (seconds sleep),
  λ b. wrap-within (2 ^ 63) (seconds sleep) (seconds_fit sleep b),
)
  where
    seconds_fit : (i : ℤ) → IsWithin 9223372036 i → IsWithin (2 ^ 63) (seconds i)
    seconds_fit (pos n) b = omega (arith, b)
    seconds_fit (negsuc n) b = omega (arith, b)
