-- ===== src/App/Handshake.antt =====
-- The end of the server, step by step: `main` waits for a signal, hands the stop to `Start` over a
-- channel without a buffer, and calls `Stop`, while `Start` runs in a goroutine of its own, and
-- closes the channels of its informers as it returns (main.go, pkg/controller/informer.go). The
-- goroutine of `App.Start` has set `app.server` by then.
pub mod Ending
pub mod Whole
use kubewatch.Common.{List, [], none, some, suc, ℕ, ◌++◌, ◌∷◌, ◌≡◌, ◌≢◌}
use kubewatch.Common.Int.{ℤ}
use kubewatch.Watch.{ExternalConfig, Running, Surroundings, start, waiting}
use kubewatch.App.{App, Closing, ClusterConfig, stop_app}

-- Where `main` is: before the signal, at the send to `Start`, at the call of `Stop`, in its sleep.
pub data MainAt : Type 0 where
  at_signal : MainAt
  at_send : MainAt
  at_stop : MainAt
  at_sleep : MainAt

-- Where `Start` is: before it starts its informers, at its receive, in its deferred closes, or at
-- its end. The list is the stack of the deferred closes, the informer started last at its top.
pub data StartAt : Type 0 where
  at_start : StartAt
  at_receive : List Running → StartAt
  at_close : List Running → StartAt
  returned : StartAt

-- The server, with the informers of `Start` whose channels were closed, in that order.
pub data Server : Type 0 where
  live : MainAt → StartAt → App → List Running → Server
  -- `main` has returned.
  over : StartAt → App → List Running → Server
  -- A panic, or an end by `os.Exit(2)`.
  aborted : Server

-- The deferred closes of the informers.
abbrev pub deferred : List Running → List Running
deferred [] = []
deferred (r ∷ rs) = deferred rs ++ r ∷ []

module _ (cluster_cfg : ClusterConfig) (ext : ExternalConfig) (around : Surroundings)
    (closing : Closing) (key_order : List ℤ → List ℤ) where
  -- A step of one of the two goroutines, or of both where one sends what the other receives.
  pub data Step : Server → Server → Type 0 where
    signalled :
        {w : StartAt} {app : App} {c : List Running}
        → Step (live at_signal w app c) (live at_send w app c)
    started :
        {m : MainAt} {app : App} {c rs : List Running}
        → start ext around ≡ (waiting, rs)
        → Step (live m at_start app c) (live m (at_receive (deferred rs)) app c)
    start_failed :
        {m : MainAt} {app : App} {c : List Running}
        → (start ext around).0 ≢ waiting
        → Step (live m at_start app c) aborted
    met :
        {ds : List Running} {app : App} {c : List Running}
        → Step (live at_send (at_receive ds) app c) (live at_stop (at_close ds) app c)
    closes :
        {m : MainAt} {d : Running} {ds : List Running} {app : App} {c : List Running}
        → Step (live m (at_close (d ∷ ds)) app c) (live m (at_close ds) app (c ++ d ∷ []))
    returns :
        {m : MainAt} {app : App} {c : List Running}
        → Step (live m (at_close []) app c) (live m returned app c)
    stops :
        {w : StartAt} {app app' : App} {c : List Running}
        → stop_app cluster_cfg ext closing key_order app ≡ some app'
        → Step (live at_stop w app c) (live at_sleep w app' c)
    stop_panics :
        {w : StartAt} {app : App} {c : List Running}
        → stop_app cluster_cfg ext closing key_order app ≡ none
        → Step (live at_stop w app c) aborted
    wakes :
        {w : StartAt} {app : App} {c : List Running} → Step (live at_sleep w app c) (over w app c)

  -- The servers that come after a number of steps.
  pub data After (from : Server) : ℕ → Server → Type 0 where
    now : After from 0 from
    next : {n : ℕ} {s t : Server} → After from n s → Step s t → After from (suc n) t
