-- ===== src/Controller/Worker.antt =====
-- The loop of the worker, and how the controller ends (pkg/controller/controller.go).
use kubewatch.Common.{
  Bool, List, Option, String, [], false, if◌then◌else◌, none, not, some, suc, true, zero, ℕ, ◌++◌,
  ◌≡◌, ◌≢◌,
}
use kubewatch.Controller.{HandlerCall, InformerEvent, WorkQueue, process_next_item}

-- What client-go documents of `Get` and `ShutDown`, where no other goroutine shuts the queue down:
-- while the queue is up, `Get` waits for an event, and none of the calls of the worker shuts it down.
pub record UpLaws (wq : WorkQueue) (shut_down : wq.Queue → wq.Queue) : Type 0 where
  pub is_down : wq.Queue → Bool
  pub up_get : (q : wq.Queue) → is_down q ≡ false → (wq.get q).0 ≢ none
  pub get_down : (q : wq.Queue) → is_down (wq.get q).1 ≡ is_down q
  pub requeue_down :
      (e : InformerEvent) (q : wq.Queue) → is_down (wq.add_rate_limited e q) ≡ is_down q
  pub forget_down : (e : InformerEvent) (q : wq.Queue) → is_down (wq.forget e q) ≡ is_down q
  pub done_down : (e : InformerEvent) (q : wq.Queue) → is_down (wq.done e q) ≡ is_down q
  pub shut_down_down : (q : wq.Queue) → is_down (shut_down q) ≡ true

abbrev called :
    {Q : Type 0} → List HandlerCall → Option (Q × List HandlerCall) → Option (Q × List HandlerCall)
called calls none = none
called calls (some (q, rest)) = some (q, calls ++ rest)

module _ (wq : WorkQueue) (process : InformerEvent → Option String × List HandlerCall) where
  -- `runWorker`: the queue and the calls of the event handler, or `none` where the loop still runs
  -- after the rounds of the fuel.
  unfoldable pub run_worker : ℕ → wq.Queue → Option (wq.Queue × List HandlerCall)
  run_worker zero q = none
  run_worker (suc fuel) q =
      let (go_on, q', calls) = process_next_item wq process q in
      let rest = run_worker fuel q' in if go_on then called calls rest else some (q', calls)

  -- `wait.Until`, which calls the worker again until the stop channel is closed: here, so many
  -- times.
  unfoldable pub until : ℕ → ℕ → wq.Queue → Option (wq.Queue × List HandlerCall)
  until fuel zero q = some (q, [])
  until fuel (suc times) q = elim (run_worker fuel q) [
    | none ↦ none
    | some (q', calls) ↦ called calls (until fuel times q')
  ]

  -- The deferred `ShutDown` of the queue.
  unfoldable pub shut :
      (wq.Queue → wq.Queue)
      → Option (wq.Queue × List HandlerCall)
      → Option (wq.Queue × List HandlerCall)
  shut shut_down none = none
  shut shut_down (some (q, calls)) = some (shut_down q, calls)

  -- `Run`: `synced` is the answer of `WaitForCacheSync`.
  unfoldable pub run_controller :
      (wq.Queue → wq.Queue) → Bool → ℕ → ℕ → wq.Queue → Option (wq.Queue × List HandlerCall)
  run_controller shut_down synced fuel times q =
      shut shut_down (if not synced then some (q, []) else until fuel times q)
