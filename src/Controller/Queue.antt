-- ===== src/Controller/Queue.antt =====
-- The queue of client-go with the events that wait and those that are processed, and the worker and
-- the informer that share it (pkg/controller/controller.go).
use kubewatch.Common.{
  Bool, Has, List, Option, String, [], false, if◌then◌else◌, int_eq, nat_eq, not, refl, some,
  string_eq, suc, true, ℕ, ◌&&◌, ◌++◌, ◌==◌, ◌||◌, ◌∷◌, ◌≡◌,
}
use kubewatch.Controller.{
  HandlerCall, InformerEvent, Keys, Notification, WorkQueue, on_notification, process_next_item,
  settle,
}
use kubewatch.Controller.Retries.{event_eq}

-- What client-go documents of its queue, for one that is not shut down. `pending` is the order in
-- which events are processed; an event is dirty if it needs to be processed, and busy between `Get`
-- and `Done`. One that is added while it is busy waits for its `Done`. A rate limited addition comes
-- later, as an addition of its own.
pub record QueueLaws (wq : WorkQueue) : Type 0 where
  pub pending : wq.Queue → List InformerEvent
  pub dirty : wq.Queue → InformerEvent → Bool
  pub busy : wq.Queue → InformerEvent → Bool
  pub dirty_waits :
      (e : InformerEvent) (q : wq.Queue) → dirty q e ≡ true → busy q e ≡ false → Has e (pending q)
  pub add_dirty : (e : InformerEvent) (q : wq.Queue) → dirty q e ≡ true → wq.add e q ≡ q
  pub add_clean :
      (e : InformerEvent) (q : wq.Queue)
      → dirty q e ≡ false
      → pending (wq.add e q) ≡ (if busy q e then pending q else pending q ++ e ∷ [])
  pub add_marks :
      (e d : InformerEvent) (q : wq.Queue) → dirty (wq.add e q) d ≡ (e == d || dirty q d)
  pub add_busy : (e d : InformerEvent) (q : wq.Queue) → busy (wq.add e q) d ≡ busy q d
  pub get_next :
      (e : InformerEvent) (es : List InformerEvent) (q : wq.Queue)
      → pending q ≡ e ∷ es
      → ((wq.get q).0 ≡ some e)
        × (pending (wq.get q).1 ≡ es)
        × ((d : InformerEvent) → busy (wq.get q).1 d ≡ (e == d || busy q d))
  pub done_again :
      (e : InformerEvent) (q : wq.Queue)
      → pending (wq.done e q) ≡ (if dirty q e then pending q ++ e ∷ [] else pending q)
  pub done_busy :
      (e d : InformerEvent) (q : wq.Queue) → busy (wq.done e q) d ≡ (not (e == d) && busy q d)
  pub forget_pending : (e : InformerEvent) (q : wq.Queue) → pending (wq.forget e q) ≡ pending q
  pub forget_dirty : (e d : InformerEvent) (q : wq.Queue) → dirty (wq.forget e q) d ≡ dirty q d
  pub forget_busy : (e d : InformerEvent) (q : wq.Queue) → busy (wq.forget e q) d ≡ busy q d
  pub requeue_pending :
      (e : InformerEvent) (q : wq.Queue) → pending (wq.add_rate_limited e q) ≡ pending q
  pub requeue_dirty :
      (e d : InformerEvent) (q : wq.Queue) → dirty (wq.add_rate_limited e q) d ≡ dirty q d
  pub requeue_busy :
      (e d : InformerEvent) (q : wq.Queue) → busy (wq.add_rate_limited e q) d ≡ busy q d

-- The worker, between two events or in the processing of one.
pub data Worker : Type 0 where
  idle : Worker
  working : InformerEvent → Worker

module _ (wq : WorkQueue) (process : InformerEvent → Option String × List HandlerCall) where
  -- The end of `processNextItem`, after the event is processed.
  unfoldable pub finish_item : InformerEvent → wq.Queue → wq.Queue
  finish_item e q = wq.done e (settle wq (process e).0 e q)

  -- The worker, `newEvent` of the informer, the queue, and the calls of the event handler so far.
  pub data System : Type 0 where
    at : Worker → InformerEvent × wq.Queue → List HandlerCall → System

  abbrev pub calls_at : System → List HandlerCall
  calls_at (at w s calls) = calls

  -- `processNextItem` is the `Get`, with the calls of the event, and then its end.
  process_next_item-finish_item :
      (q : wq.Queue) {e : InformerEvent}
      → (wq.get q).0 ≡ some e
      → process_next_item wq process q ≡ (true, finish_item e (wq.get q).1, (process e).1)
  unfolding process_next_item finish_item
  process_next_item-finish_item q h = rw (process_next_item, h) refl

  module _ (laws : QueueLaws wq) (fs : Keys) (resource_type : String) where
    -- The informer and the worker at once: so many additions, of notifications and of events whose
    -- delay is over, and so many steps of the worker, which takes an event where one waits.
    pub data Run : ℕ → ℕ → System → System → Type 0 where
      stay : {s : System} → Run 0 0 s s
      notified :
          {a k : ℕ} {w : Worker} {s : InformerEvent × wq.Queue} {calls : List HandlerCall}
          {t : System} (n : Notification)
          → Run a k (at w (on_notification wq fs resource_type n s) calls) t
          → Run (suc a) k (at w s calls) t
      requeued :
          {a k : ℕ} {w : Worker} {ev : InformerEvent} {q : wq.Queue} {calls : List HandlerCall}
          {t : System} (d : InformerEvent)
          → Run a k (at w (ev, wq.add d q) calls) t
          → Run (suc a) k (at w (ev, q) calls) t
      took :
          {a k : ℕ} {ev : InformerEvent} {q : wq.Queue} {calls : List HandlerCall} {t : System}
          (e : InformerEvent) (es : List InformerEvent)
          → laws.pending q ≡ e ∷ es
          → Run a k (at (working e) (ev, (wq.get q).1) (calls ++ (process e).1)) t
          → Run a (suc k) (at idle (ev, q) calls) t
      finished :
          {a k : ℕ} {ev : InformerEvent} {q : wq.Queue} {calls : List HandlerCall} {t : System}
          (e : InformerEvent)
          → Run a k (at idle (ev, finish_item e q) calls) t
          → Run a (suc k) (at (working e) (ev, q) calls) t
