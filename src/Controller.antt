-- ===== src/Controller.antt =====
-- The controller of one kind of resource: the handlers of its informer, and the worker that takes
-- events from the queue (pkg/controller/controller.go).
pub mod Namespaces
pub mod Processing
pub mod Retries
pub mod Worker
pub mod Queue
pub mod Pending
pub mod Taken
pub mod Pipeline
use kubewatch.Common.{
  Bool, List, Option, String, [], concat, false, if◌then◌else◌, int_eq, ltb, nat_eq, none, some,
  string_eq, true, ℕ, ◌==◌, ◌∷◌,
}
use kubewatch.Common.Result.{Result, err, ok}
use kubewatch.Pod.{Time}
use kubewatch.Objects.{Event, Object, get_object_meta_data, zero_event}

-- `Event` of this package: what the queue holds.
pub record InformerEvent : Type 0 where
  pub key : String
  pub event_type : String
  pub namespace : String
  pub resource_type : String

-- `var newEvent Event`.
abbrev pub zero_informer_event : InformerEvent
zero_informer_event = record { key = ""; event_type = ""; namespace = ""; resource_type = "" }

abbrev pub max_retries : ℕ
max_retries = 5

-- The rate limiting queue of client-go. `get` gives the next event, or `none` where the queue is
-- shut down.
pub record WorkQueue : Type 1 where
  pub Queue : Type 0
  pub add : InformerEvent → Queue → Queue
  pub get : Queue → Option InformerEvent × Queue
  pub done : InformerEvent → Queue → Queue
  pub forget : InformerEvent → Queue → Queue
  pub add_rate_limited : InformerEvent → Queue → Queue
  pub num_requeues : Queue → InformerEvent → ℕ

-- The key functions of client-go: `MetaNamespaceKeyFunc` and the one that looks into a tombstone.
-- With an error, the key is empty.
pub record Keys : Type 0 where
  pub meta_namespace_key : Object → Result String
  pub deletion_handling_key : Object → Result String

-- What the informer reports. The old object of an update is the one that gives the key.
pub data Notification : Type 0 where
  object_added : Object → Notification
  object_updated : Object → Object → Notification
  object_deleted : Object → Notification

-- A call of the event handler.
pub data HandlerCall : Type 0 where
  created : Object → HandlerCall
  updated : Object → Event → HandlerCall
  deleted : Event → HandlerCall

abbrev pub key_or_empty : Result String → String
key_or_empty (ok key) = key
key_or_empty (err e) = ""

module _ (wq : WorkQueue) where
  -- `if err == nil { queue.Add(newEvent) }`.
  unfoldable pub add_unless : Result String → InformerEvent → wq.Queue → wq.Queue
  add_unless (ok key) new_event q = wq.add new_event q
  add_unless (err e) new_event q = q

  -- The three handlers that `newResourceController` gives to the informer. They share the variable
  -- `newEvent`, which is the first part of the state; the second is the queue.
  unfoldable pub on_notification :
      Keys → String → Notification → InformerEvent × wq.Queue → InformerEvent × wq.Queue
  on_notification fs resource_type (object_added obj) (new_event, q) =
      let key = fs.meta_namespace_key obj in
      let event : InformerEvent = record new_event {
        key = key_or_empty key;
        event_type = "create";
        resource_type = resource_type;
      } in
      (event, add_unless key event q)
  on_notification fs resource_type (object_updated before after) (new_event, q) =
      let key = fs.meta_namespace_key before in
      let event : InformerEvent = record new_event {
        key = key_or_empty key;
        event_type = "update";
        resource_type = resource_type;
      } in
      (event, add_unless key event q)
  on_notification fs resource_type (object_deleted obj) (new_event, q) =
      let key = fs.deletion_handling_key obj in
      let event : InformerEvent = record {
        key = key_or_empty key;
        event_type = "delete";
        resource_type = resource_type;
        namespace = (get_object_meta_data obj).namespace;
      } in
      (event, add_unless key event q)

  unfoldable pub on_notifications :
      Keys → String → List Notification → InformerEvent × wq.Queue → InformerEvent × wq.Queue
  on_notifications fs resource_type [] s = s
  on_notifications fs resource_type (n ∷ ns) s =
      on_notifications fs resource_type ns (on_notification fs resource_type n s)

-- `processItem`: its error, and the calls of the event handler. `get_by_key` reads the store of
-- the informer, which has nil for a key it does not have.
unfoldable pub process_item :
    (String → Result Object) → Time → InformerEvent → Option String × List HandlerCall
process_item get_by_key server_start_time e = elim (get_by_key e.key) [
  | err m ↦
      (some (concat ("Error fetching object with key " ∷ e.key ∷ " from store: " ∷ m ∷ [])), [])
  | ok obj ↦
      if e.event_type == "create"
      then if ltb server_start_time (get_object_meta_data obj).creation_timestamp
        then (none, created obj ∷ [])
        else (none, [])
      else if e.event_type == "update"
      then (none, updated obj (record zero_event { kind = e.resource_type; name = e.key }) ∷ [])
      else if e.event_type == "delete"
      then (
        none,
        deleted
              (record zero_event { kind = e.resource_type; name = e.key; namespace = e.namespace })
            ∷ [],
      )
      else (none, [])
]

module _ (wq : WorkQueue) where
  -- What `processNextItem` does with the error of an event.
  unfoldable pub settle : Option String → InformerEvent → wq.Queue → wq.Queue
  settle none e q = wq.forget e q
  settle (some m) e q =
      if ltb (wq.num_requeues q e) max_retries then wq.add_rate_limited e q else wq.forget e q

  -- `processNextItem`: whether to go on, the queue, and the calls of the event handler.
  unfoldable pub process_next_item :
      (InformerEvent → Option String × List HandlerCall)
      → wq.Queue
      → Bool × wq.Queue × List HandlerCall
  process_next_item process q =
      let (next, q') = wq.get q in
      elim next [
        | none ↦ (false, q', [])
        | some e ↦
            let (failure, calls) = process e in (true, wq.done e (settle failure e q'), calls)
      ]
