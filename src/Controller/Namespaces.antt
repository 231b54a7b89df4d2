-- ===== src/Controller/Namespaces.antt =====
-- The namespace of the events in the queue (pkg/controller/controller.go).
use kubewatch.Common.{List, String, [], none, refl, ◌∷◌, ◌≡◌}
use kubewatch.Common.Result.{Result, ok}
use kubewatch.Pod.{Time}
use kubewatch.Objects.{Object, get_object_meta_data, zero_event}
use kubewatch.Controller.{
  InformerEvent, Keys, Notification, WorkQueue, add_unless, deleted, object_added, object_deleted,
  object_updated, on_notification, on_notifications, process_item, zero_informer_event,
}

-- The namespace of the object deleted last, or `before` if none was.
abbrev pub last_deleted : String → List Notification → String
last_deleted before [] = before
last_deleted before (object_added obj ∷ ns) = last_deleted before ns
last_deleted before (object_updated old obj ∷ ns) = last_deleted before ns
last_deleted before (object_deleted obj ∷ ns) = last_deleted (get_object_meta_data obj).namespace ns

module _ (wq : WorkQueue) (fs : Keys) (resource_type : String) where
  on_notifications-namespace :
      (ns : List Notification) (e : InformerEvent) (q : wq.Queue)
      → (on_notifications wq fs resource_type ns (e, q)).0.namespace ≡ last_deleted e.namespace ns
  unfolding on_notifications on_notification
  on_notifications-namespace [] e q = refl
  on_notifications-namespace (object_added obj ∷ ns) e q = on_notifications-namespace ns _ _
  on_notifications-namespace (object_updated old obj ∷ ns) e q = on_notifications-namespace ns _ _
  on_notifications-namespace (object_deleted obj ∷ ns) e q = on_notifications-namespace ns _ _

  -- The event that is queued for an added object after any notifications has the key of the
  -- object, the type create and the kind of the controller, but the namespace of the object that
  -- was deleted last before it, and none if there was none.
  pub on_notification-stale :
      (ns : List Notification) (obj : Object) (q : wq.Queue) {key : String}
      → fs.meta_namespace_key obj ≡ ok key
      → let s = on_notifications wq fs resource_type ns (zero_informer_event, q) in
        (on_notification wq fs resource_type (object_added obj) s).1
        ≡ wq.add
            (record {
              key = key;
              event_type = "create";
              namespace = last_deleted "" ns;
              resource_type = resource_type;
            })
            s.1
  unfolding on_notification add_unless
  on_notification-stale ns obj q {key} h =
      let s = on_notifications wq fs resource_type ns (zero_informer_event, q) in
      rw (on_notification, h, on_notifications-namespace ns zero_informer_event q) refl

  -- Whatever was notified before, the deletion of an object is handled with the key of the object,
  -- the kind of the controller and the namespace in the object's metadata: that is the one event
  -- queued, and where the store answers, processing it makes one call, which says so.
  pub on_notification-deleted :
      (get_by_key : String → Result Object) (start : Time)
      → (ns : List Notification) (obj : Object) (q : wq.Queue) {key : String} {stored : Object}
      → fs.deletion_handling_key obj ≡ ok key
      → get_by_key key ≡ ok stored
      → let s = on_notifications wq fs resource_type ns (zero_informer_event, q) in
        let (e, q') = on_notification wq fs resource_type (object_deleted obj) s in
        (q' ≡ wq.add e s.1)
        × (process_item get_by_key start e ≡ (
          none,
          deleted (record zero_event {
            kind = resource_type;
            name = key;
            namespace = (get_object_meta_data obj).namespace;
          })
              ∷ [],
        ))
  unfolding on_notification add_unless process_item
  on_notification-deleted get_by_key start ns obj q h k =
      rw (on_notification, h) (refl, rw (process_item, k) refl)
