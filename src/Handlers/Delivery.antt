-- ===== src/Handlers/Delivery.antt =====
-- From the deletion of an object to the text in Slack (pkg/controller/controller.go,
-- pkg/event/event.go, pkg/handlers/slack/slack.go).
use mathlib.Core.List.{map-append}
use kubewatch.Common.{
  List, String, [], ap, false, length, map, refl, ℕ, ◌++◌, ◌∙◌, ◌∷◌, ◌≡◌, ◌≢◌, ◌≤◌,
}
use kubewatch.Common.Result.{Result, ok}
use kubewatch.Pod.{Time}
use kubewatch.Objects.{Object, get_object_meta_data}
use kubewatch.Controller.{
  HandlerCall, InformerEvent, Keys, WorkQueue, key_or_empty, object_deleted, on_notification,
  process_item,
}
use kubewatch.Controller.Queue.{QueueLaws, Run, System, Worker, at, calls_at, idle}
use kubewatch.Controller.Pipeline.{on_notification-Made}
use kubewatch.Handlers.Slack.{SlackHandler}
use kubewatch.Handlers.Notices.{notice, slack_call, slack_call-process_item, texts_of}
use kubewatch.Controller.Taken.{steps_enough}

-- The texts of the posts that some calls make.
abbrev pub posted : SlackHandler → List HandlerCall → List (List (List String × String))
posted slack calls = map (λ call. texts_of (slack_call slack call).attachments) calls

posted-among :
    (slack : SlackHandler) (xs ys own zs : List HandlerCall)
    → posted slack (xs ++ (ys ++ (own ++ zs)))
      ≡ posted slack xs ++ (posted slack ys ++ (posted slack own ++ posted slack zs))
posted-among slack xs ys own zs =
    let texts : HandlerCall → List (List String × String) =
      λ call. texts_of (slack_call slack call).attachments in
    map-append texts xs (ys ++ (own ++ zs))
    ∙ ap (λ l. map texts xs ++ l)
        (map-append texts ys (own ++ zs) ∙ ap (λ l. map texts ys ++ l) (map-append texts own zs))

module _ (wq : WorkQueue) (fs : Keys) (resource_type : String) (get_by_key : String → Result Object)
    (start : Time) (laws : QueueLaws wq) (slack : SlackHandler) where
  deletion_posted :
      (obj : Object) (t : InformerEvent × wq.Queue) {key : String} {stored : Object}
      → fs.deletion_handling_key obj ≡ ok key
      → get_by_key key ≡ ok stored
      → resource_type ≢ "namespace"
      → resource_type ≢ "Event"
      → let e = (on_notification wq fs resource_type (object_deleted obj) t).0 in
        posted slack (process_item get_by_key start e).1
        ≡ notice resource_type (get_object_meta_data obj).namespace "deleted" key "danger" ∷ []
  unfolding on_notification
  deletion_posted obj t {key} h k not_namespace not_event =
      let e = (on_notification wq fs resource_type (object_deleted obj) t).0 in
      let named : e.key ≡ key = ap key_or_empty h in
      (slack_call-process_item slack get_by_key start e (ap get_by_key named ∙ k) not_namespace
          not_event).1
        refl
      ∙ ap
          (λ name.
            notice resource_type (get_object_meta_data obj).namespace "deleted" name "danger" ∷ [])
          named

  -- Where the informer of a kind that is neither namespace nor Event reports the deletion of an
  -- object whose key can be made, the queue is up, and the store answers for that key, let the worker
  -- run, with any additions before and after, from a queue where no event is processed. Once it has
  -- made two steps for each event that waits after the report (where the same event was processed at
  -- that moment: two also for each addition since, and two more), then among the posts in Slack
  -- since the report is one that says that an object of that kind and key, in the namespace of its
  -- metadata, has been deleted.
  pub object_deleted-posted :
      {a b j k : ℕ} {ev : InformerEvent} {q : wq.Queue} {w : Worker} {s : InformerEvent × wq.Queue}
      {calls : List HandlerCall} {t : System wq (process_item get_by_key start)} (obj : Object)
      {key : String} {stored : Object}
      → ((d : InformerEvent) → laws.busy q d ≡ false)
      → Run wq
          (process_item get_by_key start)
          laws
          fs
          resource_type
          b
          j
          (at idle (ev, q) [])
          (at w s calls)
      → fs.deletion_handling_key obj ≡ ok key
      → get_by_key key ≡ ok stored
      → resource_type ≢ "namespace"
      → resource_type ≢ "Event"
      → let s' = on_notification wq fs resource_type (object_deleted obj) s in
        Run wq (process_item get_by_key start) laws fs resource_type a k (at w s' calls) t
        → steps_enough (laws.busy s'.1 s'.0) (length (laws.pending s'.1)) a ≤ k
        → (xs ys : List (List (List String × String))) × (posted slack
              (calls_at wq (process_item get_by_key start) t)
            ≡ posted slack calls
              ++ (xs
                  ++ (notice resource_type
                          (get_object_meta_data obj).namespace
                          "deleted"
                          key
                          "danger"
                        ∷ []
                      ++ ys)))
  object_deleted-posted {s = s} {calls = calls} obj quiet before h stored not_namespace not_event
        after enough =
      let process = process_item get_by_key start in
      let m =
        (on_notification-Made wq process laws fs resource_type (object_deleted obj) quiet before h
          after enough).1 in
      let own = (process (on_notification wq fs resource_type (object_deleted obj) s).0).1 in
      (
        posted slack m.earlier,
        posted slack m.later,
        ap (posted slack) m.made
            ∙ posted-among slack calls m.earlier own m.later
            ∙ ap
                (λ l. posted slack calls ++ (posted slack m.earlier ++ (l ++ posted slack m.later)))
                (deletion_posted obj s h stored not_namespace not_event),
      )
