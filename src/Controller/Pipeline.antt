-- ===== src/Controller/Pipeline.antt =====
-- From what an informer reports to the calls of the event handler, through the queue and the worker
-- (pkg/controller/controller.go).
use kubewatch.Common.{
  Bool, Bool-cases, List, Option, String, [], ap, arith, eq_cases, eq_of_ne, eq_self, false, inl,
  inr, int_eq, length, nat_eq, none, not, refl, some, string_eq, subst, sym, true, ℕ, ◌&&◌, ◌==◌,
  ◌∙◌, ◌∷◌, ◌≡◌, ◌≢◌, ◌≤◌,
}
use kubewatch.Common.Result.{Result, err, ok}
use kubewatch.Controller.{
  HandlerCall, InformerEvent, Keys, Notification, WorkQueue, add_unless, key_or_empty, object_added,
  object_deleted, object_updated, on_notification, settle,
}
use kubewatch.Controller.Queue.{
  QueueLaws, Run, System, Worker, at, calls_at, finish_item, finished, idle, notified, requeued,
  stay, took, working,
}
use kubewatch.Controller.Pending.{Has-Place}
use kubewatch.Controller.Retries.{event_eq}
use kubewatch.Controller.Taken.{Made, again-Made, steps_enough, steps_to-near, waits-Made}

-- The key of the object of a notification.
abbrev pub key_of : Keys → Notification → Result String
key_of fs (object_added obj) = fs.meta_namespace_key obj
key_of fs (object_updated before after) = fs.meta_namespace_key before
key_of fs (object_deleted obj) = fs.deletion_handling_key obj

working_eq : {d e : InformerEvent} → working d ≡ working e → d ≡ e
working_eq h = cc

and_true : (b c : Bool) → (b && c) ≡ true → (b ≡ true) × (c ≡ true)
and_true b c h = ground arith

not_self : (d e : InformerEvent) → not (d == e) ≡ true → d ≢ e
not_self d e h p = cc (h, subst (λ x. (d == x) ≡ true) p (eq_self d))

module _ (wq : WorkQueue) (process : InformerEvent → Option String × List HandlerCall)
    (laws : QueueLaws wq) (fs : Keys) (resource_type : String) where
  -- The worker is at each event that is busy.
  abbrev IsAlone : Worker → wq.Queue → Type 0
  IsAlone w q = (d : InformerEvent) → laws.busy q d ≡ true → w ≡ working d

  -- What holds when the event of a notification was added.
  record Added (w : Worker) (s : InformerEvent × wq.Queue) (key : String) : Type 0 where
    is_dirty : laws.dirty s.1 s.0 ≡ true
    alone : IsAlone w s.1
    has_key : s.0.key ≡ key

  add-Added :
      (w : Worker) (ev : InformerEvent) (q : wq.Queue) {given : Result String} {key : String}
      → given ≡ ok key
      → ev.key ≡ key_or_empty given
      → IsAlone w q
      → Added w (ev, add_unless wq given ev q) key
  unfolding add_unless
  add-Added w ev q {given} {key} h n alone =
      subst (λ g. Added w (ev, add_unless wq g ev q) key) (sym h)
        (record {
          is_dirty = laws.add_marks ev ev q ∙ rw (eq_self ev) refl;
          alone = λ d b. alone d (sym (laws.add_busy ev d q) ∙ b);
          has_key = n ∙ ap key_or_empty h;
        })

  on_notification-Added :
      (w : Worker) (n : Notification) (s : InformerEvent × wq.Queue) {key : String}
      → key_of fs n ≡ ok key
      → IsAlone w s.1
      → Added w (on_notification wq fs resource_type n s) key
  unfolding on_notification
  on_notification-Added w (object_added obj) (ev, q) h alone = add-Added w _ q h refl alone
  on_notification-Added w (object_updated before after) (ev, q) h alone =
      add-Added w _ q h refl alone
  on_notification-Added w (object_deleted obj) (ev, q) h alone = add-Added w _ q h refl alone

  abbrev IsAloneAt : System wq process → Type 0
  IsAloneAt (at w s calls) = IsAlone w s.1

  add_unless-busy :
      (given : Result String) (e d : InformerEvent) (q : wq.Queue)
      → laws.busy (add_unless wq given e q) d ≡ laws.busy q d
  unfolding add_unless
  add_unless-busy (ok key) e d q = laws.add_busy e d q
  add_unless-busy (err m) e d q = refl

  on_notification-busy :
      (n : Notification) (d : InformerEvent) (s : InformerEvent × wq.Queue)
      → laws.busy (on_notification wq fs resource_type n s).1 d ≡ laws.busy s.1 d
  unfolding on_notification
  on_notification-busy (object_added obj) d (ev, q) =
      add_unless-busy (fs.meta_namespace_key obj) _ d q
  on_notification-busy (object_updated before after) d (ev, q) =
      add_unless-busy (fs.meta_namespace_key before) _ d q
  on_notification-busy (object_deleted obj) d (ev, q) =
      add_unless-busy (fs.deletion_handling_key obj) _ d q

  settle-busy :
      (failure : Option String) (e d : InformerEvent) (q : wq.Queue)
      → laws.busy (settle wq failure e q) d ≡ laws.busy q d
  unfolding settle
  settle-busy none e d q = laws.forget_busy e d q
  settle-busy (some m) e d q = ground (arith, laws.forget_busy e d q, laws.requeue_busy e d q)

  took-IsAlone :
      (e : InformerEvent) (es : List InformerEvent) (q : wq.Queue)
      → laws.pending q ≡ e ∷ es
      → IsAlone idle q
      → IsAlone (working e) (wq.get q).1
  took-IsAlone e es q p alone d b = elim (eq_cases ⦃e = event_eq⦄ e d) [
    | inl h ↦ ap working h
    | inr h ↦
        let other : laws.busy (wq.get q).1 d ≡ laws.busy q d =
          (laws.get_next e es q p).2 d ∙ rw (eq_of_ne e d h) refl in
        cc (alone d (sym other ∙ b))
  ]

  finished-IsAlone :
      (e : InformerEvent) (q : wq.Queue)
      → IsAlone (working e) q
      → IsAlone idle (finish_item wq process e q)
  unfolding finish_item
  finished-IsAlone e q alone d b =
      let after = settle wq (process e).0 e q in
      let (other, busy_still) =
        and_true (not (e == d)) (laws.busy after d) (sym (laws.done_busy e d after) ∙ b) in
      let same : e ≡ d =
        working_eq (alone d (sym (settle-busy (process e).0 e d q) ∙ busy_still)) in
      absurd (not_self e d other same)

  Run-IsAlone :
      {a k : ℕ} {s t : System wq process}
      → Run wq process laws fs resource_type a k s t
      → IsAloneAt s
      → IsAloneAt t
  Run-IsAlone stay h = h
  Run-IsAlone (notified {s = s} n r) h =
      Run-IsAlone r (λ d b. h d (sym (on_notification-busy n d s) ∙ b))
  Run-IsAlone (requeued {q = q} x r) h = Run-IsAlone r (λ d b. h d (sym (laws.add_busy x d q) ∙ b))
  Run-IsAlone (took {q = q} e es p r) h = Run-IsAlone r (took-IsAlone e es q p h)
  Run-IsAlone (finished {q = q} e r) h = Run-IsAlone r (finished-IsAlone e q h)

  pub on_notification-Made :
      {a b j k : ℕ} {ev : InformerEvent} {q : wq.Queue} {w : Worker} {s : InformerEvent × wq.Queue}
      {calls : List HandlerCall} {t : System wq process} (n : Notification) {key : String}
      → ((d : InformerEvent) → laws.busy q d ≡ false)
      → Run wq process laws fs resource_type b j (at idle (ev, q) []) (at w s calls)
      → key_of fs n ≡ ok key
      → let (e, q') = on_notification wq fs resource_type n s in
        Run wq process laws fs resource_type a k (at w (e, q') calls) t
        → steps_enough (laws.busy q' e) (length (laws.pending q')) a ≤ k
        → (e.key ≡ key) × Made (process e).1 calls (calls_at wq process t)
  on_notification-Made {a = a} {k = k} {w = w} {s = s} {calls = calls} {t = t} n quiet before h
        after enough =
      let alone = Run-IsAlone before (λ d b. cc (quiet d, b)) in
      let added = on_notification-Added w n s h alone in
      let (e, q') = on_notification wq fs resource_type n s in
      (
        added.has_key,
        elim (Bool-cases (laws.busy q' e)) [
          | inl b ↦
              again-Made wq process laws fs resource_type
                (subst (λ x. Run wq process laws fs resource_type a k (at x (e, q') calls) t)
                  (added.alone e b) after)
                added.is_dirty
                (subst (λ x. steps_enough x (length (laws.pending q')) a ≤ k) b enough)
          | inr b ↦
              let p = Has-Place e (laws.pending q') (laws.dirty_waits e q' added.is_dirty b) in
              waits-Made wq process laws fs resource_type after e p.ahead p.behind p.here_it_is (
                steps_to-near w e (laws.pending q') p
                  (subst (λ x. steps_enough x (length (laws.pending q')) a ≤ k) b enough))
        ],
      )
