-- ===== src/Tests/WorkerTests.antt =====
-- A queue that can be shut down, and instances for the loop of the worker and for what it tells Slack
-- (pkg/controller/controller.go, pkg/handlers/slack/slack.go).
use kubewatch.Common.{
  Bool, Bool-cases, Eq, Has, List, Option, String, [], ap, arith, contains, contains-Has, eq_iff,
  false, if◌then◌else◌, inl, inr, int_eq, length, nat_eq, none, not, refl, some, string_eq, subst,
  true, ℕ, ◌&&◌, ◌++◌, ◌==◌, ◌||◌, ◌∙◌, ◌∷◌, ◌≡◌, ◌≢◌, ◌≤◌,
}
use kubewatch.Controller.{
  HandlerCall, InformerEvent, Notification, WorkQueue, add_unless, deleted, object_added,
  object_deleted, on_notification, process_item, zero_informer_event,
}
use kubewatch.Tests.ControllerTests.{key_fs, pod_in}
use kubewatch.Tests.HandlerTests.{ops}
use kubewatch.Handlers.Notices.{notice}
use kubewatch.Handlers.Delivery.{object_deleted-posted, posted}
use kubewatch.Objects.{Object, get_object_meta_data, nil_object, zero_event}
use kubewatch.Common.Result.{Result, ok}
use kubewatch.Controller.Worker.{UpLaws}
use kubewatch.Controller.Queue.{QueueLaws, Run, at, finish_item, finished, idle, stay, took}
use kubewatch.Controller.Retries.{event_eq}
use kubewatch.Controller.Taken.{steps_enough}

-- The events that wait, and whether the queue is shut down. An event that arrives while the worker
-- waits is the resync of a key.
abbrev Line : Type 0
Line = List InformerEvent × Bool

abbrev resync : InformerEvent
resync = record { key = "a"; event_type = "update"; namespace = ""; resource_type = "pod" }

abbrev next_in_line : Line → Option InformerEvent × Line
next_in_line (e ∷ es, down) = (some e, (es, down))
next_in_line ([], true) = (none, ([], true))
next_in_line ([], false) = (some resync, ([], false))

abbrev put : InformerEvent → Line → Line
put e (es, true) = (es, true)
put e (es, false) = (es ++ e ∷ [], false)

abbrev line_queue : WorkQueue
line_queue = record {
  Queue = Line;
  add = put;
  get = next_in_line;
  done = λ e q. q;
  forget = λ e q. q;
  add_rate_limited = put;
  num_requeues = λ q e. 0;
}

abbrev close_line : Line → Line
close_line q = (q.0, true)

waits : (q : Line) → q.1 ≡ false → (next_in_line q).0 ≢ none
waits (e ∷ es, down) h = λ p. cc
waits ([], false) h = λ p. cc
waits ([], true) h = λ p. cc (h)

put_down : (e : InformerEvent) (q : Line) → (put e q).1 ≡ q.1
put_down e (es, true) = refl
put_down e (es, false) = refl

get_down : (q : Line) → (next_in_line q).1.1 ≡ q.1
get_down (e ∷ es, down) = refl
get_down ([], true) = refl
get_down ([], false) = refl

abbrev line_queue_laws : UpLaws line_queue close_line
line_queue_laws = record {
  is_down = λ q. q.1;
  up_get = waits;
  get_down = get_down;
  requeue_down = put_down;
  forget_down = λ e q. refl;
  done_down = λ e q. refl;
  shut_down_down = λ q. refl;
}

-- Processing fails, but tells the handler of the key.
abbrev telling : InformerEvent → Option String × List HandlerCall
telling e = (some "failed", deleted (record zero_event { name = e.key }) ∷ [])

-- A queue of client-go: the events that wait, those that are processed, and those of them that were
-- added again.
record Desk : Type 0 where
  waiting : List InformerEvent
  processing : InformerEvent → Bool
  again : InformerEvent → Bool

abbrev desk_dirty : Desk → InformerEvent → Bool
desk_dirty q e = contains ⦃e = event_eq⦄ e q.waiting || (q.processing e && q.again e)

abbrev desk_add : InformerEvent → Desk → Desk
desk_add e q =
    if desk_dirty q e
    then q
    else if q.processing e
    then record q { again = λ d. e == d || q.again d }
    else record q { waiting = q.waiting ++ e ∷ [] }

abbrev desk_take : List InformerEvent → Desk → Option InformerEvent × Desk
desk_take [] q = (none, q)
desk_take (e ∷ es) q = (
  some e,
  record {
    waiting = es;
    processing = λ d. e == d || q.processing d;
    again = λ d. not (e == d) && q.again d;
  },
)

abbrev desk_done : InformerEvent → Desk → Desk
desk_done e q = record q {
  waiting = if desk_dirty q e then q.waiting ++ e ∷ [] else q.waiting;
  processing = λ d. not (e == d) && q.processing d;
}

-- Each addition with a rate limit comes as an addition of its own.
abbrev desk : WorkQueue
desk = record {
  Queue = Desk;
  add = desk_add;
  get = λ q. desk_take q.waiting q;
  done = desk_done;
  forget = λ e q. q;
  add_rate_limited = λ e q. q;
  num_requeues = λ q e. 0;
}

or_swap : (a b c : Bool) → (a || (b || c)) ≡ (b || (a || c))
or_swap a b c = ground arith

or_known : (a b : Bool) → (a ≡ true → b ≡ true) → b ≡ (a || b)
or_known true b h = h refl
or_known false b h = refl

or_again :
    (a b c d : Bool) → (a ≡ true → c ≡ true) → (b || (c && (a || d))) ≡ (a || (b || (c && d)))
or_again true true c d h = refl
or_again true false c d h = rw (h refl) refl
or_again false b c d h = refl

or_assoc : (a b c : Bool) → ((a || b) || c) ≡ (a || (b || c))
or_assoc a b c = ground arith

contains-snoc {ℓ} :
    {A : Type ℓ} ⦃e : Eq A⦄ (a b : A) (xs : List A)
    → contains a (xs ++ b ∷ []) ≡ (b == a || contains a xs)
contains-snoc a b [] = refl
contains-snoc a b (x ∷ xs) = rw (contains-snoc a b xs) (or_swap (x == a) (b == a) (contains a xs))

same_event : (e d : InformerEvent) → (e == d) ≡ true → e ≡ d
same_event e d h = (event_eq.equals_iff e d).0 h

desk_marks :
    (e d : InformerEvent) (q : Desk) → desk_dirty (desk_add e q) d ≡ (e == d || desk_dirty q d)
desk_marks e d q = elim (Bool-cases (desk_dirty q e)) [
  | inl p ↦ rw p (
      or_known (e == d) (desk_dirty q d)
        (λ h. subst (λ x. desk_dirty q x ≡ true) (same_event e d h) p))
  | inr p ↦ elim (Bool-cases (q.processing e)) [
    | inl r ↦
        rw (p, r)
          (or_again (e == d) (contains ⦃e = event_eq⦄ d q.waiting) (q.processing d) (q.again d)
            (λ h. subst (λ x. q.processing x ≡ true) (same_event e d h) r))
    | inr r ↦
        rw (p, r)
          (ap (λ b. b || (q.processing d && q.again d)) (contains-snoc ⦃e = event_eq⦄ d e q.waiting)
            ∙ or_assoc (e == d) (contains ⦃e = event_eq⦄ d q.waiting) (q.processing d && q.again d))
  ]
]

desk_waits :
    (e : InformerEvent) (q : Desk)
    → desk_dirty q e ≡ true
    → q.processing e ≡ false
    → Has e q.waiting
desk_waits e q h b =
    contains-Has ⦃e = event_eq⦄ e q.waiting
      (or_of_false (contains ⦃e = event_eq⦄ e q.waiting) (q.processing e) (q.again e) h b)
  where
    or_of_false : (a b c : Bool) → (a || (b && c)) ≡ true → b ≡ false → a ≡ true
    or_of_false true b c h k = refl
    or_of_false false b c h k = absurd (cc (rw k at h))

desk_place :
    (e : InformerEvent) (q : Desk)
    → desk_dirty q e ≡ false
    → (desk_add e q).waiting ≡ (if q.processing e then q.waiting else q.waiting ++ e ∷ [])
desk_place e q h = elim (Bool-cases (q.processing e)) [
  | inl r ↦ rw (h, r) refl
  | inr r ↦ rw (h, r) refl
]

desk_busy : (e d : InformerEvent) (q : Desk) → (desk_add e q).processing d ≡ q.processing d
desk_busy e d q = elim (Bool-cases (desk_dirty q e)) [
  | inl p ↦ rw p refl
  | inr p ↦ elim (Bool-cases (q.processing e)) [ inl r ↦ rw (p, r) refl | inr r ↦ rw (p, r) refl ]
]

desk_next :
    (e : InformerEvent) (es : List InformerEvent) (q : Desk)
    → q.waiting ≡ e ∷ es
    → ((desk.get q).0 ≡ some e)
      × ((desk.get q).1.waiting ≡ es)
      × ((d : InformerEvent) → (desk.get q).1.processing d ≡ (e == d || q.processing d))
desk_next e es q h = rw h (refl, refl, λ d. refl)

abbrev desk_laws : QueueLaws desk
desk_laws = record {
  pending = λ q. q.waiting;
  dirty = desk_dirty;
  busy = λ q e. q.processing e;
  dirty_waits = desk_waits;
  add_dirty = λ e q h. rw h refl;
  add_clean = desk_place;
  add_marks = desk_marks;
  add_busy = desk_busy;
  get_next = desk_next;
  done_again = λ e q. refl;
  done_busy = λ e d q. refl;
  forget_pending = λ e q. refl;
  forget_dirty = λ e d q. refl;
  forget_busy = λ e d q. refl;
  requeue_pending = λ e q. refl;
  requeue_dirty = λ e d q. refl;
  requeue_busy = λ e d q. refl;
}

kept : {n : ℕ} → n ≡ 2 → n ≤ 2
kept h = omega (arith, h)

abbrev empty_desk : Desk
empty_desk = record { waiting = []; processing = λ e. false; again = λ e. false }

abbrev seen : Notification
seen = object_added (pod_in "a" "prod")

abbrev told : InformerEvent × Desk
told = on_notification desk key_fs "pod" seen (zero_informer_event, empty_desk)

abbrev taken : InformerEvent × Desk
taken = (told.0, (desk.get told.1).1)

abbrev told_again : InformerEvent × Desk
told_again = on_notification desk key_fs "pod" seen taken

abbrev taken_again : InformerEvent × Desk
taken_again = (told_again.0, (desk.get (finish_item desk telling told.0 told_again.1)).1)

-- The store has nil for every key: the object is gone.
abbrev emptied : String → Result Object
emptied key = ok nil_object

abbrev gone : Object
gone = pod_in "b" "prod"

abbrev kind : String
kind = "pod"

pod_is_not_namespace : kind ≢ "namespace"
pod_is_not_namespace = λ p. ground (arith, eq_iff kind "namespace", p)

pod_is_not_event : kind ≢ "Event"
pod_is_not_event = λ p. ground (arith, eq_iff kind "Event", p)

abbrev deletion : InformerEvent × Desk
deletion = on_notification desk key_fs "pod" (object_deleted gone) (zero_informer_event, empty_desk)

abbrev processing_it : List HandlerCall
processing_it = (process_item emptied 10 deletion.0).1

abbrev processed : InformerEvent × Desk
processed =
    (deletion.0, finish_item desk (process_item emptied 10) deletion.0 (desk.get deletion.1).1)

processing :
    Run desk
      (process_item emptied 10)
      desk_laws
      key_fs
      "pod"
      0
      2
      (at idle deletion [])
      (at idle processed processing_it)
unfolding on_notification add_unless
processing = took deletion.0 [] refl (finished deletion.0 stay)

enough_steps : steps_enough (desk_laws.busy deletion.1 deletion.0) (length deletion.1.waiting) 0 ≤ 2
unfolding on_notification add_unless
enough_steps = kept refl

object_deleted-posted_example :
    (xs ys : List (List (List String × String))) × (posted ops processing_it
      ≡ xs
        ++ (notice "pod" (get_object_meta_data gone).namespace "deleted" "b" "danger" ∷ [] ++ ys))
object_deleted-posted_example =
    object_deleted-posted desk key_fs "pod" emptied 10 desk_laws ops gone (λ d. refl) stay refl refl
      pod_is_not_namespace pod_is_not_event processing enough_steps
