-- ===== src/Tests/ControllerTests.antt =====
-- Runs and instances for the controller (pkg/controller/controller.go).
use kubewatch.Common.{
  Bool-cases, List, Option, String, [], ap, arith, eq_cases, eq_iff, eq_of_ne, eq_self,
  if◌then◌else◌, inl, inr, int_eq, length, nat_eq, none, refl, some, string_eq, subst, suc, sym,
  true, ℕ, ◌++◌, ◌<◌, ◌==◌, ◌↔◌, ◌∙◌, ◌∷◌, ◌≡◌, ◌≢◌, ◌≤◌, ◌⊎◌,
}
use kubewatch.Controller.{
  HandlerCall, InformerEvent, Keys, Notification, WorkQueue, object_added, object_deleted,
  on_notifications, process_item, settle, zero_informer_event,
}
use kubewatch.Controller.Retries.{
  Fails, WorkQueueLaws, count, event_eq, settle-max_retries, settle_all,
}
use kubewatch.Common.Result.{Result, err, ok}
use kubewatch.Objects.{Object, core_pod, nil_object, tombstone}
use kubewatch.Controller.Processing.{IsReported, process_item_lem}

-- A queue: the events that wait, and the requeues of events that were not forgotten.
abbrev Waitlist : Type 0
Waitlist = List InformerEvent × List InformerEvent

abbrev requeues : InformerEvent → List InformerEvent → ℕ
requeues e [] = 0
requeues e (d ∷ ds) = if d == e then suc (requeues e ds) else requeues e ds

abbrev without : InformerEvent → List InformerEvent → List InformerEvent
without e [] = []
without e (d ∷ ds) = if d == e then without e ds else d ∷ without e ds

abbrev next_of : Waitlist → Option InformerEvent × Waitlist
next_of ([], r) = (none, ([], r))
next_of (e ∷ w, r) = (some e, (w, r))

abbrev queue : WorkQueue
queue = record {
  Queue = Waitlist;
  add = λ e q. (q.0 ++ e ∷ [], q.1);
  get = next_of;
  done = λ e q. q;
  forget = λ e q. (q.0, without e q.1);
  add_rate_limited = λ e q. (q.0 ++ e ∷ [], e ∷ q.1);
  num_requeues = λ q e. requeues e q.1;
}

requeues-without : (e : InformerEvent) (ds : List InformerEvent) → requeues e (without e ds) ≡ 0
requeues-without e [] = refl
requeues-without e (d ∷ ds) = elim (Bool-cases (d == e)) [
  | inl p ↦ rw p (requeues-without e ds)
  | inr p ↦ rw (p, p) (requeues-without e ds)
]

requeues-without_other :
    (d e : InformerEvent) (ds : List InformerEvent)
    → d ≢ e
    → requeues e (without d ds) ≡ requeues e ds
requeues-without_other d e [] h = refl
requeues-without_other d e (c ∷ ds) h = elim (eq_cases c d) [
  | inl p ↦
      rw (subst (λ x. (c == x) ≡ true) p (eq_self c))
        (requeues-without_other d e ds h ∙ sym (rw (eq_of_ne c e (λ q. h (sym p ∙ q))) refl))
  | inr p ↦ rw (eq_of_ne c d p) (elim (Bool-cases (c == e)) [
    | inl q ↦ rw q (ap suc (requeues-without_other d e ds h))
    | inr q ↦ rw q (requeues-without_other d e ds h)
  ])
]

got : (e : InformerEvent) (q : Waitlist) → requeues e (next_of q).1.1 ≡ requeues e q.1
got e ([], r) = refl
got e (d ∷ w, r) = refl

queue-WorkQueueLaws : WorkQueueLaws queue
queue-WorkQueueLaws = record {
  requeued = λ e q. rw (eq_self e) refl;
  requeued_other = λ d e q h. rw (eq_of_ne d e h) refl;
  forgotten = λ e q. requeues-without e q.1;
  forgotten_other = λ d e q h. requeues-without_other d e q.1 h;
  got = got;
  done_kept = λ d e q. refl;
}

abbrev pub pod_in : String → String → Object
pod_in name namespace =
    core_pod "node1"
      (record { name = name; namespace = namespace; creation_timestamp = 50; annotations = [] })

abbrev name_key : Object → Result String
name_key (core_pod node meta) = ok meta.name
name_key (tombstone key last) = ok key
name_key _ = err "object has no meta"

abbrev pub key_fs : Keys
key_fs = record { meta_namespace_key = name_key; deletion_handling_key = name_key }

abbrev store : String → Result Object
store key = if key == "b" then ok (pod_in "b" "prod") else ok nil_object

abbrev pub before : List Notification
before = object_added (pod_in "x" "dev") ∷ object_deleted (pod_in "a" "staging") ∷ []

abbrev earlier : InformerEvent × Waitlist
earlier = on_notifications queue key_fs "pod" before (zero_informer_event, ([], []))

abbrev made : InformerEvent
made = record { key = "b"; event_type = "create"; namespace = "staging"; resource_type = "pod" }

process_item_lem_example :
    ((m : String) × (store "b" ≡ err m)
      × ((process_item store 10 made).0 ≢ none)
      × ((process_item store 10 made).1 ≡ []))
    ⊎ ((obj : Object) × (store "b" ≡ ok obj)
        × ((process_item store 10 made).0 ≡ none)
        × (((process_item store 10 made).1 ≢ []) ↔ IsReported 10 obj made)
        × (length (process_item store 10 made).1 ≤ 1))
process_item_lem_example = process_item_lem store 10 made

abbrev failing : InformerEvent → Option String × List HandlerCall
failing e = (some "store is down", [])

two_at_most : (e : InformerEvent) → requeues e (made ∷ made ∷ []) ≤ 5
two_at_most e = ground arith

abbrev other : InformerEvent
other = record made { key = "c" }

abbrev history : List (InformerEvent × Option String)
history =
    (made, some "down")
    ∷ (other, none)
    ∷ (made, some "down")
    ∷ (made, some "down")
    ∷ (made, some "down")
    ∷ (made, some "down")
    ∷ []

ap_key : other ≢ made
ap_key p = let q : "c" ≡ "b" = ap (λ e. e.key) p in ground (arith, eq_iff "c" "b", q)

history-Fails : Fails made history
history-Fails = (
  (λ p q. cc q),
  (
    (λ p q. absurd (ap_key p)),
    ((λ p q. cc q), ((λ p q. cc q), ((λ p q. cc q), ((λ p q. cc q), tt)))),
  ),
)

settle-max_retries_example :
    let s = settle_all queue history (made ∷ [], []) in
    (count made history < 5 → settle queue (some "down") made s ≡ (s.0 ++ made ∷ [], made ∷ s.1))
    × (count made history ≡ 5
        → (settle queue (some "down") made s ≡ (s.0, without made s.1))
          × (requeues made (settle queue (some "down") made s).1 ≡ 0))
settle-max_retries_example =
    settle-max_retries queue queue-WorkQueueLaws made history (made ∷ [], []) "down" refl
      history-Fails
