-- ===== src/Controller/Retries.antt =====
-- How often an event is tried (pkg/controller/controller.go).
use kubewatch.Common.{
  All, Bool, Eq, List, Option, Option-cases, String, [], arith, eq_cases, eq_iff, eq_of_ne,
  if◌then◌else◌, inl, inr, int_eq, nat_eq, none, refl, some, string_eq, subst, suc, sym, true, ℕ,
  ◌&&◌, ◌+◌, ◌<◌, ◌==◌, ◌↔◌, ◌∷◌, ◌≡◌, ◌≢◌, ◌≤◌,
}
use kubewatch.Controller.{
  HandlerCall, InformerEvent, WorkQueue, max_retries, process_next_item, settle,
}

-- What client-go documents of the rate limiter of its queue: it counts the requeues of each item,
-- and `Forget` takes the count back.
pub record WorkQueueLaws (wq : WorkQueue) : Type 0 where
  pub requeued :
      (e : InformerEvent) (q : wq.Queue)
      → wq.num_requeues (wq.add_rate_limited e q) e ≡ suc (wq.num_requeues q e)
  pub requeued_other :
      (d e : InformerEvent) (q : wq.Queue)
      → d ≢ e
      → wq.num_requeues (wq.add_rate_limited d q) e ≡ wq.num_requeues q e
  pub forgotten : (e : InformerEvent) (q : wq.Queue) → wq.num_requeues (wq.forget e q) e ≡ 0
  pub forgotten_other :
      (d e : InformerEvent) (q : wq.Queue)
      → d ≢ e
      → wq.num_requeues (wq.forget d q) e ≡ wq.num_requeues q e
  pub got :
      (e : InformerEvent) (q : wq.Queue) → wq.num_requeues (wq.get q).1 e ≡ wq.num_requeues q e
  pub done_kept :
      (d e : InformerEvent) (q : wq.Queue) → wq.num_requeues (wq.done d q) e ≡ wq.num_requeues q e

abbrev event_beq : InformerEvent → InformerEvent → Bool
event_beq a b =
    a.key == b.key
    && a.event_type == b.event_type
    && a.namespace == b.namespace
    && a.resource_type == b.resource_type

abbrev same_event :
    (a b : InformerEvent)
    → a.key ≡ b.key
    → a.event_type ≡ b.event_type
    → a.namespace ≡ b.namespace
    → a.resource_type ≡ b.resource_type
    → a ≡ b
same_event a b k t n r =
    λ i. record { key = k i; event_type = t i; namespace = n i; resource_type = r i }

-- The comparison says yes exactly where the four fields agree.
abbrev event_beq_fields :
    (a b : InformerEvent)
    → (event_beq a b ≡ true) ↔ (
        (a.key ≡ b.key)
        × (a.event_type ≡ b.event_type)
        × (a.namespace ≡ b.namespace)
        × (a.resource_type ≡ b.resource_type))
event_beq_fields a b = ground (
  arith,
  eq_iff a.key b.key,
  eq_iff a.event_type b.event_type,
  eq_iff a.namespace b.namespace,
  eq_iff a.resource_type b.resource_type,
)

abbrev event_beq_iff : (a b : InformerEvent) → (event_beq a b ≡ true) ↔ (a ≡ b)
event_beq_iff a b = (
  λ h. let (k, t, n, r) = (event_beq_fields a b).0 h in same_event a b k t n r,
  λ p. subst (λ x. event_beq a x ≡ true) p ((event_beq_fields a a).1 (refl, refl, refl, refl)),
)

-- `==` on events.
instance abbrev pub event_eq : Eq InformerEvent
event_eq = record { equals = event_beq; equals_iff = event_beq_iff }

-- Events that were processed one after another, with their errors.
unfoldable pub settle_all :
    (wq : WorkQueue) → List (InformerEvent × Option String) → wq.Queue → wq.Queue
settle_all wq [] q = q
settle_all wq ((e, failure) ∷ rest) q = settle_all wq rest (settle wq failure e q)

abbrev pub count : InformerEvent → List (InformerEvent × Option String) → ℕ
count e [] = 0
count e ((d, failure) ∷ rest) = if d == e then suc (count e rest) else count e rest

count_other :
    (d e : InformerEvent) (failure : Option String) (rest : List (InformerEvent × Option String))
    → d ≢ e
    → count e ((d, failure) ∷ rest) ≡ count e rest
count_other d e failure rest p = rw (eq_of_ne d e p) refl

count_self :
    (d e : InformerEvent) (failure : Option String) (rest : List (InformerEvent × Option String))
    → d ≡ e
    → count e ((d, failure) ∷ rest) ≡ suc (count e rest)
count_self d e failure rest p = rw ((event_beq_iff d e).1 p) refl

-- Each time that the event was processed, it failed.
abbrev pub Fails : InformerEvent → List (InformerEvent × Option String) → Type 0
Fails e = All (λ p. p.0 ≡ e → p.1 ≢ none)

module _ (wq : WorkQueue) (laws : WorkQueueLaws wq) where
  settle_other :
      (failure : Option String) (d e : InformerEvent) (q : wq.Queue)
      → d ≢ e
      → wq.num_requeues (settle wq failure d q) e ≡ wq.num_requeues q e
  unfolding settle
  settle_other none d e q h = laws.forgotten_other d e q h
  settle_other (some m) d e q h =
      ground (arith, laws.forgotten_other d e q h, laws.requeued_other d e q h)

  settle_self :
      (failure : Option String) (e : InformerEvent) (q : wq.Queue)
      → wq.num_requeues q e ≤ max_retries
      → wq.num_requeues (settle wq failure e q) e ≤ max_retries
  unfolding settle
  settle_self none e q h = omega (arith, laws.forgotten e q)
  settle_self (some m) e q h = ground (arith, laws.forgotten e q, laws.requeued e q)

  -- No event is ever requeued more than five times in a row: if that holds of all events, it holds
  -- after the next one is processed, whatever that does.
  pub process_next_item-max_retries :
      (process : InformerEvent → Option String × List HandlerCall) (q : wq.Queue)
      → ((e : InformerEvent) → wq.num_requeues q e ≤ max_retries)
      → (e : InformerEvent) → wq.num_requeues (process_next_item wq process q).1 e ≤ max_retries
  unfolding process_next_item
  process_next_item-max_retries process q h e = elim (Option-cases (wq.get q).0) [
    | inl g ↦ rw (process_next_item, g, laws.got e q) (h e)
    | inr (d, g) ↦
        let failure = (process d).0 in
        let q' = (wq.get q).1 in
        let got : wq.num_requeues q' e ≡ wq.num_requeues q e = laws.got e q in
        rw (process_next_item, g, laws.done_kept d e (settle wq failure d q'))
          (elim (eq_cases d e) [
            | inl p ↦
                subst (λ x. wq.num_requeues (settle wq failure x q') e ≤ max_retries) (sym p)
                  (settle_self failure e q' (rw got (h e)))
            | inr p ↦ rw (settle_other failure d e q' p, got) (h e)
          ])
  ]

  failed_num :
      (failure : Option String) (e : InformerEvent) (q : wq.Queue)
      → failure ≢ none
      → wq.num_requeues q e < max_retries
      → wq.num_requeues (settle wq failure e q) e ≡ suc (wq.num_requeues q e)
  unfolding settle
  failed_num none e q f h = absurd (f refl)
  failed_num (some m) e q f h = ground (arith, laws.requeued e q)

  num_of_failures :
      (e : InformerEvent) (history : List (InformerEvent × Option String)) (q : wq.Queue)
      → Fails e history
      → wq.num_requeues q e + count e history ≤ max_retries
      → wq.num_requeues (settle_all wq history q) e ≡ wq.num_requeues q e + count e history
  unfolding settle_all
  num_of_failures e [] q f h = omega arith
  num_of_failures e ((d, failure) ∷ rest) q (f, fs) h =
      let q' = settle wq failure d q in
      let later = num_of_failures e rest q' fs in
      elim (eq_cases d e) [
        | inr p ↦
            let kept = settle_other failure d e q p in
            let c = count_other d e failure rest p in
            omega (arith, kept, c, h, later (omega (arith, kept, c, h)))
        | inl p ↦
            let c = count_self d e failure rest p in
            let n : wq.num_requeues q' e ≡ suc (wq.num_requeues q e) =
              subst (λ x. wq.num_requeues (settle wq failure x q) e ≡ suc (wq.num_requeues q e))
                (sym p) (failed_num failure e q (f p) (omega (arith, c, h))) in
            omega (arith, n, c, h, later (omega (arith, n, c, h)))
      ]

  -- An event that was never requeued and fails each time it is processed, with other events
  -- between, is requeued after each of the first five failures, and after the sixth it is given
  -- up: the queue forgets it, and counts it from 0 again.
  pub settle-max_retries :
      (e : InformerEvent) (history : List (InformerEvent × Option String)) (q : wq.Queue)
      (m : String)
      → wq.num_requeues q e ≡ 0
      → Fails e history
      → let s = settle_all wq history q in
        (count e history < max_retries → settle wq (some m) e s ≡ wq.add_rate_limited e s)
        × (count e history ≡ max_retries
            → (settle wq (some m) e s ≡ wq.forget e s)
              × (wq.num_requeues (settle wq (some m) e s) e ≡ 0))
  unfolding settle
  settle-max_retries e history q m z f =
      let s = settle_all wq history q in
      (
        λ h.
            let n : wq.num_requeues s e ≡ count e history =
              omega (arith, z, num_of_failures e history q f (omega arith)) in
            ground (arith, n),
        λ h.
            let n : wq.num_requeues s e ≡ count e history =
              omega (arith, z, num_of_failures e history q f (omega arith)) in
            ground (arith, n, laws.forgotten e s),
      )
