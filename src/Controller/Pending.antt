-- ===== src/Controller/Pending.antt =====
-- How the list of the events that wait changes (pkg/controller/controller.go).
use mathlib.Core.List.{append_assoc}
use kubewatch.Common.{
  Bool-cases, Has, List, Option, String, [], ap, ap₂, arith, here, if◌then◌else◌, inl, inr, length,
  length-append, none, refl, some, sym, there, true, ◌++◌, ◌+◌, ◌∙◌, ◌∷◌, ◌≡◌, ◌≤◌,
}
use kubewatch.Common.Result.{Result, err, ok}
use kubewatch.Controller.{
  HandlerCall, InformerEvent, Keys, Notification, WorkQueue, add_unless, object_added,
  object_deleted, object_updated, on_notification, settle,
}
use kubewatch.Controller.Queue.{QueueLaws, finish_item}

-- The event stands in the list, after some and before the others.
pub record Place (e : InformerEvent) (es : List InformerEvent) : Type 0 where
  pub ahead : List InformerEvent
  pub behind : List InformerEvent
  pub here_it_is : es ≡ ahead ++ e ∷ behind

pub Has-Place : (e : InformerEvent) (es : List InformerEvent) → Has e es → Place e es
Has-Place e [] h = elim h [ ]
Has-Place e (d ∷ es) (here p) = record {
  ahead = [];
  behind = es;
  here_it_is = ap (λ x. x ∷ es) (sym p);
}
Has-Place e (d ∷ es) (there h) =
    let p = Has-Place e es h in
    record { ahead = d ∷ p.ahead; behind = p.behind; here_it_is = ap (λ l. d ∷ l) p.here_it_is }

-- The list is as it was, or has one event more at its end.
pub data Grown (es fs : List InformerEvent) : Type 0 where
  same : fs ≡ es → Grown es fs
  longer : (d : InformerEvent) → fs ≡ es ++ d ∷ [] → Grown es fs

pub Grown-Place :
    (e : InformerEvent) (ahead behind : List InformerEvent) {es fs : List InformerEvent}
    → Grown es fs
    → es ≡ ahead ++ e ∷ behind
    → (rest : List InformerEvent) × (fs ≡ ahead ++ e ∷ rest)
Grown-Place e ahead behind (same p) h = (behind, p ∙ h)
Grown-Place e ahead behind (longer d p) h =
    (behind ++ d ∷ [], p ∙ ap (λ l. l ++ d ∷ []) h ∙ append_assoc ahead (e ∷ behind) (d ∷ []))

pub length-Grown : {es fs : List InformerEvent} → Grown es fs → length fs ≤ length es + 1
length-Grown (same p) = omega (arith, ap (λ l. length l) p)
length-Grown {es} (longer d p) = omega (arith, ap (λ l. length l) p, length-append es (d ∷ []))

module _ (wq : WorkQueue) (process : InformerEvent → Option String × List HandlerCall)
    (laws : QueueLaws wq) (fs : Keys) (resource_type : String) where
  pub add-Grown :
      (d : InformerEvent) (q : wq.Queue) → Grown (laws.pending q) (laws.pending (wq.add d q))
  add-Grown d q = elim (Bool-cases (laws.dirty q d)) [
    | inl c ↦ same (ap laws.pending (laws.add_dirty d q c))
    | inr c ↦ elim (Bool-cases (laws.busy q d)) [
      | inl b ↦ same (laws.add_clean d q c ∙ rw b refl)
      | inr b ↦ longer d (laws.add_clean d q c ∙ rw b refl)
    ]
  ]

  add_unless-Grown :
      (key : Result String) (d : InformerEvent) (q : wq.Queue)
      → Grown (laws.pending q) (laws.pending (add_unless wq key d q))
  unfolding add_unless
  add_unless-Grown (ok key) d q = add-Grown d q
  add_unless-Grown (err m) d q = same refl

  pub on_notification-Grown :
      (n : Notification) (s : InformerEvent × wq.Queue)
      → Grown (laws.pending s.1) (laws.pending (on_notification wq fs resource_type n s).1)
  unfolding on_notification
  on_notification-Grown (object_added obj) (ev, q) =
      add_unless-Grown (fs.meta_namespace_key obj) _ q
  on_notification-Grown (object_updated before after) (ev, q) =
      add_unless-Grown (fs.meta_namespace_key before) _ q
  on_notification-Grown (object_deleted obj) (ev, q) =
      add_unless-Grown (fs.deletion_handling_key obj) _ q

  -- An addition leaves no event clean that was dirty.
  pub add_dirty_kept :
      (d e : InformerEvent) (q : wq.Queue)
      → laws.dirty q e ≡ true
      → laws.dirty (wq.add d q) e ≡ true
  add_dirty_kept d e q h = ground (arith, laws.add_marks d e q)

  add_unless-dirty :
      (key : Result String) (d e : InformerEvent) (q : wq.Queue)
      → laws.dirty q e ≡ true
      → laws.dirty (add_unless wq key d q) e ≡ true
  unfolding add_unless
  add_unless-dirty (ok key) d e q h = add_dirty_kept d e q h
  add_unless-dirty (err m) d e q h = h

  pub on_notification-dirty :
      (n : Notification) (e : InformerEvent) (s : InformerEvent × wq.Queue)
      → laws.dirty s.1 e ≡ true
      → laws.dirty (on_notification wq fs resource_type n s).1 e ≡ true
  unfolding on_notification
  on_notification-dirty (object_added obj) e (ev, q) h =
      add_unless-dirty (fs.meta_namespace_key obj) _ e q h
  on_notification-dirty (object_updated before after) e (ev, q) h =
      add_unless-dirty (fs.meta_namespace_key before) _ e q h
  on_notification-dirty (object_deleted obj) e (ev, q) h =
      add_unless-dirty (fs.deletion_handling_key obj) _ e q h

  settle-pending :
      (failure : Option String) (e : InformerEvent) (q : wq.Queue)
      → laws.pending (settle wq failure e q) ≡ laws.pending q
  unfolding settle
  settle-pending none e q = laws.forget_pending e q
  settle-pending (some m) e q = ground (arith, laws.forget_pending e q, laws.requeue_pending e q)

  settle-dirty :
      (failure : Option String) (e d : InformerEvent) (q : wq.Queue)
      → laws.dirty (settle wq failure e q) d ≡ laws.dirty q d
  unfolding settle
  settle-dirty none e d q = laws.forget_dirty e d q
  settle-dirty (some m) e d q = ground (arith, laws.forget_dirty e d q, laws.requeue_dirty e d q)

  -- An event that is dirty at its `Done` waits again.
  pub finish_item-pending :
      (e : InformerEvent) (q : wq.Queue)
      → laws.pending (finish_item wq process e q)
        ≡ (if laws.dirty q e then laws.pending q ++ e ∷ [] else laws.pending q)
  unfolding finish_item
  finish_item-pending e q =
      laws.done_again e (settle wq (process e).0 e q)
      ∙ ap₂ (λ b l. if b then l ++ e ∷ [] else l) (settle-dirty (process e).0 e e q)
          (settle-pending (process e).0 e q)

  pub finish_item-Grown :
      (e : InformerEvent) (q : wq.Queue)
      → Grown (laws.pending q) (laws.pending (finish_item wq process e q))
  finish_item-Grown e q = elim (Bool-cases (laws.dirty q e)) [
    | inl c ↦ longer e (finish_item-pending e q ∙ rw c refl)
    | inr c ↦ same (finish_item-pending e q ∙ rw c refl)
  ]
