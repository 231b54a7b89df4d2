-- ===== src/Controller/Taken.antt =====
-- When the worker takes an event that waits, whatever comes between its steps
-- (pkg/controller/controller.go).
use mathlib.Core.List.{head-eq_of_cons-eq, tail-eq_of_cons-eq, append_assoc, append-nil}
use kubewatch.Common.{
  Bool, List, Option, String, [], ap, arith, false, length, length-append, refl, sym, true, ℕ, ◌++◌,
  ◌+◌, ◌∙◌, ◌∷◌, ◌≡◌, ◌≤◌,
}
use kubewatch.Controller.{HandlerCall, InformerEvent, Keys, WorkQueue}
use kubewatch.Controller.Queue.{
  QueueLaws, Run, System, Worker, at, calls_at, finished, idle, notified, requeued, stay, took,
  working,
}
use kubewatch.Controller.Pending.{
  Grown-Place, Place, add-Grown, add_dirty_kept, finish_item-Grown, finish_item-pending,
  length-Grown, on_notification-Grown, on_notification-dirty,
}

-- The steps of the worker until it has taken an event with so many ahead of it.
abbrev pub steps_to : Worker → ℕ → ℕ
steps_to idle n = n + n + 1
steps_to (working d) n = n + n + 2

-- Some calls were made after others, and those of an event are among them.
pub record Made (own calls after : List HandlerCall) : Type 0 where
  pub earlier : List HandlerCall
  pub later : List HandlerCall
  pub made : after ≡ calls ++ (earlier ++ (own ++ later))

Made-more :
    (own calls new after : List HandlerCall) → Made own (calls ++ new) after → Made own calls after
Made-more own calls new after m = record {
  earlier = new ++ m.earlier;
  later = m.later;
  made =
      m.made
      ∙ append_assoc calls new (m.earlier ++ (own ++ m.later))
      ∙ ap (λ l. calls ++ l) (sym (append_assoc new m.earlier (own ++ m.later)));
}

-- So many steps of the worker are enough for an event that was just added, given whether it is busy,
-- how many events wait, and how many additions come.
abbrev pub steps_enough : Bool → ℕ → ℕ → ℕ
steps_enough true n a = n + a + (n + a) + 2
steps_enough false n a = n + n

pub steps_to-near :
    (w : Worker) (e : InformerEvent) (es : List InformerEvent) (p : Place e es) {k : ℕ}
    → steps_enough false (length es) 0 ≤ k
    → steps_to w (length p.ahead) ≤ k
steps_to-near idle e es p b =
    omega (arith, b, ap (λ l. length l) p.here_it_is, length-append p.ahead (e ∷ p.behind))
steps_to-near (working d) e es p b =
    omega (arith, b, ap (λ l. length l) p.here_it_is, length-append p.ahead (e ∷ p.behind))

module _ (wq : WorkQueue) (process : InformerEvent → Option String × List HandlerCall)
    (laws : QueueLaws wq) (fs : Keys) (resource_type : String) where
  calls_kept :
      {a k : ℕ} {s t : System wq process}
      → Run wq process laws fs resource_type a k s t
      → (new : List HandlerCall) × (calls_at wq process t ≡ calls_at wq process s ++ new)
  calls_kept (stay {s = s}) = ([], sym (append-nil (calls_at wq process s)))
  calls_kept (notified n r) = calls_kept r
  calls_kept (requeued d r) = calls_kept r
  calls_kept (took {calls = calls} e es p r) =
      let (new, h) = calls_kept r in
      ((process e).1 ++ new, h ∙ append_assoc calls (process e).1 new)
  calls_kept (finished e r) = calls_kept r

  -- An event that waits is taken after those ahead of it, whatever is added meanwhile.
  pub waits-Made :
      {a k : ℕ} {w : Worker} {s : InformerEvent × wq.Queue} {calls : List HandlerCall}
      {t : System wq process}
      → Run wq process laws fs resource_type a k (at w s calls) t
      → (e : InformerEvent) (ahead behind : List InformerEvent)
      → laws.pending s.1 ≡ ahead ++ e ∷ behind
      → steps_to w (length ahead) ≤ k
      → Made (process e).1 calls (calls_at wq process t)
  waits-Made (stay {s = at idle s calls}) e ahead behind h b = absurd (omega (arith, b))
  waits-Made (stay {s = at (working d) s calls}) e ahead behind h b = absurd (omega (arith, b))
  waits-Made (notified {s = s} n r) e ahead behind h b =
      let (rest, p) =
        Grown-Place e ahead behind (on_notification-Grown wq process laws fs resource_type n s) h in
      waits-Made r e ahead rest p b
  waits-Made (requeued {q = q} d r) e ahead behind h b =
      let (rest, p) =
        Grown-Place e ahead behind (add-Grown wq process laws fs resource_type d q) h in
      waits-Made r e ahead rest p b
  waits-Made (took {q = q} {calls = calls} {t = t} d ds p r) e [] behind h b =
      let first : d ≡ e = head-eq_of_cons-eq (sym p ∙ h) in
      let (new, k) = calls_kept r in
      record {
        earlier = [];
        later = new;
        made =
            k
            ∙ append_assoc calls (process d).1 new
            ∙ ap (λ x. calls ++ ((process x).1 ++ new)) first;
      }
  waits-Made (took {q = q} {calls = calls} d ds p r) e (x ∷ ahead) behind h b =
      let rest = (laws.get_next d ds q p).1 ∙ tail-eq_of_cons-eq (sym p ∙ h) in
      Made-more (process e).1 calls (process d).1 _
        (waits-Made r e ahead behind rest (omega (arith, b)))
  waits-Made (finished {q = q} d r) e ahead behind h b =
      let (rest, p) =
        Grown-Place e ahead behind (finish_item-Grown wq process laws fs resource_type d q) h in
      waits-Made r e ahead rest p (omega (arith, b))

  -- An event that was added while it was processed waits again after that, behind the others.
  pub again-Made :
      {a k : ℕ} {s : InformerEvent × wq.Queue} {calls : List HandlerCall} {t : System wq process}
      {e : InformerEvent}
      → Run wq process laws fs resource_type a k (at (working e) s calls) t
      → laws.dirty s.1 e ≡ true
      → steps_enough true (length (laws.pending s.1)) a ≤ k
      → Made (process e).1 calls (calls_at wq process t)
  again-Made (stay {s = at w s calls}) d b = absurd (omega (arith, b))
  again-Made {e = e} (notified {s = s} n r) d b =
      let grown = length-Grown (on_notification-Grown wq process laws fs resource_type n s) in
      again-Made r (on_notification-dirty wq process laws fs resource_type n e s d)
        (omega (arith, grown, b))
  again-Made {e = e} (requeued {q = q} x r) d b =
      let grown = length-Grown (add-Grown wq process laws fs resource_type x q) in
      again-Made r (add_dirty_kept wq process laws fs resource_type x e q d)
        (omega (arith, grown, b))
  again-Made (finished {q = q} e r) d b =
      waits-Made r e (laws.pending q) []
        (finish_item-pending wq process laws fs resource_type e q ∙ rw d refl) (omega (arith, b))
