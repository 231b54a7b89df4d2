-- ===== src/Informer/Events/Shutdown.antt =====
-- The shutdown of all informers (`StopAllSystemWorkflowInformer` of pkg/informer/K8sInformer.go).
use kubewatch.Common.{
  Bool-cases, Has, List, Option-cases, [], contains, here, inl, inr, int_eq, keys, lookup,
  lookup-delete_absent, lookup-delete_self, lookup-keys, nat_eq, none, refl, some, some_eq,
  string_eq, subst, sym, there, true, ℕ, ◌∙◌, ◌∷◌, ◌≡◌,
}
use kubewatch.Common.Int.{ℤ}
use kubewatch.Informer.{
  Registry, stop_all_system_workflow_informer, stop_each, stop_system_workflow_informer,
}
use kubewatch.Informer.Events.Invariant.{Inv, retire, retire-Inv, stop-absent, stop-retire}

-- What a stop leaves alone.
record Stopped (r s : Registry) : Type 0 where
  same_started : s.started ≡ r.started
  same_watching : s.watching ≡ r.watching
  still_absent : (a : ℤ) → lookup a r.informer_stopper ≡ none → lookup a s.informer_stopper ≡ none

stop-Stopped :
    (id : ℤ) {r : Registry}
    → Inv r
    → (s : Registry) × (stop_system_workflow_informer id r ≡ some s)
      × Inv s
      × Stopped r s
      × (lookup id s.informer_stopper ≡ none)
stop-Stopped id {r} v = elim (Option-cases (lookup id r.informer_stopper)) [
  | inl e ↦ (
    r,
    stop-absent id r e,
    v,
    record { same_started = refl; same_watching = refl; still_absent = λ a h. h },
    e,
  )
  | inr (ch, e) ↦ (
    retire id ch r,
    stop-retire id r e (v.stopper_open id e),
    retire-Inv id ch e v,
    record {
      same_started = refl;
      same_watching = refl;
      still_absent = λ a h. lookup-delete_absent id a r.informer_stopper h;
    },
    lookup-delete_self id r.informer_stopper,
  )
]

Stopped-trans : {r s t : Registry} → Stopped r s → Stopped s t → Stopped r t
Stopped-trans p q = record {
  same_started = q.same_started ∙ p.same_started;
  same_watching = q.same_watching ∙ p.same_watching;
  still_absent = λ a h. q.still_absent a (p.still_absent a h);
}

absent_all :
    (s t : Registry) (id : ℤ) (ids : List ℤ)
    → lookup id s.informer_stopper ≡ none
    → Stopped s t
    → ((a : ℤ) → Has a ids → lookup a t.informer_stopper ≡ none)
    → (a : ℤ) → Has a (id ∷ ids)
    → lookup a t.informer_stopper ≡ none
absent_all s t id ids gone q rest a (here p) =
    subst (λ i. lookup i t.informer_stopper ≡ none) (sym p) (q.still_absent id gone)
absent_all s t id ids gone q rest a (there h) = rest a h

stop_each-Stopped :
    (ids : List ℤ) {r : Registry}
    → Inv r
    → (s : Registry) × (stop_each ids r ≡ some s)
      × Inv s
      × Stopped r s
      × ((a : ℤ) → Has a ids → lookup a s.informer_stopper ≡ none)
unfolding stop_each
stop_each-Stopped [] {r} v = (
  r,
  refl,
  v,
  record { same_started = refl; same_watching = refl; still_absent = λ a h. h },
  λ a h. elim h [ ],
)
stop_each-Stopped (id ∷ ids) {r} v =
    let (s, e, vs, p, gone) = stop-Stopped id v in
    let (t, f, vt, q, rest) = stop_each-Stopped ids vs in
    (t, rw (stop_each, e) f, vt, Stopped-trans p q, absent_all s t id ids gone q rest)

-- A key was in the map, and then in the list of keys, or it was not.
emptied :
    (key_order : List ℤ → List ℤ)
    → ((ids : List ℤ) (id : ℤ) → Has id ids → Has id (key_order ids))
    → (r s : Registry) → Stopped r s
    → ((a : ℤ) → Has a (key_order (keys r.informer_stopper)) → lookup a s.informer_stopper ≡ none)
    → (id : ℤ) → lookup id s.informer_stopper ≡ none
emptied key_order complete r s p gone id = elim (Option-cases (lookup id r.informer_stopper)) [
  | inl e ↦ p.still_absent id e
  | inr (ch, e) ↦
      gone id (complete (keys r.informer_stopper) id (lookup-keys id r.informer_stopper e))
]

pub stop_all-Inv :
    (key_order : List ℤ → List ℤ) {r s : Registry}
    → Inv r
    → stop_all_system_workflow_informer key_order r ≡ some s
    → Inv s
unfolding stop_all_system_workflow_informer
stop_all-Inv key_order {r} v h =
    let (s, e, vs, p, gone) = stop_each-Stopped (key_order (keys r.informer_stopper)) v in
    subst Inv (some_eq (sym e ∙ h)) vs

-- From a registry with the invariant, and in any order that leaves no key out, the shutdown does
-- not panic: it closes the channel of every informer that was started and empties the map. The
-- informer of cluster secrets is left as it is.
pub stop_all_lem :
    (key_order : List ℤ → List ℤ)
    → ((ids : List ℤ) (id : ℤ) → Has id ids → Has id (key_order ids))
    → {r : Registry} → Inv r
    → (s : Registry) × (stop_all_system_workflow_informer key_order r ≡ some s)
      × (s.started ≡ r.started)
      × ((id : ℤ) (ch : ℕ) → Has (id, ch) s.started → contains ch s.closed ≡ true)
      × ((id : ℤ) → lookup id s.informer_stopper ≡ none)
      × (s.watching ≡ r.watching)
unfolding stop_all_system_workflow_informer
stop_all_lem key_order complete {r} v =
    let (s, e, vs, p, gone) = stop_each-Stopped (key_order (keys r.informer_stopper)) v in
    let empty = λ (id : ℤ). emptied key_order complete r s p gone id in
    (
      s,
      e,
      p.same_started,
      λ id ch h. elim (Bool-cases (contains ch s.closed)) [
        | inl c ↦ c
        | inr c ↦ cc (empty id, vs.registered id h c)
      ],
      empty,
      p.same_watching,
    )
