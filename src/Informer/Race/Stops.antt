-- ===== src/Informer/Race/Stops.antt =====
-- Two goroutines that stop informers at once: the shutdown's loop, and the handler of a secret.
-- `stopSystemWorkflowInformer` looks into the map, closes the channel, and deletes the key, and the
-- mutex of `K8sInformerImpl` is never locked, so these steps interleave
-- (pkg/informer/K8sInformer.go).
pub mod Twice
pub mod Safe
use kubewatch.Common.{
  Option, Option-cases, delete, inl, inr, int_eq, lookup, nat_eq, none, refl, some, string_eq, ℕ,
  ◌≡◌,
}
use kubewatch.Common.Int.{ℤ}
use kubewatch.Informer.{Registry, close, stop_system_workflow_informer}

-- How far a stop is.
pub data Stopping : Type 0 where
  at_lookup : Stopping
  at_close : ℕ → Stopping
  at_delete : Stopping
  stopped : Stopping
  panicked : Stopping

-- The next step of a stop.
unfoldable pub stop_step : ℤ → Stopping → Registry → Stopping × Registry
stop_step id at_lookup r = elim (lookup id r.informer_stopper) [
  | none ↦ (stopped, r)
  | some stopper ↦ (at_close stopper, r)
]
stop_step id (at_close stopper) r = elim (close stopper r) [
  | none ↦ (panicked, r)
  | some r' ↦ (at_delete, r')
]
stop_step id at_delete r = (stopped, record r { informer_stopper = delete id r.informer_stopper })
stop_step id stopped r = (stopped, r)
stop_step id panicked r = (panicked, r)

-- Two stops that run at once, and the registry that they share.
pub record TwoStops : Type 0 where
  pub left : Stopping
  pub right : Stopping
  pub shared : Registry

abbrev pub both_at_lookup : Registry → TwoStops
both_at_lookup r = record { left = at_lookup; right = at_lookup; shared = r }

module _ (i j : ℤ) where
  unfoldable pub left_step : TwoStops → TwoStops
  left_step s = let (p, r) = stop_step i s.left s.shared in record s { left = p; shared = r }

  unfoldable pub right_step : TwoStops → TwoStops
  right_step s = let (p, r) = stop_step j s.right s.shared in record s { right = p; shared = r }

  -- The states that two stops come to, whichever makes each step.
  pub data Reaches (from : TwoStops) : TwoStops → Type 0 where
    stay : Reaches from from
    by_left : {s : TwoStops} → Reaches from s → Reaches from (left_step s)
    by_right : {s : TwoStops} → Reaches from s → Reaches from (right_step s)

-- What a stop comes to if nothing runs between its steps.
abbrev pub outcome : Option Registry → Registry → Stopping × Registry
outcome none r = (panicked, r)
outcome (some s) r = (stopped, s)

abbrev pub stop_step_on : ℤ → Stopping × Registry → Stopping × Registry
stop_step_on id (p, r) = stop_step id p r

-- The three steps of a stop, with nothing between them, are the stop.
pub stop_step-stop_system_workflow_informer :
    (id : ℤ) (r : Registry)
    → stop_step_on id (stop_step_on id (stop_step id at_lookup r))
      ≡ outcome (stop_system_workflow_informer id r) r
unfolding stop_step stop_system_workflow_informer
stop_step-stop_system_workflow_informer id r = elim (Option-cases (lookup id r.informer_stopper)) [
  | inl e ↦ rw (stop_step, stop_system_workflow_informer, e) refl
  | inr (ch, e) ↦ elim (Option-cases (close ch r)) [
    | inl f ↦ rw (stop_step, stop_system_workflow_informer, e, f) refl
    | inr (s, f) ↦ rw (stop_step, stop_system_workflow_informer, e, f) refl
  ]
]
