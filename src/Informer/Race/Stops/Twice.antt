-- ===== src/Informer/Race/Stops/Twice.antt =====
-- Stops of one cluster: one after the other, and at once (pkg/informer/K8sInformer.go).
use kubewatch.Common.{
  contains, eq_self, false, int_eq, lookup, lookup-delete_self, nat_eq, some, string_eq, true, ℕ,
  ◌==◌, ◌≡◌,
}
use kubewatch.Common.Int.{ℤ}
use kubewatch.Informer.Events.Invariant.{Inv, retire, stop-absent, stop-retire}
use kubewatch.Informer.{Registry, close, stop_system_workflow_informer}
use kubewatch.Informer.Race.Stops.{
  Reaches, TwoStops, at_close, both_at_lookup, by_left, by_right, left_step, panicked, right_step,
  stay, stop_step,
}

-- The state where both have seen the channel.
abbrev both_at_close : ℕ → Registry → TwoStops
both_at_close ch r = record { left = at_close ch; right = at_close ch; shared = r }

both_found :
    (id : ℤ) {ch : ℕ} (r : Registry)
    → lookup id r.informer_stopper ≡ some ch
    → right_step id id (left_step id id (both_at_lookup r)) ≡ both_at_close ch r
unfolding left_step right_step stop_step
both_found id r e = simp (left_step, right_step, stop_step, e)

-- The first closes the channel, and the second panics on it.
close_twice :
    (id : ℤ) (ch : ℕ) (r : Registry)
    → contains ch r.closed ≡ false
    → (right_step id id (left_step id id (both_at_close ch r))).right ≡ panicked
unfolding left_step right_step stop_step close
close_twice id ch r o =
    let self : (ch == ch) ≡ true = eq_self ch in
    simp (left_step, right_step, stop_step, close, o, self)

-- From a registry with the invariant that has an informer for a cluster, two stops of this cluster
-- that run at once come to a state where one of them panics, as it closes a channel that the other
-- has closed. One after the other they do not panic, and the second changes nothing.
pub stops_panicked :
    (id : ℤ) {ch : ℕ} {r : Registry}
    → Inv r
    → lookup id r.informer_stopper ≡ some ch
    → ((s : TwoStops) × Reaches id id (both_at_lookup r) s × (s.right ≡ panicked))
      × ((t : Registry) × (stop_system_workflow_informer id r ≡ some t)
          × (stop_system_workflow_informer id t ≡ some t))
stops_panicked id {ch} {r} v e =
    let found = both_found id r e in
    let is_open = v.stopper_open id e in
    (
      (
        right_step id id (left_step id id (right_step id id (left_step id id (both_at_lookup r)))),
        by_right (by_left (by_right (by_left stay))),
        rw found (close_twice id ch r is_open),
      ),
      (
        retire id ch r,
        stop-retire id r e is_open,
        stop-absent id (retire id ch r) (lookup-delete_self id r.informer_stopper),
      ),
    )
