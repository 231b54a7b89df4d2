-- ===== src/Informer/Race/Same.antt =====
-- Starts for one cluster: one after the other, and at once (pkg/informer/K8sInformer.go).
use kubewatch.Common.{
  Has, List, Option, Option-cases, [], ap, arith, contains, false, here, inl, inr, int_eq, lookup,
  lookup-delete_self, lookup-insert_self, nat_eq, none, refl, some, string_eq, suc, sym, there, ℕ,
  ◌∙◌, ◌∷◌, ◌≡◌,
}
use kubewatch.Common.Int.{ℤ}
use kubewatch.Common.Result.{Result-cases, ok}
use kubewatch.Cluster.{Cluster}
use kubewatch.Informer.{
  GoError, K8s, Registry, get_k8s_client_for_cluster, install, note_connecting_error, start_found,
  stop_system_workflow_informer,
}
use kubewatch.Informer.Race.{
  Progress, Turn, advance, begin_start, both_waiting, ended, left_turn, ready, right_turn,
  take_turn, take_turns, waiting,
}
use kubewatch.Informer.Events.Invariant.{Inv, SameChannels-Inv, retire, stop-retire, unmade_open}
use kubewatch.Informer.Events.Start.{SameChannels-trans, note-Same}

-- The turns of two starts where each looks into the map before the other has installed.
abbrev pub interleaved : List Turn
interleaved = left_turn ∷ right_turn ∷ left_turn ∷ right_turn ∷ []

module _ (k8s : K8s) where
  -- What a start makes of a registry if nothing comes between its steps.
  abbrev pub after_start : Option GoError × Registry → Progress × Registry
  after_start (e, r) = (ended e, r)

  abbrev advance_on : Cluster → ℤ → Progress × Registry → Progress × Registry
  advance_on cluster id (p, r) = advance k8s cluster id p r

  -- The two steps of a start, with nothing between them, are the start.
  pub advance-start_found :
      (cluster : Cluster) (id : ℤ) (r : Registry)
      → advance_on cluster id (advance k8s cluster id waiting r)
        ≡ after_start (start_found k8s cluster id r)
  unfolding advance begin_start start_found
  advance-start_found cluster id r =
      let noted = note_connecting_error cluster r in
      elim (Option-cases (lookup id noted.informer_stopper)) [
        | inr (ch, e) ↦ rw (begin_start, start_found, e) refl
        | inl e ↦ elim (Result-cases (get_k8s_client_for_cluster k8s cluster)) [
          | inl (c, f) ↦ rw (begin_start, start_found, e, f) refl
          | inr (m, f) ↦ rw (begin_start, start_found, e, f) refl
        ]
      ]

  begin_free :
      (cluster : Cluster) (id : ℤ) (r : Registry) {client : k8s.Clientset}
      → lookup id r.informer_stopper ≡ none
      → get_k8s_client_for_cluster k8s cluster ≡ ok client
      → begin_start k8s cluster id r ≡ (ready, note_connecting_error cluster r)
  unfolding begin_start
  begin_free cluster id r e f =
      let same : lookup id (note_connecting_error cluster r).informer_stopper ≡ none =
        rw (note-Same cluster r).same_stopper e in
      rw (begin_start, same, f) refl

  interleaved-install :
      (cluster : Cluster) (id : ℤ) (r : Registry) {client : k8s.Clientset}
      → lookup id r.informer_stopper ≡ none
      → get_k8s_client_for_cluster k8s cluster ≡ ok client
      → take_turns k8s cluster id cluster id interleaved (both_waiting r) ≡ record {
        left = ended none;
        right = ended none;
        shared =
            install id
              (install id (note_connecting_error cluster (note_connecting_error cluster r)));
      }
  unfolding take_turns take_turn advance
  interleaved-install cluster id r e f =
      let noted = note_connecting_error cluster r in
      let first = begin_free cluster id r e f in
      let second = begin_free cluster id noted (rw (note-Same cluster r).same_stopper e) f in
      simp (take_turns, take_turn, advance, first, second)

  -- After two installs for one cluster, a stop closes the channel of the second.
  installed_twice :
      (id : ℤ) {n : ℕ} (s : Registry)
      → Inv s
      → s.next_channel ≡ n
      → let t = install id (install id s) in
        Has (id, n) t.started
        × (lookup id t.informer_stopper ≡ some (suc n))
        × (u : Registry) × (stop_system_workflow_informer id t ≡ some u)
        × (lookup id u.informer_stopper ≡ none)
        × Has (id, n) u.started
        × (contains n u.closed ≡ false)
  unfolding install
  installed_twice id {n} s v e =
      let t = install id (install id s) in
      let kept : Has (id, n) t.started = there (here (ap (λ c. (id, c)) (sym e))) in
      let own = lookup-insert_self id (suc s.next_channel) (install id s).informer_stopper in
      (
        kept,
        own ∙ ap (λ c. some (suc c)) e,
        retire id (suc s.next_channel) t,
        stop-retire id t own (unmade_open (suc s.next_channel) v (omega arith)),
        lookup-delete_self id t.informer_stopper,
        kept,
        ground (arith, unmade_open n v (omega (arith, e))),
      )

  -- In a registry with the invariant, two starts for a cluster that has no informer and whose client
  -- can be made, each of which looks into the map before the other installs, both succeed. The
  -- cluster then has two informers and the map the channel of one of them, so a stop of the cluster leaves the other running, with a
  -- channel that is open and that no map has.
  pub take_turns-interleaved :
      (cluster : Cluster) (id : ℤ) {r : Registry} {client : k8s.Clientset}
      → Inv r
      → lookup id r.informer_stopper ≡ none
      → get_k8s_client_for_cluster k8s cluster ≡ ok client
      → let s = take_turns k8s cluster id cluster id interleaved (both_waiting r) in
        (s.left ≡ ended none)
        × (s.right ≡ ended none)
        × Has (id, r.next_channel) s.shared.started
        × (lookup id s.shared.informer_stopper ≡ some (suc r.next_channel))
        × (u : Registry) × (stop_system_workflow_informer id s.shared ≡ some u)
        × (lookup id u.informer_stopper ≡ none)
        × Has (id, r.next_channel) u.started
        × (contains r.next_channel u.closed ≡ false)
  take_turns-interleaved cluster id {r} v e f =
      let same =
        SameChannels-trans (note-Same cluster r)
          (note-Same cluster (note_connecting_error cluster r)) in
      let noted = note_connecting_error cluster (note_connecting_error cluster r) in
      let (kept, own, u, stopped, absent, still, is_open) =
        installed_twice id noted (SameChannels-Inv same v) same.same_next in
      rw (interleaved-install cluster id r e f)
        (refl, refl, kept, own, u, stopped, absent, still, is_open)
