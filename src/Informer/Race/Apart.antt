-- ===== src/Informer/Race/Apart.antt =====
-- Starts for two clusters, in any order of their steps (pkg/informer/K8sInformer.go).
use kubewatch.Common.{
  List, Option-cases, [], inl, inr, int_eq, lookup, lookup-insert_ne, nat_eq, none, string_eq, sym,
  ◌∙◌, ◌∷◌, ◌≡◌, ◌≢◌,
}
use kubewatch.Common.Int.{ℤ}
use kubewatch.Common.Result.{Result-cases}
use kubewatch.Cluster.{Cluster}
use kubewatch.Informer.{K8s, Registry, get_k8s_client_for_cluster, install, note_connecting_error}
use kubewatch.Informer.Race.{
  Both, Progress, Turn, advance, begin_start, ended, left_turn, ready, right_turn, take_turn,
  take_turns, waiting,
}
use kubewatch.Informer.Events.Invariant.{Inv, SameChannels, SameChannels-Inv, install-Inv}
use kubewatch.Informer.Events.Start.{SameChannels-trans, errors_new-Same, inc-Same, note-Same}

-- A start that is about to install its informer found none for its cluster.
abbrev pub IsFree : Progress → ℤ → Registry → Type 0
IsFree ready id r = lookup id r.informer_stopper ≡ none
IsFree waiting id r = Unit
IsFree (ended e) id r = Unit

IsFree-kept :
    (p : Progress) (id : ℤ) (r s : Registry)
    → (lookup id r.informer_stopper ≡ none → lookup id s.informer_stopper ≡ none)
    → IsFree p id r
    → IsFree p id s
IsFree-kept ready id r s f h = f h
IsFree-kept waiting id r s f h = tt
IsFree-kept (ended e) id r s f h = tt

module _ (k8s : K8s) where
  -- What the first part of a start leaves.
  record Begun (id : ℤ) (r : Registry) (after : Progress × Registry) : Type 0 where
    same : SameChannels r after.1
    free : IsFree after.0 id after.1

  begin_start-Begun :
      (cluster : Cluster) (id : ℤ) (r : Registry) → Begun id r (begin_start k8s cluster id r)
  unfolding begin_start
  begin_start-Begun cluster id r =
      let noted = note_connecting_error cluster r in
      let same = note-Same cluster r in
      elim (Option-cases (lookup id noted.informer_stopper)) [
        | inr (ch, e) ↦
            rw (begin_start, e)
              (record { same = SameChannels-trans same (errors_new-Same _ noted); free = tt })
        | inl e ↦ elim (Result-cases (get_k8s_client_for_cluster k8s cluster)) [
          | inl (c, f) ↦ rw (begin_start, e, f) (record { same = same; free = e })
          | inr (m, f) ↦
              rw (begin_start, e, f)
                (record { same = SameChannels-trans same (inc-Same _ _ noted); free = tt })
        ]
      ]

  -- A step of a start keeps the invariant, and installs nothing for another cluster.
  advance-Inv :
      (cluster : Cluster) (id : ℤ) (p : Progress) (r : Registry)
      → Inv r
      → IsFree p id r
      → let (p', r') = advance k8s cluster id p r in
        Inv r'
        × IsFree p' id r'
        × ((a : ℤ)
            → id ≢ a
            → lookup a r.informer_stopper ≡ none
            → lookup a r'.informer_stopper ≡ none)
  unfolding advance install
  advance-Inv cluster id waiting r v h =
      let b = begin_start-Begun cluster id r in
      (SameChannels-Inv b.same v, b.free, λ a d e. rw b.same.same_stopper e)
  advance-Inv cluster id ready r v h = (
    install-Inv id h v,
    tt,
    λ a d e. lookup-insert_ne id a r.next_channel r.informer_stopper d ∙ e,
  )
  advance-Inv cluster id (ended e) r v h = (v, tt, λ a d f. f)

  -- For two clusters, whatever the order of the steps of their starts, the invariant of the
  -- registry is kept, from any point of both where a start that is about to install an informer has
  -- found none.
  pub take_turns-Inv :
      (a b : Cluster) (i j : ℤ)
      → i ≢ j
      → (turns : List Turn) (s : Both) → Inv s.shared
      → IsFree s.left i s.shared
      → IsFree s.right j s.shared
      → Inv (take_turns k8s a i b j turns s).shared
  unfolding take_turns take_turn
  take_turns-Inv a b i j d [] s v f g = v
  take_turns-Inv a b i j d (left_turn ∷ turns) s v f g =
      let (v', f', others) = advance-Inv a i s.left s.shared v f in
      take_turns-Inv a b i j d turns (take_turn k8s a i b j left_turn s) v' f'
        (IsFree-kept s.right j s.shared _ (others j d) g)
  take_turns-Inv a b i j d (right_turn ∷ turns) s v f g =
      let (v', g', others) = advance-Inv b j s.right s.shared v g in
      take_turns-Inv a b i j d turns (take_turn k8s a i b j right_turn s) v'
        (IsFree-kept s.left i s.shared _ (others i (λ p. d (sym p))) f) g'
