-- ===== src/Informer/Race.antt =====
-- Two goroutines that start informers at once: the loop over all clusters, and the handler of a
-- secret. The mutex of `K8sInformerImpl` is never locked, so the steps of two starts interleave
-- (pkg/informer/K8sInformer.go).
pub mod Same
pub mod Apart
pub mod Stops
use kubewatch.Common.{
  List, Option, [], int_eq, lookup, nat_eq, none, some, sprint_int, string_eq, ◌∷◌,
}
use kubewatch.Common.Int.{ℤ}
use kubewatch.Common.Result.{err, ok}
use kubewatch.Cluster.{Cluster}
use kubewatch.Informer.{
  GoError, K8s, Registry, errors_new, foreign, get_k8s_client_for_cluster,
  inc_un_unreachable_cluster, informer_already_exist_message, install, note_connecting_error,
}

-- How far a start is: before the look into the map, with a client for the cluster, or at its end.
pub data Progress : Type 0 where
  waiting : Progress
  ready : Progress
  ended : Option GoError → Progress

-- Two starts that run at once, and the registry that they share.
pub record Both : Type 0 where
  pub left : Progress
  pub right : Progress
  pub shared : Registry

-- Which of the two makes the next step.
pub data Turn : Type 0 where
  left_turn : Turn
  right_turn : Turn

module _ (k8s : K8s) where
  -- The first part of a start, up to the client of the cluster.
  unfoldable pub begin_start : Cluster → ℤ → Registry → Progress × Registry
  begin_start cluster id given =
      let r = note_connecting_error cluster given in
      elim (lookup id r.informer_stopper) [
        | some stopper ↦
            let (e, r') = errors_new informer_already_exist_message r in (ended (some e), r')
        | none ↦ elim (get_k8s_client_for_cluster k8s cluster) [
          | err e ↦ (
            ended (some (foreign e)),
            inc_un_unreachable_cluster cluster.cluster_name (sprint_int cluster.id) r,
          )
          | ok client ↦ (ready, r)
        ]
      ]

  -- The next step of a start: its first part, or the last lines.
  unfoldable pub advance : Cluster → ℤ → Progress → Registry → Progress × Registry
  advance cluster id waiting r = begin_start cluster id r
  advance cluster id ready r = (ended none, install id r)
  advance cluster id (ended e) r = (ended e, r)

  module _ (a : Cluster) (i : ℤ) (b : Cluster) (j : ℤ) where
    unfoldable pub take_turn : Turn → Both → Both
    take_turn left_turn s =
        let (p, r) = advance a i s.left s.shared in record s { left = p; shared = r }
    take_turn right_turn s =
        let (p, r) = advance b j s.right s.shared in record s { right = p; shared = r }

    unfoldable pub take_turns : List Turn → Both → Both
    take_turns [] s = s
    take_turns (turn ∷ turns) s = take_turns turns (take_turn turn s)

abbrev pub both_waiting : Registry → Both
both_waiting r = record { left = waiting; right = waiting; shared = r }
