-- ===== src/Pod/Times.antt =====
-- When a pod finished: `getLatestFinishedAt` of pkg/informer/K8sInformer.go. The clock is read
-- once for each running container; `now k` is the k-th reading.
use kubewatch.Common.{
  All, Bool-cases, Has, List, Option, [], arith, false, here, if◌then◌else◌, inl, inr, ltb, none,
  refl, some, subst, suc, sym, there, true, ℕ, ◌++◌, ◌∙◌, ◌∷◌, ◌≡◌, ◌≤◌, ◌⊎◌,
}
use kubewatch.Pod.{ContainerStatus, Pod, Terminated, Time}

-- `else if t := ctr.State.Terminated; t != nil && t.FinishedAt.After(latest.Time)`.
abbrev pub later : Option Terminated → Time → Time
later none latest = latest
later (some t) latest = if ltb latest t.finished_at then t.finished_at else latest

-- The loop: readings taken, latest time so far, containers left.
unfoldable pub latest_from : (ℕ → Time) → ℕ → Time → List ContainerStatus → Time
latest_from now k latest [] = latest
latest_from now k latest (ctr ∷ ctrs) = elim ctr.state.running [
  | true ↦ latest_from now (suc k) (now k) ctrs
  | false ↦ latest_from now k (later ctr.state.terminated latest) ctrs
]

unfoldable pub get_latest_finished_at : (ℕ → Time) → Pod → Time
unfolding latest_from
get_latest_finished_at now pod =
    latest_from now 0 0 (pod.init_container_statuses ++ pod.container_statuses)

-- The time at which a container ended, 0 if it did not.
abbrev pub ended_at : ContainerStatus → Time
ended_at c = elim c.state.terminated [ none ↦ 0 | some t ↦ t.finished_at ]

-- Every container ended at L or before.
abbrev pub IsBound : Time → List ContainerStatus → Type 0
IsBound l cs = All (λ c. ended_at c ≤ l) cs

IsBound-le : {a b : Time} (cs : List ContainerStatus) → a ≤ b → IsBound a cs → IsBound b cs
IsBound-le [] l h = tt
IsBound-le (c ∷ cs) l (p, h) = (omega arith, IsBound-le cs l h)

latest_from-running :
    (now : ℕ → Time) (k : ℕ) (m : Time) (c : ContainerStatus) (cs : List ContainerStatus)
    → c.state.running ≡ true
    → latest_from now k m (c ∷ cs) ≡ latest_from now (suc k) (now k) cs
unfolding latest_from
latest_from-running now k m c cs e = ground arith

latest_from-ended :
    (now : ℕ → Time) (k : ℕ) (m : Time) (c : ContainerStatus) (cs : List ContainerStatus)
    → c.state.running ≡ false
    → latest_from now k m (c ∷ cs) ≡ latest_from now k (later c.state.terminated m) cs
unfolding latest_from
latest_from-ended now k m c cs e = ground arith

later_lem :
    (c : ContainerStatus) (m b : Time)
    → (m ≤ later c.state.terminated m)
      × (ended_at c ≤ later c.state.terminated m)
      × (m ≤ b → ended_at c ≤ b → later c.state.terminated m ≤ b)
      × ((later c.state.terminated m ≡ m) ⊎ (later c.state.terminated m ≡ ended_at c))
later_lem c m b = ground arith

abbrev IsMonotone : (ℕ → Time) → Type 0
IsMonotone now = (k : ℕ) → now k ≤ now (suc k)

latest_from-IsBound :
    (now : ℕ → Time)
    → IsMonotone now
    → (k : ℕ) (m : Time) (cs : List ContainerStatus) → m ≤ now k
    → IsBound (now k) cs
    → (m ≤ latest_from now k m cs) × IsBound (latest_from now k m cs) cs
latest_from-IsBound now mono k m [] b h = (unfold latest_from in omega arith, tt)
latest_from-IsBound now mono k m (c ∷ cs) b (p, h) = elim (Bool-cases c.state.running) [
  | inl e ↦
      let ih =
        latest_from-IsBound now mono (suc k) (now k) cs (mono k) (IsBound-le cs (mono k) h) in
      subst (λ l. (m ≤ l) × IsBound l (c ∷ cs)) (sym (latest_from-running now k m c cs e))
        (omega arith, (omega arith, ih.1))
  | inr e ↦
      let l = later_lem c m (now k) in
      let ih = latest_from-IsBound now mono k (later c.state.terminated m) cs (l.2 b p) h in
      subst (λ l. (m ≤ l) × IsBound l (c ∷ cs)) (sym (latest_from-ended now k m c cs e))
        (omega arith, (omega arith, ih.1))
]

-- Where a latest time comes from: the start, the end of a container, or the clock.
pub data ComesFrom (now : ℕ → Time) (start : Time) (cs : List ContainerStatus) (l : Time)
    : Type 0 where
  start_time : l ≡ start → ComesFrom now start cs l
  end_of : (c : ContainerStatus) → Has c cs → l ≡ ended_at c → ComesFrom now start cs l
  reading : (k : ℕ) → l ≡ now k → ComesFrom now start cs l

ComesFrom-running :
    {now : ℕ → Time} (k : ℕ) {m l : Time} {c : ContainerStatus} {cs : List ContainerStatus}
    → ComesFrom now (now k) cs l
    → ComesFrom now m (c ∷ cs) l
ComesFrom-running k (start_time e) = reading k e
ComesFrom-running k (end_of d h e) = end_of d (there h) e
ComesFrom-running k (reading j e) = reading j e

ComesFrom-ended :
    {now : ℕ → Time} {m l : Time} {c : ContainerStatus} {cs : List ContainerStatus}
    → ComesFrom now (later c.state.terminated m) cs l
    → ComesFrom now m (c ∷ cs) l
ComesFrom-ended {m} {c} (start_time e) = elim (later_lem c m 0).3 [
  | inl q ↦ start_time (e ∙ q)
  | inr q ↦ end_of c (here refl) (e ∙ q)
]
ComesFrom-ended (end_of d h e) = end_of d (there h) e
ComesFrom-ended (reading j e) = reading j e

latest_from-ComesFrom :
    (now : ℕ → Time) (k : ℕ) (m : Time) (cs : List ContainerStatus)
    → ComesFrom now m cs (latest_from now k m cs)
latest_from-ComesFrom now k m [] = start_time (unfold latest_from in refl)
latest_from-ComesFrom now k m (c ∷ cs) = elim (Bool-cases c.state.running) [
  | inl e ↦
      rw (latest_from-running now k m c cs e)
        (ComesFrom-running k (latest_from-ComesFrom now (suc k) (now k) cs))
  | inr e ↦
      rw (latest_from-ended now k m c cs e)
        (ComesFrom-ended (latest_from-ComesFrom now k (later c.state.terminated m) cs))
]

-- If the clock does not go back, and no container ended after its first reading, then the latest
-- time is no earlier than the end of any init container or container, and it is the zero time, the
-- end of one of them, or a reading of the clock.
pub get_latest_finished_at-latest :
    (now : ℕ → Time) (pod : Pod)
    → IsMonotone now
    → IsBound (now 0) (pod.init_container_statuses ++ pod.container_statuses)
    → IsBound
        (get_latest_finished_at now pod)
        (pod.init_container_statuses ++ pod.container_statuses)
      × ComesFrom now 0
          (pod.init_container_statuses ++ pod.container_statuses)
          (get_latest_finished_at now pod)
unfolding get_latest_finished_at
get_latest_finished_at-latest now pod mono h =
    let cs = pod.init_container_statuses ++ pod.container_statuses in
    ((latest_from-IsBound now mono 0 0 cs (omega arith) h).1, latest_from-ComesFrom now 0 0 cs)
