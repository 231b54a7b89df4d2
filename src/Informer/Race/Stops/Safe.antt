-- ===== src/Informer/Race/Stops/Safe.antt =====
-- Stops of two clusters, in any order of their steps (pkg/informer/K8sInformer.go).
use kubewatch.Common.{
  Option, Option-cases, ap, arith, contains, false, inl, inr, int_eq, lookup, lookup-delete_ne,
  lookup-delete_self, nat_beq_iff, nat_eq, none, refl, some, some_eq, string_eq, subst, sym, true,
  ℕ, ◌∙◌, ◌∷◌, ◌≡◌, ◌≢◌,
}
use kubewatch.Common.Int.{ℤ}
use kubewatch.Informer.{Registry, close}
use kubewatch.Informer.Race.Stops.{
  Reaches, Stopping, TwoStops, at_close, at_delete, at_lookup, both_at_lookup, by_left, by_right,
  left_step, panicked, right_step, stay, stop_step, stopped,
}
use kubewatch.Informer.Events.Invariant.{Inv}

-- The channel, if there is one, is open, and it is closed.
abbrev pub IsOpen : Option ℕ → Registry → Type 0
IsOpen o r = (ch : ℕ) → o ≡ some ch → contains ch r.closed ≡ false

abbrev pub IsShut : Option ℕ → Registry → Type 0
IsShut o r = (ch : ℕ) → o ≡ some ch → contains ch r.closed ≡ true

-- What holds at each point of a stop of a cluster that had the given channel, or none, at the start.
abbrev IsSound : ℤ → Option ℕ → Stopping → Registry → Type 0
IsSound id o at_lookup r = (lookup id r.informer_stopper ≡ o) × IsOpen o r
IsSound id o (at_close ch) r = (o ≡ some ch) × IsOpen o r
IsSound id o at_delete r = IsShut o r
IsSound id o stopped r = (lookup id r.informer_stopper ≡ none) × IsShut o r
IsSound id o panicked r = (false ≡ true)

-- The steps of a stop of another cluster leave all this alone.
record Kept (id : ℤ) (o : Option ℕ) (r s : Registry) : Type 0 where
  same_lookup : lookup id s.informer_stopper ≡ lookup id r.informer_stopper
  still_open : IsOpen o r → IsOpen o s
  still_shut : IsShut o r → IsShut o s

IsSound-Kept :
    (id : ℤ) (o : Option ℕ) (p : Stopping) {r s : Registry}
    → Kept id o r s
    → IsSound id o p r
    → IsSound id o p s
IsSound-Kept id o at_lookup k (e, h) = (k.same_lookup ∙ e, k.still_open h)
IsSound-Kept id o (at_close ch) k (e, h) = (e, k.still_open h)
IsSound-Kept id o at_delete k h = k.still_shut h
IsSound-Kept id o stopped k (e, h) = (k.same_lookup ∙ e, k.still_shut h)
IsSound-Kept id o panicked k h = h

Kept-refl : (id : ℤ) (o : Option ℕ) (r : Registry) → Kept id o r r
Kept-refl id o r = record { same_lookup = refl; still_open = λ h. h; still_shut = λ h. h }

-- Two clusters have no channel in common.
abbrev AreApart : Option ℕ → Option ℕ → Type 0
AreApart o p = (ch : ℕ) → o ≡ some ch → p ≢ some ch

closed_now : (ch c : ℕ) (r : Registry) → ch ≡ c → contains c (ch ∷ r.closed) ≡ true
closed_now ch c r e = ground (arith, e, nat_beq_iff ch c)

closed_other :
    (ch c : ℕ) (r : Registry)
    → ch ≢ c
    → contains c r.closed ≡ false
    → contains c (ch ∷ r.closed) ≡ false
closed_other ch c r d h = ground (arith, d, nat_beq_iff ch c)

closed_still :
    (ch c : ℕ) (r : Registry) → contains c r.closed ≡ true → contains c (ch ∷ r.closed) ≡ true
closed_still ch c r h = ground arith

-- A step of a stop is sound, and keeps what holds of a stop of another cluster.
stop_step-IsSound :
    (i j : ℤ) (o q : Option ℕ) (p : Stopping) (r : Registry)
    → i ≢ j
    → AreApart o q
    → IsSound i o p r
    → let (p', r') = stop_step i p r in IsSound i o p' r' × Kept j q r r'
unfolding stop_step close
stop_step-IsSound i j o q at_lookup r d a (e, h) = elim (Option-cases o) [
  | inl f ↦ rw (stop_step, e ∙ f) ((e ∙ f, λ ch g. cc (f, g)), Kept-refl j q r)
  | inr (ch, f) ↦ rw (stop_step, e ∙ f) ((f, h), Kept-refl j q r)
]
stop_step-IsSound i j o q (at_close ch) r d a (e, h) =
    rw (stop_step, close, h ch e)
      (
        λ c g. closed_now ch c r (some_eq (sym e ∙ g)),
        record {
          same_lookup = refl;
          still_open = λ k c g. closed_other ch c r (λ x. a ch e (g ∙ ap some (sym x))) (k c g);
          still_shut = λ k c g. closed_still ch c r (k c g);
        },
      )
stop_step-IsSound i j o q at_delete r d a h = (
  (lookup-delete_self i r.informer_stopper, h),
  record {
    same_lookup = lookup-delete_ne i j r.informer_stopper d;
    still_open = λ h. h;
    still_shut = λ h. h;
  },
)
stop_step-IsSound i j o q stopped r d a h = (h, Kept-refl j q r)
stop_step-IsSound i j o q panicked r d a h = cc h

module _ (i j : ℤ) (o q : Option ℕ) where
  -- What holds of both stops at once.
  record AreSound (s : TwoStops) : Type 0 where
    left_sound : IsSound i o s.left s.shared
    right_sound : IsSound j q s.right s.shared

  module _ (d : i ≢ j) (apart : AreApart o q) where
    left_step-AreSound : (s : TwoStops) → AreSound s → AreSound (left_step i j s)
    unfolding left_step
    left_step-AreSound s h =
        let (now, kept) = stop_step-IsSound i j o q s.left s.shared d apart h.left_sound in
        record { left_sound = now; right_sound = IsSound-Kept j q s.right kept h.right_sound }

    right_step-AreSound : (s : TwoStops) → AreSound s → AreSound (right_step i j s)
    unfolding right_step
    right_step-AreSound s h =
        let (now, kept) =
          stop_step-IsSound j i q o s.right s.shared (λ p. d (sym p)) (λ ch e f. apart ch f e)
            h.right_sound in
        record { left_sound = IsSound-Kept i o s.left kept h.left_sound; right_sound = now }

    Reaches-AreSound : (from s : TwoStops) → AreSound from → Reaches i j from s → AreSound s
    Reaches-AreSound from s h stay = h
    Reaches-AreSound from s h (by_left {s = t} m) =
        left_step-AreSound t (Reaches-AreSound from t h m)
    Reaches-AreSound from s h (by_right {s = t} m) =
        right_step-AreSound t (Reaches-AreSound from t h m)

IsSound-safe :
    (id : ℤ) (o : Option ℕ) (p : Stopping) (r : Registry) → IsSound id o p r → p ≢ panicked
IsSound-safe id o p r h e = cc (subst (λ x. IsSound id o x r) e h)

-- From a registry with the invariant, stops of two clusters that run at once never panic, whatever
-- the order of their steps. Where both have stopped, the map has none of the two clusters, and the
-- channels that it had for them are closed.
pub stops_safe :
    (i j : ℤ) {r : Registry}
    → i ≢ j
    → Inv r
    → (s : TwoStops) → Reaches i j (both_at_lookup r) s
    → (s.left ≢ panicked)
      × (s.right ≢ panicked)
      × (s.left ≡ stopped
          → s.right ≡ stopped
          → (lookup i s.shared.informer_stopper ≡ none)
            × (lookup j s.shared.informer_stopper ≡ none)
            × IsShut (lookup i r.informer_stopper) s.shared
            × IsShut (lookup j r.informer_stopper) s.shared)
stops_safe i j {r} d v s m =
    let o = lookup i r.informer_stopper in
    let q = lookup j r.informer_stopper in
    let from : AreSound i j o q (both_at_lookup r) = record {
      left_sound = (refl, λ ch e. v.stopper_open i e);
      right_sound = (refl, λ ch e. v.stopper_open j e);
    } in
    let h =
      Reaches-AreSound i j o q d (λ ch e f. d (v.apart i j e f)) (both_at_lookup r) s from m in
    (
      IsSound-safe i o s.left s.shared h.left_sound,
      IsSound-safe j q s.right s.shared h.right_sound,
      λ e f.
          let (gone_i, shut_i) = subst (λ x. IsSound i o x s.shared) e h.left_sound in
          let (gone_j, shut_j) = subst (λ x. IsSound j q x s.shared) f h.right_sound in
          (gone_i, gone_j, shut_i, shut_j),
    )
