-- ===== src/Informer/Events/Invariant.antt =====
-- What holds of the registry between two operations, and that each operation keeps it
-- (pkg/informer/K8sInformer.go).
use kubewatch.Common.{
  Bool-cases, Has, Option-cases, arith, contains, delete, eq_cases, eq_of_ne, eq_self, false, here,
  inl, inr, insert, int_eq, lookup, lookup-delete_inv, lookup-delete_ne, lookup-delete_self,
  lookup-insert_inv, lookup-insert_ne, lookup-insert_self, nat_eq, none, or_false, some, some_eq,
  string_eq, subst, suc, sym, there, true, ℕ, ◌<◌, ◌==◌, ◌∙◌, ◌∷◌, ◌≡◌, ◌≢◌, ◌≤◌, ◌⊎◌,
}
use kubewatch.Common.Int.{ℤ}
use kubewatch.Informer.{Registry, close, install, new_registry, stop_system_workflow_informer}

-- The channels in the map are open, and no two clusters share one; an informer whose channel is
-- open is the one that the map has for its cluster; all channels were made.
pub record Inv (r : Registry) : Type 0 where
  pub stopper_open :
      (id : ℤ) {ch : ℕ} → lookup id r.informer_stopper ≡ some ch → contains ch r.closed ≡ false
  pub stopper_made :
      (id : ℤ) {ch : ℕ} → lookup id r.informer_stopper ≡ some ch → ch < r.next_channel
  pub apart :
      (a b : ℤ) {ch : ℕ}
      → lookup a r.informer_stopper ≡ some ch
      → lookup b r.informer_stopper ≡ some ch
      → a ≡ b
  pub registered :
      (id : ℤ) {ch : ℕ}
      → Has (id, ch) r.started
      → contains ch r.closed ≡ false
      → lookup id r.informer_stopper ≡ some ch
  pub closed_made : (ch : ℕ) → contains ch r.closed ≡ true → ch < r.next_channel

pub new_registry-Inv : Inv new_registry
unfolding new_registry
new_registry-Inv = record {
  stopper_open = λ id h. cc;
  stopper_made = λ id h. cc;
  apart = λ a b h k. cc;
  registered = λ id h c. elim h [ ];
  closed_made = λ ch h. cc;
}

-- Two registries that differ in nothing that the invariant reads.
pub record SameChannels (r s : Registry) : Type 0 where
  pub same_stopper : s.informer_stopper ≡ r.informer_stopper
  pub same_next : s.next_channel ≡ r.next_channel
  pub same_closed : s.closed ≡ r.closed
  pub same_started : s.started ≡ r.started

pub SameChannels-Inv : {r s : Registry} → SameChannels r s → Inv r → Inv s
SameChannels-Inv {r} {s} e v = record {
  stopper_open = λ id {ch} h. rw e.same_closed (v.stopper_open id (rw e.same_stopper at h));
  stopper_made = λ id {ch} h. rw e.same_next (v.stopper_made id (rw e.same_stopper at h));
  apart = λ a b {ch} h k. v.apart a b (rw e.same_stopper at h) (rw e.same_stopper at k);
  registered = λ id {ch} h c.
      rw e.same_stopper (v.registered id (rw e.same_started at h) (rw e.same_closed at c));
  closed_made = λ ch h. rw e.same_next (v.closed_made ch (rw e.same_closed at h));
}

-- A channel that is not made yet is not closed.
pub unmade_open :
    {r : Registry} (ch : ℕ) → Inv r → r.next_channel ≤ ch → contains ch r.closed ≡ false
unmade_open {r} ch v h = elim (Bool-cases (contains ch r.closed)) [
  | inl p ↦ absurd (omega (arith, h, v.closed_made ch p))
  | inr p ↦ p
]

module _ (id : ℤ) {r : Registry} (free : lookup id r.informer_stopper ≡ none) (v : Inv r) where
  install-found :
      (a : ℤ) {ch : ℕ}
      → lookup a (insert id r.next_channel r.informer_stopper) ≡ some ch
      → ((id ≡ a) × (r.next_channel ≡ ch)) ⊎ (lookup a r.informer_stopper ≡ some ch)
  install-found a h = elim (lookup-insert_inv id a r.next_channel r.informer_stopper h) [
    | inl e ↦ inl e
    | inr e ↦ inr e.1
  ]

  install-open :
      (a : ℤ) {ch : ℕ}
      → lookup a (insert id r.next_channel r.informer_stopper) ≡ some ch
      → contains ch r.closed ≡ false
  install-open a {ch} h = elim (install-found a h) [
    | inl e ↦
        subst (λ c. contains c r.closed ≡ false) e.1 (unmade_open r.next_channel v (omega arith))
    | inr e ↦ v.stopper_open a e
  ]

  install-made :
      (a : ℤ) {ch : ℕ}
      → lookup a (insert id r.next_channel r.informer_stopper) ≡ some ch
      → ch < suc r.next_channel
  install-made a h = elim (install-found a h) [
    | inl e ↦ omega (arith, e.1)
    | inr e ↦ omega (arith, v.stopper_made a e)
  ]

  install-apart :
      (a b : ℤ) {ch : ℕ}
      → lookup a (insert id r.next_channel r.informer_stopper) ≡ some ch
      → lookup b (insert id r.next_channel r.informer_stopper) ≡ some ch
      → a ≡ b
  install-apart a b h k = elim (install-found a h) [
    | inl e ↦ elim (install-found b k) [
      | inl f ↦ sym e.0 ∙ f.0
      | inr f ↦ absurd (omega (arith, e.1, v.stopper_made b f))
    ]
    | inr e ↦ elim (install-found b k) [
      | inl f ↦ absurd (omega (arith, f.1, v.stopper_made a e))
      | inr f ↦ v.apart a b e f
    ]
  ]

  install-registered :
      (a : ℤ) {ch : ℕ}
      → Has (a, ch) ((id, r.next_channel) ∷ r.started)
      → contains ch r.closed ≡ false
      → lookup a (insert id r.next_channel r.informer_stopper) ≡ some ch
  install-registered a {ch} (here e) c =
      subst (λ (p : ℤ × ℕ). lookup p.0 (insert id r.next_channel r.informer_stopper) ≡ some p.1)
        (sym e) (lookup-insert_self id r.next_channel r.informer_stopper)
  install-registered a {ch} (there h) c =
      let old = v.registered a h c in
      lookup-insert_ne id a r.next_channel r.informer_stopper
        (λ e. cc (free, subst (λ i. lookup i r.informer_stopper ≡ some ch) (sym e) old))
      ∙ old

  pub install-Inv : Inv (install id r)
  unfolding install
  install-Inv = record {
    stopper_open = λ a h. install-open a h;
    stopper_made = λ a h. install-made a h;
    apart = λ a b h k. install-apart a b h k;
    registered = λ a h c. install-registered a h c;
    closed_made = λ ch h. omega (arith, v.closed_made ch h);
  }

-- The registry after a channel is closed and taken from the map.
abbrev pub retire : ℤ → ℕ → Registry → Registry
retire id ch r = record r {
  closed = ch ∷ r.closed;
  informer_stopper = delete id r.informer_stopper;
}

module _ (id : ℤ) (ch : ℕ) {r : Registry} (e : lookup id r.informer_stopper ≡ some ch)
    (v : Inv r) where
  retire-open :
      (a : ℤ) {c : ℕ}
      → lookup a (delete id r.informer_stopper) ≡ some c
      → contains c (ch ∷ r.closed) ≡ false
  retire-open a {c} h =
      let (other, old) = lookup-delete_inv id a r.informer_stopper h in
      let unshared : ch ≢ c = λ p.
        other (v.apart id a e (subst (λ x. lookup a r.informer_stopper ≡ some x) (sym p) old)) in
      rw (eq_of_ne ch c unshared) (v.stopper_open a old)

  retire-registered :
      (a : ℤ) {c : ℕ}
      → Has (a, c) r.started
      → contains c (ch ∷ r.closed) ≡ false
      → lookup a (delete id r.informer_stopper) ≡ some c
  retire-registered a {c} h k =
      let (differ, open_still) = or_false (ch == c) (contains c r.closed) k in
      let old = v.registered a h open_still in
      lookup-delete_ne id a r.informer_stopper (λ p.
        let same : ch ≡ c =
          some_eq (sym e ∙ subst (λ x. lookup x r.informer_stopper ≡ some c) (sym p) old) in
        cc (differ, subst (λ x. (ch == x) ≡ true) same (eq_self ch)))
      ∙ old

  retire-closed_made : (c : ℕ) → contains c (ch ∷ r.closed) ≡ true → c < r.next_channel
  retire-closed_made c h = elim (eq_cases ch c) [
    | inl p ↦ omega (arith, p, v.stopper_made id e)
    | inr p ↦ v.closed_made c (rw (eq_of_ne ch c p) at h)
  ]

  pub retire-Inv : Inv (retire id ch r)
  retire-Inv = record {
    stopper_open = λ a h. retire-open a h;
    stopper_made = λ a h. v.stopper_made a (lookup-delete_inv id a r.informer_stopper h).1;
    apart = λ a b h k.
        v.apart a b (lookup-delete_inv id a r.informer_stopper h).1
          (lookup-delete_inv id b r.informer_stopper k).1;
    registered = λ a h c. retire-registered a h c;
    closed_made = λ c h. retire-closed_made c h;
  }

pub stop-retire :
    (id : ℤ) {ch : ℕ} (r : Registry)
    → lookup id r.informer_stopper ≡ some ch
    → contains ch r.closed ≡ false
    → stop_system_workflow_informer id r ≡ some (retire id ch r)
unfolding stop_system_workflow_informer close
stop-retire id r e c = ground arith

pub stop-absent :
    (id : ℤ) (r : Registry)
    → lookup id r.informer_stopper ≡ none
    → stop_system_workflow_informer id r ≡ some r
unfolding stop_system_workflow_informer
stop-absent id r e = ground arith

-- Stopping the informer of a cluster never panics, keeps the invariant and leaves the cluster out
-- of the map.
pub stop-Inv :
    (id : ℤ) {r : Registry}
    → Inv r
    → (r' : Registry) × (stop_system_workflow_informer id r ≡ some r')
      × Inv r'
      × (lookup id r'.informer_stopper ≡ none)
stop-Inv id {r} v = elim (Option-cases (lookup id r.informer_stopper)) [
  | inl e ↦ (r, stop-absent id r e, v, e)
  | inr (ch, e) ↦ (
    retire id ch r,
    stop-retire id r e (v.stopper_open id e),
    retire-Inv id ch e v,
    lookup-delete_self id r.informer_stopper,
  )
]
