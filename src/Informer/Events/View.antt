-- ===== src/Informer/Events/View.antt =====
-- The registry without the representation of its map and of its closed channels, and what the
-- shutdown makes of it: `maps.Keys` gives the clusters in an order that Go leaves open
-- (pkg/informer/K8sInformer.go).
use kubewatch.Common.{
  Bool, List, Option, Option-cases, Permᴰ, String, [], ap, ap₂, arith, contains, delete, eq_cases,
  eq_of_ne, eq_self, false, fun_ext, if◌then◌else◌, inl, inr, int_eq, keys, lookup,
  lookup-delete_ne, lookup-delete_self, nat_eq, none, refl, some, string_eq, subst, sym, true, ℕ,
  ◌==◌, ◌||◌, ◌∙◌, ◌∷◌, ◌≡◌,
}
use kubewatch.Common.Int.{ℤ}
use kubewatch.Informer.{
  Registry, stop_all_system_workflow_informer, stop_each, stop_system_workflow_informer,
}
use kubewatch.Informer.Events.Invariant.{Inv, retire, retire-Inv, stop-absent, stop-retire}

-- The registry, its map and the closed channels read as functions.
pub record View : Type 0 where
  pub stopper : ℤ → Option ℕ
  pub is_closed : ℕ → Bool
  pub next_channel : ℕ
  pub started : List (ℤ × ℕ)
  pub unreachable : List (String × String)
  pub watching : Bool
  pub next_error : ℕ

abbrev pub view_of : Registry → View
view_of r = record {
  stopper = λ id. lookup id r.informer_stopper;
  is_closed = λ ch. contains ch r.closed;
  next_channel = r.next_channel;
  started = r.started;
  unreachable = r.unreachable;
  watching = r.watching;
  next_error = r.next_error;
}

abbrev pub is_channel : Option ℕ → ℕ → Bool
is_channel none ch = false
is_channel (some c) ch = c == ch

-- A stop on the abstract view: the cluster has no informer, and the channel that it had is closed.
abbrev pub stop_view : ℤ → View → View
stop_view id v = record v {
  stopper = λ a. if id == a then none else v.stopper a;
  is_closed = λ ch. is_channel (v.stopper id) ch || v.is_closed ch;
}

abbrev pub stop_views : List ℤ → View → View
stop_views [] v = v
stop_views (id ∷ ids) v = stop_views ids (stop_view id v)

view_eq :
    {v w : View}
    → ((a : ℤ) → v.stopper a ≡ w.stopper a)
    → ((ch : ℕ) → v.is_closed ch ≡ w.is_closed ch)
    → record v { stopper = w.stopper; is_closed = w.is_closed } ≡ w
    → v ≡ w
view_eq {v} {w} h k e =
    ap₂ (λ f g. record v { stopper = f; is_closed = g }) (fun_ext h) (fun_ext k) ∙ e

lookup_deleted :
    (id a : ℤ) (m : List (ℤ × ℕ)) → lookup a (delete id m) ≡ (if id == a then none else lookup a m)
lookup_deleted id a m = elim (eq_cases ⦃e = int_eq⦄ id a) [
  | inl p ↦
      let self : (id == a) ≡ true = subst (λ x. (id == x) ≡ true) p (eq_self id) in
      rw self (subst (λ x. lookup x (delete id m) ≡ none) p (lookup-delete_self id m))
  | inr p ↦ rw (eq_of_ne id a p) (lookup-delete_ne id a m p)
]

retire-stop_view :
    (id : ℤ) {ch : ℕ} (r : Registry)
    → lookup id r.informer_stopper ≡ some ch
    → view_of (retire id ch r) ≡ stop_view id (view_of r)
retire-stop_view id r e =
    view_eq (λ a. lookup_deleted id a r.informer_stopper) (λ c. rw e refl) refl

absent-stop_view :
    (id : ℤ) (r : Registry)
    → lookup id r.informer_stopper ≡ none
    → view_of r ≡ stop_view id (view_of r)
absent-stop_view id r e = view_eq (λ a. still_absent a) (λ c. rw e refl) refl
  where
    still_absent :
        (a : ℤ)
        → lookup a r.informer_stopper ≡ (if id == a then none else lookup a r.informer_stopper)
    still_absent a = elim (eq_cases ⦃e = int_eq⦄ id a) [
      | inl p ↦
          let self : (id == a) ≡ true = subst (λ x. (id == x) ≡ true) p (eq_self id) in
          rw self (subst (λ x. lookup x r.informer_stopper ≡ none) p e)
      | inr p ↦ rw (eq_of_ne id a p) refl
    ]

-- Stops on the view come to the same in either order.
stop_view_comm : (i j : ℤ) (v : View) → stop_view i (stop_view j v) ≡ stop_view j (stop_view i v)
stop_view_comm i j v = elim (eq_cases ⦃e = int_eq⦄ i j) [
  | inl p ↦ subst (λ x. stop_view i (stop_view x v) ≡ stop_view x (stop_view i v)) p refl
  | inr p ↦
      let i_j : (i == j) ≡ false = eq_of_ne i j p in
      let j_i : (j == i) ≡ false = eq_of_ne j i (λ q. p (sym q)) in
      view_eq (λ a. either_first (i == a) (j == a) (v.stopper a))
        (λ ch. rw (i_j, j_i) (ground arith)) refl
]
  where
    either_first :
        (b c : Bool) (o : Option ℕ)
        → (if b then none else if c then none else o) ≡ (if c then none else if b then none else o)
    either_first true true o = refl
    either_first true false o = refl
    either_first false true o = refl
    either_first false false o = refl

-- So the order of several does not matter.
stop_views-perm : {is js : List ℤ} → Permᴰ is js → (v : View) → stop_views is v ≡ stop_views js v
stop_views-perm Permᴰ.nil v = refl
stop_views-perm (Permᴰ.cons {l₁ = is} e q) v =
    ap (λ y. stop_views is (stop_view y v)) e ∙ stop_views-perm q _
stop_views-perm (Permᴰ.swap {a' = i} {b' = j} {l = is} e f) v =
    ap (stop_views is) (ap₂ (λ x y. stop_view x (stop_view y v)) f e ∙ stop_view_comm i j v)
stop_views-perm (Permᴰ.trans q r) v = stop_views-perm q v ∙ stop_views-perm r v

-- A stop does on the view what it does on the registry.
stop-stop_view :
    (id : ℤ) {r : Registry}
    → Inv r
    → (s : Registry) × (stop_system_workflow_informer id r ≡ some s)
      × Inv s
      × (view_of s ≡ stop_view id (view_of r))
stop-stop_view id {r} v = elim (Option-cases (lookup id r.informer_stopper)) [
  | inl e ↦ (r, stop-absent id r e, v, absent-stop_view id r e)
  | inr (ch, e) ↦ (
    retire id ch r,
    stop-retire id r e (v.stopper_open id e),
    retire-Inv id ch e v,
    retire-stop_view id r e,
  )
]

stop_each-stop_views :
    (ids : List ℤ) {r : Registry}
    → Inv r
    → (s : Registry) × (stop_each ids r ≡ some s) × (view_of s ≡ stop_views ids (view_of r))
unfolding stop_each
stop_each-stop_views [] {r} v = (r, refl, refl)
stop_each-stop_views (id ∷ ids) {r} v =
    let (s, e, vs, same) = stop-stop_view id v in
    let (t, f, after) = stop_each-stop_views ids vs in
    (t, rw (stop_each, e) f, after ∙ ap (stop_views ids) same)

-- From a registry with the invariant, the shutdown succeeds in every order of the clusters of the
-- map, and comes to the same registry, up to the representation of the map and of the closed
-- channels: the one where each of these clusters has no informer, the channel that it had is
-- closed, and all else is as before.
pub stop_all-stop_views :
    (key_order : List ℤ → List ℤ) {r : Registry}
    → Permᴰ (keys r.informer_stopper) (key_order (keys r.informer_stopper))
    → Inv r
    → (s : Registry) × (stop_all_system_workflow_informer key_order r ≡ some s)
      × (view_of s ≡ stop_views (keys r.informer_stopper) (view_of r))
unfolding stop_all_system_workflow_informer
stop_all-stop_views key_order {r} q v =
    let (s, e, same) = stop_each-stop_views (key_order (keys r.informer_stopper)) v in
    (s, e, same ∙ sym (stop_views-perm q (view_of r)))
