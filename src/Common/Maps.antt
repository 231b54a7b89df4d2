-- ===== src/Common/Maps.antt =====
-- Go maps as lists of pairs: what a key leads to after an insertion and a deletion.
use mathlib.Core.Path.{◌≡◌, refl, sym, ◌∙◌, subst}
use mathlib.Core.Logic.{◌≢◌, ◌⊎◌, inl, inr}
use mathlib.Core.Bool.{Bool, false, true, ◌||◌}
use mathlib.Core.Option.{none, some}
use mathlib.Core.List.{List, [], ◌∷◌}
use kubewatch.Common.Tests.{Bool-cases, if◌then◌else◌, some_eq}
use kubewatch.Common.Eqs.{Eq, eq_cases, eq_of_ne, eq_self, int_eq, nat_eq, string_eq, ◌==◌}
use kubewatch.Common.Lists.{Has, here, lookup, there}

module _ {ℓ} {A : Type ℓ} ⦃e : Eq A⦄ where
  abbrev pub contains : A → List A → Bool
  contains a [] = false
  contains a (x ∷ xs) = x == a || contains a xs

  pub contains-Has : (a : A) (xs : List A) → contains a xs ≡ true → Has a xs
  contains-Has a [] h = cc
  contains-Has a (x ∷ xs) h = elim (Bool-cases (x == a)) [
    | inl p ↦ here (sym ((e.equals_iff x a).0 p))
    | inr p ↦ there (contains-Has a xs (rw p at h))
  ]

module _ {ℓ κ} {K : Type ℓ} {V : Type κ} ⦃e : Eq K⦄ where
  unfoldable pub delete : K → List (K × V) → List (K × V)
  delete k [] = []
  delete k ((j, v) ∷ m) = if j == k then delete k m else (j, v) ∷ delete k m

  unfoldable pub insert : K → V → List (K × V) → List (K × V)
  insert k v m = (k, v) ∷ delete k m

  abbrev pub keys : List (K × V) → List K
  keys [] = []
  keys ((j, v) ∷ m) = j ∷ keys m

  pub lookup-delete_self : (k : K) (m : List (K × V)) → lookup k (delete k m) ≡ none
  unfolding delete
  lookup-delete_self k [] = refl
  lookup-delete_self k ((j, v) ∷ m) = elim (Bool-cases (j == k)) [
    | inl p ↦ rw (delete, p) (lookup-delete_self k m)
    | inr p ↦ rw (delete, p, p) (lookup-delete_self k m)
  ]

  pub lookup-delete_ne : (k j : K) (m : List (K × V)) → k ≢ j → lookup j (delete k m) ≡ lookup j m
  unfolding delete
  lookup-delete_ne k j [] h = refl
  lookup-delete_ne k j ((i, v) ∷ m) h = elim (Bool-cases (i == k)) [
    | inl p ↦
        let other : (i == j) ≡ false = eq_of_ne i j (λ q. h (sym ((e.equals_iff i k).0 p) ∙ q)) in
        rw (delete, p, other) (lookup-delete_ne k j m h)
    | inr p ↦ elim (Bool-cases (i == j)) [
      | inl q ↦ rw (delete, p, q)
      | inr q ↦ rw (delete, p, q) (lookup-delete_ne k j m h)
    ]
  ]

  pub lookup-insert_self : (k : K) (v : V) (m : List (K × V)) → lookup k (insert k v m) ≡ some v
  unfolding insert
  lookup-insert_self k v m = rw (eq_self k)

  pub lookup-insert_ne :
      (k j : K) (v : V) (m : List (K × V)) → k ≢ j → lookup j (insert k v m) ≡ lookup j m
  unfolding insert
  lookup-insert_ne k j v m h = rw (eq_of_ne k j h) (lookup-delete_ne k j m h)

  pub lookup-keys : (k : K) (m : List (K × V)) {v : V} → lookup k m ≡ some v → Has k (keys m)
  lookup-keys k [] h = cc
  lookup-keys k ((j, v) ∷ m) h = elim (Bool-cases (j == k)) [
    | inl p ↦ here (sym ((e.equals_iff j k).0 p))
    | inr p ↦ there (lookup-keys k m (rw p at h))
  ]

  pub lookup-insert_inv :
      (k j : K) (v : V) (m : List (K × V)) {w : V}
      → lookup j (insert k v m) ≡ some w
      → ((k ≡ j) × (v ≡ w)) ⊎ ((k ≢ j) × (lookup j m ≡ some w))
  lookup-insert_inv k j v m {w} h = elim (eq_cases k j) [
    | inl p ↦
        let found = subst (λ i. lookup i (insert k v m) ≡ some w) (sym p) h in
        inl (p, some_eq (sym (lookup-insert_self k v m) ∙ found))
    | inr p ↦ inr (p, sym (lookup-insert_ne k j v m p) ∙ h)
  ]

  pub lookup-delete_inv :
      (k j : K) (m : List (K × V)) {w : V}
      → lookup j (delete k m) ≡ some w
      → (k ≢ j) × (lookup j m ≡ some w)
  lookup-delete_inv k j m {w} h = elim (eq_cases k j) [
    | inl p ↦
        let found = subst (λ i. lookup i (delete k m) ≡ some w) (sym p) h in
        cc (lookup-delete_self k m, found)
    | inr p ↦ (p, sym (lookup-delete_ne k j m p) ∙ h)
  ]

  pub lookup-delete_absent :
      (k j : K) (m : List (K × V)) → lookup j m ≡ none → lookup j (delete k m) ≡ none
  lookup-delete_absent k j m h = elim (eq_cases k j) [
    | inl p ↦ subst (λ i. lookup i (delete k m) ≡ none) p (lookup-delete_self k m)
    | inr p ↦ lookup-delete_ne k j m p ∙ h
  ]
