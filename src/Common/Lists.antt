-- ===== src/Common/Lists.antt =====
-- Lists measured by the native numbers, and predicates over their elements by recursion.
use Prim.Native.Nat.{ℕ, suc, ◌+◌, ◌≤◌}
use mathlib.Core.Path.{◌≡◌, ◌∙◌, refl, sym, subst}
use mathlib.Core.Bool.{Bool, false, ◌||◌}
use mathlib.Core.List.{List, [], ◌∷◌, ◌++◌, Permᴰ}
use mathlib.Core.Option.{Option, none, some}
use native.Mathlib.Omega.{arith}
use kubewatch.Common.Tests.{if◌then◌else◌}
use kubewatch.Common.Eqs.{Eq, int_eq, nat_eq, string_eq, ◌==◌}

module _ {ℓ} {A : Type ℓ} where
  abbrev pub length : List A → ℕ
  length [] = 0
  length (x ∷ xs) = suc (length xs)

  abbrev pub any : (A → Bool) → List A → Bool
  any p [] = false
  any p (x ∷ xs) = p x || any p xs

  pub length-append : (xs ys : List A) → length (xs ++ ys) ≡ length xs + length ys
  length-append [] ys = omega arith
  length-append (x ∷ xs) ys = omega (arith, length-append xs ys)

module _ {ℓ κ} {A : Type ℓ} (P : A → Type κ) where
  -- Every element has the property.
  abbrev pub All : List A → Type κ
  All [] = Unit
  All (x ∷ xs) = P x × All xs

  pub All-append : (xs ys : List A) → All xs → All ys → All (xs ++ ys)
  All-append [] ys _ k = k
  All-append (x ∷ xs) ys (p, h) k = (p, All-append xs ys h k)

  pub All-append_split : (xs ys : List A) → All (xs ++ ys) → All xs × All ys
  All-append_split [] ys h = (tt, h)
  All-append_split (x ∷ xs) ys (p, h) = let (l, r) = All-append_split xs ys h in ((p, l), r)

-- The value of a key in a Go map, kept as a list of pairs.
module _ {ℓ κ} {K : Type ℓ} {V : Type κ} ⦃e : Eq K⦄ where
  abbrev pub lookup : K → List (K × V) → Option V
  lookup k [] = none
  lookup k ((j, v) ∷ m) = if j == k then some v else lookup k m

-- The element stands in the list.
pub data Has {ℓ} {A : Type ℓ} (a : A) : List A → Type ℓ where
  here : {x : A} {xs : List A} → a ≡ x → Has a (x ∷ xs)
  there : {x : A} {xs : List A} → Has a xs → Has a (x ∷ xs)

pub Has-left {ℓ} : {A : Type ℓ} {x : A} {xs : List A} (ys : List A) → Has x xs → Has x (xs ++ ys)
Has-left ys (here p) = here p
Has-left ys (there h) = there (Has-left ys h)

pub Has-right {ℓ} : {A : Type ℓ} {x : A} (xs : List A) {ys : List A} → Has x ys → Has x (xs ++ ys)
Has-right [] h = h
Has-right (y ∷ xs) h = there (Has-right xs h)

pub Has-snoc {ℓ} : {A : Type ℓ} (xs : List A) {x : A} → Has x (xs ++ x ∷ [])
Has-snoc xs = Has-right xs (here refl)

pub All-Has {ℓ κ} : {A : Type ℓ} (P : A → Type κ) {a : A} {xs : List A} → All P xs → Has a xs → P a
All-Has P h (here e) = subst P (sym e) h.0
All-Has P h (there m) = All-Has P h.1 m

-- A rearranged list has the same elements.
pub All-perm {ℓ κ} :
    {A : Type ℓ} (P : A → Type κ) {xs ys : List A} → Permᴰ xs ys → All P xs → All P ys
All-perm P Permᴰ.nil h = h
All-perm P (Permᴰ.cons e q) (p, h) = (subst P e p, All-perm P q h)
All-perm P (Permᴰ.swap e e') (p, (p', h)) = (subst P e' p', (subst P e p, h))
All-perm P (Permᴰ.trans q r) h = All-perm P r (All-perm P q h)

pub Has-perm {ℓ} : {A : Type ℓ} {a : A} {xs ys : List A} → Permᴰ xs ys → Has a xs → Has a ys
Has-perm Permᴰ.nil m = m
Has-perm (Permᴰ.cons e q) (here p) = here (p ∙ e)
Has-perm (Permᴰ.cons e q) (there m) = there (Has-perm q m)
Has-perm (Permᴰ.swap e e') (here p) = there (here (p ∙ e))
Has-perm (Permᴰ.swap e e') (there (here p)) = here (p ∙ e')
Has-perm (Permᴰ.swap e e') (there (there m)) = there (there m)
Has-perm (Permᴰ.trans q r) m = Has-perm r (Has-perm q m)

-- Ascending in a number that each element has.
abbrev pub IsSortedBy {ℓ} : {A : Type ℓ} → (A → ℕ) → List A → Type 0
IsSortedBy key [] = Unit
IsSortedBy key (x ∷ xs) = All (λ y. key x ≤ key y) xs × IsSortedBy key xs

-- The value, if there is one, as a list.
abbrev pub to_list {ℓ} : {A : Type ℓ} → Option A → List A
to_list none = []
to_list (some a) = a ∷ []
