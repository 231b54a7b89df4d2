-- ===== src/Common/Eqs.antt =====
-- Go's `==` on numbers, texts and integers, as one operator with its law.
use Prim.Native.Nat.{ℕ}
use Prim.Native.String.{String}
use mathlib.Core.Path.{◌≡◌, refl}
use mathlib.Core.Logic.{◌≢◌, ◌↔◌, ◌⊎◌, inl, inr}
use mathlib.Core.Bool.{Bool, true, false}
use native.Mathlib.Omega.{arith}
use text.Mathlib.Text.{◌==◌ as str_beq}
use text.Mathlib.TextEquality.{eq_iff}
use kubewatch.Common.Tests.{Bool-cases, nat_beq}
use kubewatch.Common.Int.{int_beq, int_beq_iff, ℤ}

pub record Eq {ℓ} (A : Type ℓ) : Type ℓ where
  pub equals : A → A → Bool
  pub equals_iff : (x y : A) → (equals x y ≡ true) ↔ (x ≡ y)

infix 50 ◌==◌
abbrev pub ◌==◌ {ℓ} : {A : Type ℓ} ⦃e : Eq A⦄ → A → A → Bool
◌==◌ ⦃e⦄ = e.equals

pub nat_beq_iff : (a b : ℕ) → (nat_beq a b ≡ true) ↔ (a ≡ b)
nat_beq_iff a b = ground arith

instance abbrev pub nat_eq : Eq ℕ
nat_eq = record { equals = nat_beq; equals_iff = nat_beq_iff }

instance abbrev pub string_eq : Eq String
string_eq = record { equals = str_beq; equals_iff = eq_iff }

instance abbrev pub int_eq : Eq ℤ
int_eq = record { equals = int_beq; equals_iff = int_beq_iff }

module _ {ℓ} {A : Type ℓ} ⦃e : Eq A⦄ where
  pub eq_self : (a : A) → (a == a) ≡ true
  eq_self a = (e.equals_iff a a).1 refl

  pub eq_of_ne : (a b : A) → a ≢ b → (a == b) ≡ false
  eq_of_ne a b h = ground (arith, e.equals_iff a b)

  -- Two values are equal or not.
  pub eq_cases : (a b : A) → (a ≡ b) ⊎ (a ≢ b)
  eq_cases a b = elim (Bool-cases (a == b)) [
    | inl p ↦ inl ((e.equals_iff a b).0 p)
    | inr p ↦ inr (λ q. cc (p, (e.equals_iff a b).1 q))
  ]
