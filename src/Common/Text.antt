-- ===== src/Common/Text.antt =====
-- Formatted text: `fmt.Sprintf` as a concatenation, and `%d` as decimal digits.
use Prim.Native.Nat.{ℕ, zero, suc, ◌+◌, ◌/◌, ◌%◌, ◌<◌}
use Prim.Native.String.{String, slice}
use Prim.Native.String
use mathlib.Core.Path.{◌≡◌, refl}
use mathlib.Core.List.{List, [], ◌∷◌}
use native.Mathlib.Omega.{arith}
use kubewatch.Common.Tests.{ltb, if◌then◌else◌}
use kubewatch.Common.Int.{ℤ, pos, negsuc}

abbrev pub concat : List String → String
concat [] = ""
concat (s ∷ ss) = String.◌++◌ s (concat ss)

-- The digits of n before `acc`; ten to the fuel must exceed n.
unfoldable pub digits_from : ℕ → ℕ → String → String
digits_from zero n acc = acc
digits_from (suc f) n acc =
    let text = String.◌++◌ (slice "0123456789" (n % 10) (n % 10 + 1)) acc in
    let rest = digits_from f (n / 10) text in if ltb n 10 then text else rest

digits_from_fuel :
    (f g n : ℕ) (acc : String) → n < f → n < g → digits_from f n acc ≡ digits_from g n acc
unfolding digits_from
digits_from_fuel zero g n acc h k = absurd (omega arith)
digits_from_fuel (suc f) zero n acc h k = absurd (omega arith)
digits_from_fuel (suc f) (suc g) n acc h k =
    let text = String.◌++◌ (slice "0123456789" (n % 10) (n % 10 + 1)) acc in
    ground (arith, digits_from_fuel f g (n / 10) text)

-- `%d` of an integer.
unfoldable pub sprint_int : ℤ → String
unfolding digits_from
sprint_int (pos n) = digits_from (suc n) n ""
sprint_int (negsuc n) = String.◌++◌ "-" (digits_from (suc (suc n)) (suc n) "")

sprint_143 : sprint_int (pos 143) ≡ "143"
unfolding sprint_int
sprint_143 = refl

sprint_minus : sprint_int (negsuc 11) ≡ "-12"
unfolding sprint_int
sprint_minus = refl
