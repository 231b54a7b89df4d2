-- ===== src/Common/Wrap.antt =====
-- Machine integers in two's complement, from `h` below zero to `h - 1`.
use Prim.Native.Nat.{ℕ, ◌+◌, ◌-◌, ◌%◌, ◌<◌}
use mathlib.Core.Path.{◌≡◌}
use native.Mathlib.Omega.{arith}
use native.Mathlib.Nat.{mod-lt, mod-eq_of_lt}
use kubewatch.Common.Tests.{if◌then◌else◌, ltb}
use kubewatch.Common.Int.{negsuc, pos, ℤ}

-- The integer that the lowest bits stand for.
abbrev pub signed : ℕ → ℕ → ℤ
signed h m = if ltb m h then pos m else negsuc (h + h - 1 - m)

-- A conversion to the type, which keeps the lowest bits.
unfoldable pub wrap : ℕ → ℤ → ℤ
wrap h (pos n) = signed h (n % (h + h))
wrap h (negsuc n) = signed h (h + h - 1 - n % (h + h))

abbrev pub IsWithin : ℕ → ℤ → Type 0
IsWithin h (pos n) = n < h
IsWithin h (negsuc n) = n < h

signed-IsWithin : (h m : ℕ) → m < h + h → IsWithin h (signed h m)
signed-IsWithin h m b = ground arith

pub wrap-IsWithin : (h : ℕ) → 0 < h → (i : ℤ) → IsWithin h (wrap h i)
unfolding wrap
wrap-IsWithin h b (pos n) = signed-IsWithin h (n % (h + h)) (mod-lt n (omega (arith, b)))
wrap-IsWithin h b (negsuc n) = signed-IsWithin h (h + h - 1 - n % (h + h)) (omega (arith, b))

-- An integer that fits is kept.
pub wrap-within : (h : ℕ) (i : ℤ) → IsWithin h i → wrap h i ≡ i
unfolding wrap
wrap-within h (pos n) b =
    let e : n % (h + h) ≡ n = mod-eq_of_lt (omega (arith, b)) in rw e (ground (arith, b))
wrap-within h (negsuc n) b =
    let e : n % (h + h) ≡ n = mod-eq_of_lt (omega (arith, b)) in rw e (ground (arith, b))
