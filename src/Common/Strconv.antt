-- ===== src/Common/Strconv.antt =====
-- Go's `strconv.Atoi` with its error dropped, for an `int` of 64 bits.
use Prim.Native.Nat.{ℕ, zero, suc, ◌+◌, ◌-◌, ◌*◌, ◌/◌, ◌%◌, ◌^◌, ◌≤◌, ◌<◌}
use Prim.Native.Char.{Char, code}
use Prim.Native.String.{String, slice}
use Prim.Native.String
use mathlib.Core.Path.{◌≡◌, refl, ap, ◌∙◌}
use mathlib.Core.Logic.{inl, inr}
use mathlib.Core.Bool.{◌||◌}
use mathlib.Core.Option.{Option, none, some}
use native.Mathlib.Omega.{arith}
use text.Mathlib.TextLemmas.{cons-append, nil-append}
use kubewatch.Common.Tests.{ltb, ltb→lt, nat_beq, if◌then◌else◌, Bool-cases}
use kubewatch.Common.Int.{ℤ, pos, negsuc}
use kubewatch.Common.Text.{digits_from, sprint_int}

abbrev pub max_uint64 : ℕ
max_uint64 = 2 ^ 64 - 1

abbrev pub min_int64_size : ℕ
min_int64_size = 2 ^ 63

-- The loop of `ParseUint`, in base 10: `none` is a syntax error; a value that does not fit ends the
-- loop with the largest one.
unfoldable pub scan : String → ℕ → Option ℕ
scan String.[] n = some n
scan (String.◌∷◌ c s) n =
    let d = code c - 48 in
    let rest = scan s (n * 10 + d) in
    if ltb (code c) 48 || ltb 57 (code c)
    then none
    else if ltb max_uint64 (n * 10 + d)
    then some max_uint64
    else rest

unfoldable pub parse_uint : String → Option ℕ
parse_uint String.[] = none
parse_uint (String.◌∷◌ c s) = scan (String.◌∷◌ c s) 0

-- The value of `ParseInt` for the digits behind a sign, where a value out of range becomes the
-- nearest one and a syntax error 0.
unfoldable pub positive : Option ℕ → ℤ
positive none = pos 0
positive (some n) = if ltb n min_int64_size then pos n else pos (min_int64_size - 1)

unfoldable pub negative : Option ℕ → ℤ
negative none = pos 0
negative (some zero) = pos 0
negative (some (suc n)) = if ltb n min_int64_size then negsuc n else negsuc (min_int64_size - 1)

unfoldable pub atoi : String → ℤ
unfolding positive negative parse_uint
atoi String.[] = pos 0
atoi (String.◌∷◌ c s) =
    if nat_beq (code c) 45
    then negative (parse_uint s)
    else if nat_beq (code c) 43
    then positive (parse_uint s)
    else positive (parse_uint (String.◌∷◌ c s))

atoi_tests :
    (atoi "12" ≡ pos 12)
    × (atoi "-7" ≡ negsuc 6)
    × (atoi "+5" ≡ pos 5)
    × (atoi "1x" ≡ pos 0)
    × (atoi "-" ≡ pos 0)
    × (atoi "9223372036854775808" ≡ pos (2 ^ 63 - 1))
unfolding atoi scan
atoi_tests = (refl, refl, refl, refl, refl, refl)

-- The values of an `int`.
abbrev pub IsInt64 : ℤ → Type 0
IsInt64 (pos n) = n < 2 ^ 63
IsInt64 (negsuc n) = n < 2 ^ 63

positive-IsInt64 : (o : Option ℕ) → IsInt64 (positive o)
unfolding positive
positive-IsInt64 none = omega arith
positive-IsInt64 (some n) = ground arith

negative-IsInt64 : (o : Option ℕ) → IsInt64 (negative o)
unfolding negative
negative-IsInt64 none = omega arith
negative-IsInt64 (some zero) = omega arith
negative-IsInt64 (some (suc n)) = ground arith

-- Every text gives an `int`.
pub atoi-IsInt64 : (s : String) → IsInt64 (atoi s)
unfolding atoi
atoi-IsInt64 String.[] = omega arith
atoi-IsInt64 (String.◌∷◌ c s) = ground (
  arith,
  negative-IsInt64 (parse_uint s),
  positive-IsInt64 (parse_uint s),
  positive-IsInt64 (scan (String.◌∷◌ c s) 0),
)

-- The text of one digit.
abbrev digit : ℕ → String
digit d = slice "0123456789" d (d + 1)

digit_code : (d : ℕ) → d < 10 → (c : Char) × (digit d ≡ String.◌∷◌ c String.[]) × (code c ≡ 48 + d)
digit_code zero h = ("0", refl, refl)
digit_code (suc zero) h = ("1", refl, refl)
digit_code (suc (suc zero)) h = ("2", refl, refl)
digit_code (suc (suc (suc zero))) h = ("3", refl, refl)
digit_code (suc (suc (suc (suc zero)))) h = ("4", refl, refl)
digit_code (suc (suc (suc (suc (suc zero))))) h = ("5", refl, refl)
digit_code (suc (suc (suc (suc (suc (suc zero)))))) h = ("6", refl, refl)
digit_code (suc (suc (suc (suc (suc (suc (suc zero))))))) h = ("7", refl, refl)
digit_code (suc (suc (suc (suc (suc (suc (suc (suc zero)))))))) h = ("8", refl, refl)
digit_code (suc (suc (suc (suc (suc (suc (suc (suc (suc zero))))))))) h = ("9", refl, refl)
digit_code (suc (suc (suc (suc (suc (suc (suc (suc (suc (suc d)))))))))) h = absurd (omega arith)

scan-cons :
    (c : Char) (d n : ℕ) (acc : String)
    → code c ≡ 48 + d
    → d < 10
    → n * 10 + d ≤ max_uint64
    → scan (String.◌∷◌ c acc) n ≡ scan acc (n * 10 + d)
unfolding scan
scan-cons c d n acc e h fits =
    let same : code c - 48 ≡ d = omega (arith, e) in rw same (ground (arith, e))

scan-digit :
    (d n : ℕ) (acc : String)
    → d < 10
    → n * 10 + d ≤ max_uint64
    → scan (String.◌++◌ (digit d) acc) n ≡ scan acc (n * 10 + d)
scan-digit d n acc h fits =
    let (c, e, k) = digit_code d h in
    rw (e, cons-append c String.[] acc, nil-append acc) (scan-cons c d n acc k h fits)

-- The digits of n, read back, give n before what follows them.
scan-digits_from :
    (f n : ℕ) (acc : String) → n < f → n ≤ max_uint64 → scan (digits_from f n acc) 0 ≡ scan acc n
unfolding digits_from
scan-digits_from zero n acc h fits = absurd (omega arith)
scan-digits_from (suc f) n acc h fits =
    let text = String.◌++◌ (digit (n % 10)) acc in
    elim (Bool-cases (ltb n 10)) [
      | inl p ↦
          let below = ltb→lt n 10 p in
          let whole : 0 * 10 + n % 10 ≡ n = omega (arith, below) in
          rw (p, scan-digit (n % 10) 0 acc (omega arith) (omega (arith, below)), whole) refl
      | inr p ↦
          let whole : n / 10 * 10 + n % 10 ≡ n = omega arith in
          rw
            (
              p,
              scan-digits_from f (n / 10) text (ground (arith, p)) (omega (arith, fits)),
              scan-digit (n % 10) (n / 10) acc (omega arith) (omega (arith, fits)),
              whole,
            )
            refl
    ]

-- A text that begins with a digit.
abbrev StartsDigit : String → Type 0
StartsDigit String.[] = ⊥
StartsDigit (String.◌∷◌ c s) = (48 ≤ code c) × (code c < 58)

cons-StartsDigit : (d : ℕ) (acc : String) → d < 10 → StartsDigit (String.◌++◌ (digit d) acc)
cons-StartsDigit d acc h =
    let (c, e, k) = digit_code d h in
    rw (e, cons-append c String.[] acc) (omega (arith, k), omega (arith, k, h))

digits_from-StartsDigit : (f n : ℕ) (acc : String) → n < f → StartsDigit (digits_from f n acc)
unfolding digits_from
digits_from-StartsDigit zero n acc h = absurd (omega arith)
digits_from-StartsDigit (suc f) n acc h =
    let text = String.◌++◌ (digit (n % 10)) acc in
    elim (Bool-cases (ltb n 10)) [
      | inl p ↦ rw p (cons-StartsDigit (n % 10) acc (omega arith))
      | inr p ↦ rw p (digits_from-StartsDigit f (n / 10) text (ground (arith, p)))
    ]

parse_uint-digit : (s : String) → StartsDigit s → parse_uint s ≡ scan s 0
unfolding parse_uint
parse_uint-digit String.[] h = absurd h
parse_uint-digit (String.◌∷◌ c s) h = refl

atoi-digit : (s : String) → StartsDigit s → atoi s ≡ positive (parse_uint s)
unfolding atoi
atoi-digit String.[] h = absurd h
atoi-digit (String.◌∷◌ c s) (low, high) = ground arith

parse_uint-digits_from :
    (f n : ℕ) → n < f → n ≤ max_uint64 → parse_uint (digits_from f n "") ≡ some n
unfolding scan
parse_uint-digits_from f n h fits =
    parse_uint-digit _ (digits_from-StartsDigit f n "" h) ∙ scan-digits_from f n "" h fits

atoi_minus : (s : String) → atoi (String.◌++◌ "-" s) ≡ negative (parse_uint s)
unfolding atoi
atoi_minus s =
    let minus : String.◌++◌ "-" s ≡ String.◌∷◌ "-" s =
      cons-append "-" "" s ∙ ap (λ t. String.◌∷◌ "-" t) (nil-append s) in
    rw minus refl

negative_small : (n : ℕ) → n < 2 ^ 63 → negative (some (suc n)) ≡ negsuc n
unfolding negative
negative_small n h = ground (arith, h)

-- An `int` is read back from its decimal digits.
pub atoi-sprint_int : (i : ℤ) → IsInt64 i → atoi (sprint_int i) ≡ i
unfolding sprint_int positive negative
atoi-sprint_int (pos n) h =
    let start = digits_from-StartsDigit (suc n) n "" (omega arith) in
    let read = parse_uint-digits_from (suc n) n (omega arith) (omega (arith, h)) in
    rw (atoi-digit _ start, read) (ground (arith, h))
atoi-sprint_int (negsuc n) h =
    atoi_minus _
    ∙ ap negative (parse_uint-digits_from (suc (suc n)) (suc n) (omega arith) (omega (arith, h)))
    ∙ negative_small n h
