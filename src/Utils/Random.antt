-- ===== src/Utils/Random.antt =====
-- The text that `Generate` makes (pkg/utils/CommonUtils.go).
use Prim.Native.Char.{Char}
use kubewatch.Common.{String, ap, arith, inl, inr, refl, some, suc, zero, ℕ, ◌<◌, ◌≡◌, ◌⊎◌}
use kubewatch.Common.Int.{negsuc, pos, ℤ}
use kubewatch.Utils.{Rand, chars, generate, rune_at, rune_count, runes}

-- The rune occurs in the text.
abbrev pub RuneIn : Char → String → Type 0
RuneIn c String.[] = ⊥
RuneIn c (String.◌∷◌ d s) = (c ≡ d) ⊎ RuneIn c s

-- Each rune of a text occurs in another one.
abbrev pub RunesIn : String → String → Type 0
RunesIn String.[] alphabet = Unit
RunesIn (String.◌∷◌ c s) alphabet = RuneIn c alphabet × RunesIn s alphabet

rune_at-RuneIn :
    (s : String) (k : ℕ) → k < rune_count s → (c : Char) × (rune_at s k ≡ some c) × RuneIn c s
rune_at-RuneIn String.[] k h = absurd (omega (arith, h))
rune_at-RuneIn (String.◌∷◌ c s) zero h = (c, refl, inl refl)
rune_at-RuneIn (String.◌∷◌ c s) (suc k) h =
    let (d, e, m) = rune_at-RuneIn s k (omega (arith, h)) in (d, e, inr m)

-- The size that is written: none for a negative one.
abbrev pub size_of : ℤ → ℕ
size_of (pos n) = n
size_of (negsuc n) = 0

module _ (r : Rand) (below : (n : ℕ) (s : r.State) → 0 < n → (r.intn n s).0 < n) where
  runes_lem :
      (n : ℕ) (s : r.State)
      → (text : String) × (s' : r.State) × (runes r n s ≡ some (text, s'))
        × (rune_count text ≡ n)
        × RunesIn text chars
  unfolding runes
  runes_lem zero s = ("", s, refl, refl, tt)
  runes_lem (suc n) s =
      let (k, s') = r.intn (rune_count chars) s in
      let (c, at_k, known) = rune_at-RuneIn chars k (below (rune_count chars) s (omega arith)) in
      let (text, s'', run, size, rest) = runes_lem n s' in
      (String.◌∷◌ c text, s'', rw (runes, at_k, run) refl, ap suc size, (known, rest))

  -- Where `rand.Intn` gives a number below its bound, `Generate` does not panic: its text has as
  -- many runes as the size says, or none for a negative size, and each is one of the 36 characters.
  pub generate_lem :
      (size : ℤ) (s : r.State)
      → (text : String) × (s' : r.State) × (generate r size s ≡ some (text, s'))
        × (rune_count text ≡ size_of size)
        × RunesIn text chars
  unfolding generate
  generate_lem (pos n) s = runes_lem n s
  generate_lem (negsuc n) s = ("", s, refl, refl, tt)
