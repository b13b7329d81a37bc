-- ===== src/Descriptors/Enumerate/Range.antt =====
-- The ranges of a clock in enumerateFormats of src/libusb_uac_driver.cpp.
use native.Mathlib.Nat.{mul-le-mul_right, div-mul-le_self, div-add-mod, mod-lt}
use liballa.Base.{
  ℕ, zero, suc, ◌+◌, ◌-◌, ◌*◌, ◌/◌, ◌%◌, ◌^◌, ◌≤◌, ◌<◌, ◌≡◌, refl, sym, ap, ◌∙◌, subst, ◌⊎◌, inl,
  inr, dec_lt, ℕ_discrete, Bool, true, false, ◌&&◌, ◌||◌, min, List, [], ◌∷◌, arith, leb, ◌==◌,
  if◌then◌else◌, length,
}
use liballa.Base.Word.{u32, u32_mod}
use liballa.Descriptors.{byte}
use liballa.Descriptors.Playback.{rd24}

-- The loop over one range from `r` on, on 32-bit words: the rates for which its body runs.
unfoldable pub range_loop : ℕ → ℕ → ℕ → ℕ → ℕ → List ℕ
range_loop zero lo hi step r = []
range_loop (suc fuel) lo hi step r =
    let increment = if step == 0 then if r == lo then hi - lo else 0 else step in
    let rest = range_loop fuel lo hi step (u32 (r + increment)) in
    let limit = u32 (256 * (if step == 0 then 1 else step)) in
    if leb r hi && leb ((r + u32_mod - lo) % u32_mod) limit
    then r ∷ (if step == 0 || r == hi then [] else rest)
    else []

-- `r` has 2 ^ 32 values, so that a loop with more rounds would not end.
unfoldable pub range_rates : ℕ → ℕ → ℕ → List ℕ
range_rates lo hi step = range_loop u32_mod lo hi step lo

abbrev pub rd32 : List ℕ → ℕ → ℕ
rd32 p i = rd24 p i + byte p (i + 3) * 2 ^ 24

-- The ranges of an answer, from the k-th on, as lo, hi and step.
unfoldable pub sub_ranges : List ℕ → ℕ → ℕ → List (ℕ × ℕ × ℕ)
sub_ranges rng k zero = []
sub_ranges rng k (suc n) =
    let t = 2 + 12 * k in
    let rest = sub_ranges rng (k + 1) n in
    if leb (2 + 12 * (k + 1)) (length rng)
    then (rd32 rng t, rd32 rng (t + 4), rd32 rng (t + 8)) ∷ rest
    else []

-- `count` rates from `r` on, each `step` above the one before.
abbrev pub progression : ℕ → ℕ → ℕ → List ℕ
progression zero r step = []
progression (suc count) r step = r ∷ progression count (r + step) step

-- The loop's test, where no word wraps.
abbrev test : ℕ → ℕ → ℕ → ℕ → Bool
test lo hi step r =
    leb r hi && leb ((r + u32_mod - lo) % u32_mod) (u32 (256 * (if step == 0 then 1 else step)))

limit :
    (step : ℕ) → 0 < step → step < 2 ^ 24 → u32 (256 * (if step == 0 then 1 else step)) ≡ 256 * step
limit step hs hl = ground arith

test_passes :
    (lo hi step d : ℕ)
    → lo + d ≤ hi
    → hi < u32_mod
    → 0 < step
    → step < 2 ^ 24
    → d ≤ 256 * step
    → test lo hi step (lo + d) ≡ true
test_passes lo hi step d h hw hs hl hd = rw (limit step hs hl) (ground arith)

test_fails :
    (lo hi step d : ℕ)
    → lo + d < u32_mod
    → 0 < step
    → step < 2 ^ 24
    → (hi < lo + d) ⊎ (256 * step < d)
    → test lo hi step (lo + d) ≡ false
test_fails lo hi step d hw hs hl over = rw (limit step hs hl) (ground arith)

range_loop_round :
    (fuel lo hi step d : ℕ)
    → test lo hi step (lo + d) ≡ true
    → 0 < step
    → lo + (d + step) < u32_mod
    → range_loop (suc fuel) lo hi step (lo + d)
      ≡ (lo + d) ∷ (if lo + d == hi then [] else range_loop fuel lo hi step (lo + (d + step)))
unfolding range_loop
range_loop_round fuel lo hi step d passes hs hw =
    let positive : (step == 0) ≡ false = ground arith in
    let same : u32 (lo + d + step) ≡ lo + (d + step) = omega arith in
    rw passes (rw positive (rw same))

range_loop_stops :
    (fuel lo hi step r : ℕ) → test lo hi step r ≡ false → range_loop fuel lo hi step r ≡ []
unfolding range_loop
range_loop_stops zero lo hi step r fails = refl
range_loop_stops (suc fuel) lo hi step r fails = rw fails

no_rest : (b : Bool) → let nothing : List ℕ = [] in (if b then nothing else nothing) ≡ nothing
no_rest true = refl
no_rest false = refl

range_loop-progression :
    (n fuel lo hi step d : ℕ)
    → lo + d + n * step ≤ hi
    → d + n * step ≤ 256 * step
    → (hi < lo + d + suc n * step) ⊎ (256 * step < d + suc n * step)
    → 0 < step
    → step < 2 ^ 24
    → hi + step < u32_mod
    → suc n < fuel
    → range_loop fuel lo hi step (lo + d) ≡ progression (suc n) (lo + d) step
unfolding range_loop
range_loop-progression n zero lo hi step d low few over hs hl hw enough = absurd (omega arith)
range_loop-progression zero (suc zero) lo hi step d low few over hs hl hw enough =
    absurd (omega arith)
range_loop-progression zero (suc (suc fuel)) lo hi step d low few over hs hl hw enough =
    let passes = test_passes lo hi step d (omega arith) (omega arith) hs hl (omega arith) in
    let fails = test_fails lo hi step (d + step) (omega arith) hs hl (ground arith) in
    range_loop_round (suc fuel) lo hi step d passes hs (omega arith)
    ∙ rw (range_loop_stops (suc fuel) lo hi step (lo + (d + step)) fails)
        (ap (λ (rest : List ℕ). (lo + d) ∷ rest) (no_rest (lo + d == hi)))
range_loop-progression (suc n) (suc fuel) lo hi step d low few over hs hl hw enough =
    let passes = test_passes lo hi step d (omega arith) (omega arith) hs hl (omega arith) in
    let inner : (lo + d == hi) ≡ false = ground arith in
    let later =
      range_loop-progression n fuel lo hi step (d + step) (omega arith) (omega arith) (ground arith)
        hs hl hw (omega arith) in
    let same : lo + (d + step) ≡ lo + d + step = omega arith in
    range_loop_round fuel lo hi step d passes hs (omega arith) ∙ rw (inner, later, same)

overrun :
    (lo hi step : ℕ)
    → 0 < step
    → let n = min 256 ((hi - lo) / step) in
      (hi < lo + 0 + suc n * step) ⊎ (256 * step < 0 + suc n * step)
overrun lo hi step hs =
    let q = (hi - lo) / step in
    let left : hi - lo < suc q * step =
      omega (arith, div-add-mod (hi - lo) step, mod-lt (hi - lo) hs) in
    elim (dec_lt q 256) [
      | yes small ↦ let same : min 256 q ≡ q = omega arith in rw same (inl (omega (arith, left)))
      | no big ↦ let same : min 256 q ≡ 256 = omega arith in rw same (inr (omega (arith, hs)))
    ]

stepped :
    (fuel lo hi step : ℕ)
    → lo ≤ hi
    → 0 < step
    → step < 2 ^ 24
    → hi + step < u32_mod
    → 257 < fuel
    → range_loop fuel lo hi step lo ≡ progression (min 256 ((hi - lo) / step) + 1) lo step
stepped fuel lo hi step h hs hl hw enough =
    let n = min 256 ((hi - lo) / step) in
    let whole : (hi - lo) / step * step ≤ hi - lo = div-mul-le_self (hi - lo) step in
    let low : n * step ≤ (hi - lo) / step * step = mul-le-mul_right step (omega arith) in
    let few : n * step ≤ 256 * step = mul-le-mul_right step (omega arith) in
    let over : (hi < lo + 0 + suc n * step) ⊎ (256 * step < 0 + suc n * step) =
      overrun lo hi step hs in
    let same : lo + 0 ≡ lo = omega arith in
    let counted : n + 1 ≡ suc n = omega arith in
    rw (counted) (
      subst (λ (r : ℕ). range_loop fuel lo hi step r ≡ progression (suc n) r step) same
        (range_loop-progression n fuel lo hi step 0 (omega arith) (omega arith) over hs hl hw
          (omega arith)))

single : (fuel lo hi : ℕ) → lo ≤ hi → hi < u32_mod → range_loop (suc fuel) lo hi 0 lo ≡ lo ∷ []
unfolding range_loop
single fuel lo hi h hw =
    let passes : (leb lo hi && leb ((lo + u32_mod - lo) % u32_mod) 256) ≡ true = ground arith in
    rw passes

-- The rates that `enumerateFormats` takes from a range that ends more than a step below 2 ^ 32: with a
-- step above 0 and below 2 ^ 24, the range's start and each step above it within the range, but not
-- more than 256 steps; with a step of 0 the start alone.
pub range_rates-progression :
    (lo hi step : ℕ)
    → lo ≤ hi
    → step < 2 ^ 24
    → hi + step < u32_mod
    → range_rates lo hi step
      ≡ progression (if step == 0 then 1 else min 256 ((hi - lo) / step) + 1) lo step
unfolding range_rates
range_rates-progression lo hi step h hl hw = elim (ℕ_discrete step 0) [
  | yes z ↦
      subst
        (λ (s : ℕ).
          range_loop u32_mod lo hi s lo
          ≡ progression (if s == 0 then 1 else min 256 ((hi - lo) / s) + 1) lo s)
        (sym z) (single (u32_mod - 1) lo hi h (omega arith))
  | no nz ↦
      let positive : (step == 0) ≡ false = ground arith in
      rw positive (stepped u32_mod lo hi step h (omega arith) hl hw (omega arith))
]
