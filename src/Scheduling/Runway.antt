-- ===== src/Scheduling/Runway.antt =====
-- playbackRunwayNanoseconds of include/liblowlatencyaudio/UsbScheduling.h: how long the queued
-- frames last, saturating at the largest uint64_t.
use native.Mathlib.Nat.{div-add-mod, mod-lt, mul-add-div, div-le_of_le-mul}
use liballa.Base.{
  ℕ, ◌+◌, ◌*◌, ◌-◌, ◌/◌, ◌%◌, ◌≤◌, ◌<◌, ◌≡◌, ◌∙◌, ap, min, ◌==◌, ◌||◌, ltb, if◌then◌else◌, arith,
}
use liballa.Base.Word.{u64_mod, u32_mod, u64}

abbrev pub nanoseconds_per_second : ℕ
nanoseconds_per_second = 1000000000

-- std::numeric_limits<uint64_t>::max()
abbrev pub u64_max : ℕ
u64_max = u64_mod - 1

-- playbackRunwayNanoseconds; the products and the sum wrap as uint64_t does.
unfoldable pub playback_runway_nanoseconds : ℕ → ℕ → ℕ
playback_runway_nanoseconds queued_frames sample_rate =
    if queued_frames == 0 || sample_rate == 0
    then 0
    else (let whole_seconds = queued_frames / sample_rate in
        let remainder_frames = queued_frames % sample_rate in
        if ltb (u64_max / nanoseconds_per_second) whole_seconds
        then u64_max
        else (let runway = u64 (whole_seconds * nanoseconds_per_second) in
            let remainder_ns = u64 (remainder_frames * nanoseconds_per_second) / sample_rate in
            if ltb (u64_max - remainder_ns) runway then u64_max else u64 (runway + remainder_ns)))

-- The exact time splits into that of the whole seconds and that of the rest.
runway_split :
    (q r : ℕ)
    → 0 < r
    → q * nanoseconds_per_second / r
      ≡ q / r * nanoseconds_per_second + q % r * nanoseconds_per_second / r
runway_split q r h = ap (λ t. t / r) whole ∙ mul-add-div h (q / r * nanoseconds_per_second) _
  where
    whole :
        q * nanoseconds_per_second
        ≡ r * (q / r * nanoseconds_per_second) + q % r * nanoseconds_per_second
    whole = omega (arith, div-add-mod q r)

rest_below : (q r : ℕ) → 0 < r → q % r * nanoseconds_per_second / r ≤ nanoseconds_per_second
rest_below q r h = div-le_of_le-mul r (omega (arith, mod-lt q h))

-- For every queue length and every positive rate the runway is the exact time of the queued frames
-- in nanoseconds, rounded down, or the largest uint64_t where that does not fit; no step wraps.
pub runway-exact :
    (q r : ℕ)
    → q < u64_mod
    → r < u32_mod
    → 0 < r
    → playback_runway_nanoseconds q r ≡ min u64_max (q * nanoseconds_per_second / r)
unfolding playback_runway_nanoseconds
runway-exact q r hq hr h = ground (arith, runway_split q r h, rest_below q r h, mod-lt q h)
