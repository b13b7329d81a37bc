-- ===== src/Pacing/Carried.antt =====
-- The bytes, the prime and the cadence of a plan of src/libusb_uac_driver.cpp.
use native.Mathlib.Nat.{mul-le-mul_right, div-le_self}
use liballa.Base.{
  ℕ, ◌-◌, ◌*◌, ◌/◌, ◌%◌, ◌^◌, ◌≤◌, ◌<◌, ◌≡◌, refl, sym, ap, ◌∙◌, Bool, true, false, min, max, List,
  [], ◌∷◌, map, arith, if◌then◌else◌, length, length-map,
}
use liballa.Base.Int.{ℤ, pos, ◌-ℤ◌, leb_ℤ, max_ℤ, min_ℤ}
use liballa.Base.Word.{u32_mod}
use liballa.Scheduling.{startup_playback_prime_frames}
use liballa.Scheduling.Rational.{reset, reset-IsScheduling, total-reset}
use liballa.Descriptors.Playback.{StreamFormat}
use liballa.Capture.{Capture}
use liballa.Transfers.{sum}
use liballa.Pacing.{
  Geometry, Plan, PlanResult, no_packet_size, cannot_carry, metadata_exhausted, planned, ring_bytes,
  geometry, nominal_max_frames, nominal_counts, exact_initial_frames, plan_prime,
}
use liballa.Pacing.Packets.{
  all_leb, all_above, sum-nominal_counts, all_leb-nominal_counts, exact_initial_frames-sum,
}

-- The frames that a ring of the default size, kRingBytes, can hold beside a quantum.
abbrev pub default_prime_room : ℕ → ℤ → ℤ
default_prime_room stride quantum = max_ℤ (pos 0) (pos (ring_bytes / max 1 stride) -ℤ quantum)

-- How `n` packets follow their clock: none is empty by the capture clock, else their frames are the
-- exact rate's.
abbrev pub Cadence : Bool → ℕ → ℕ → ℕ → List ℕ → ℕ → Type 0
Cadence true n rate pps lengths frames = all_above lengths ≡ true
Cadence false n rate pps lengths frames = frames ≡ n * rate / pps

-- A plan of `n` packets: each one's bytes are within the packet size, they are whole frames, as many
-- as counted, and the prime covers them as far as a ring of the default size has room.
pub record IsCarried (n stride max_packet : ℕ) (quantum : ℤ) (p : Plan) : Type 0 where
  pub covers : length p.lengths ≡ n
  pub fits : all_leb max_packet p.lengths ≡ true
  pub whole : sum p.lengths ≡ p.initial_frames * stride
  pub primes :
      leb_ℤ (min_ℤ (default_prime_room stride quantum) (pos p.initial_frames)) p.startup_prime
      ≡ true

abbrev pub Planned : (Plan → Type 0) → PlanResult → Type 0
Planned P (planned p c) = P p
Planned P no_packet_size = Unit
Planned P cannot_carry = Unit
Planned P (metadata_exhausted c) = Unit

scaled_fits :
    (room stride : ℕ) (counts : List ℕ)
    → all_leb room counts ≡ true
    → all_leb (room * stride) (map (λ frames. frames * stride) counts) ≡ true
unfolding all_leb
scaled_fits room stride [] h = refl
scaled_fits room stride (n ∷ counts) h =
    let within : n ≤ room = ground arith in
    let scaled = mul-le-mul_right stride within in
    let rest = scaled_fits room stride counts (ground arith) in ground arith

all_leb_mono : (a b : ℕ) (ns : List ℕ) → a ≤ b → all_leb a ns ≡ true → all_leb b ns ≡ true
unfolding all_leb
all_leb_mono a b [] h v = refl
all_leb_mono a b (n ∷ ns) h v = let rest = all_leb_mono a b ns h (ground arith) in ground arith

scaled_sum :
    (stride : ℕ) (counts : List ℕ)
    → sum (map (λ frames. frames * stride) counts) ≡ sum counts * stride
unfolding sum
scaled_sum stride [] = omega arith
scaled_sum stride (n ∷ counts) = omega (arith, scaled_sum stride counts)

prime_covers :
    (room exact target : ℤ)
    → leb_ℤ
        (min_ℤ (max_ℤ (pos 0) room) exact)
        (startup_playback_prime_frames (max_ℤ (pos 0) room) exact target)
      ≡ true
unfolding startup_playback_prime_frames
prime_covers room exact target = ground arith

pub plan_prime-IsCarried :
    (g : Geometry) (n stride room max_packet : ℕ) (quantum target : ℤ) (counts : List ℕ)
    (c : Capture)
    → 0 < stride
    → room * stride ≤ max_packet
    → length counts ≡ n
    → all_leb room counts ≡ true
    → Planned
        (IsCarried n stride max_packet quantum)
        (plan_prime g stride room quantum target counts c)
unfolding plan_prime
plan_prime-IsCarried g n stride room max_packet quantum target counts c wide carries covers fits =
    let exact = exact_initial_frames stride (map (λ frames. frames * stride) counts) in
    record {
      covers = length-map counts _ ∙ covers;
      fits = all_leb_mono _ _ _ carries (scaled_fits room stride counts fits);
      whole =
          scaled_sum stride counts
          ∙ ap (λ k. k * stride) (sym (exact_initial_frames-sum stride counts wide));
      primes = prime_covers (pos (ring_bytes / max 1 stride) -ℤ quantum) (pos exact) target;
    }

host_rate : (b : Bool) (q : ℕ) → q ≤ (if b then 8000 else 1000) → max 1 q < u32_mod
host_rate true q h = omega arith
host_rate false q h = omega arith

pub geometry_rate :
    (configured : ℕ) (fmt : StreamFormat)
    → let g = geometry configured fmt in
      (0 < g.packets_per_second)
      × (g.packets_per_second < u32_mod)
      × (g.base_frames ≡ fmt.sample_rate / g.packets_per_second)
      × (g.rate_remainder ≡ fmt.sample_rate % g.packets_per_second)
unfolding geometry
geometry_rate configured fmt =
    let interval : ℕ =
      if fmt.is_high_speed then 2 ^ min 15 (fmt.interval - 1) else max 1 fmt.interval in
    let small = div-le_self (if fmt.is_high_speed then 8000 else 1000) interval in
    (omega arith, host_rate fmt.is_high_speed _ small, refl, refl)

reset_splits :
    (rate pps : ℕ)
    → 0 < pps
    → ((reset rate pps).whole ≡ rate / pps) × ((reset rate pps).fraction ≡ rate % pps)
unfolding reset
reset_splits rate pps h = ground arith

-- The plain cadence fits into the room for a nominal packet.
pub nominal_fits :
    (configured n room : ℕ) (fmt : StreamFormat)
    → fmt.sample_rate < u32_mod
    → nominal_max_frames (geometry configured fmt) ≤ room
    → all_leb room
        (nominal_counts n (reset fmt.sample_rate (geometry configured fmt).packets_per_second))
      ≡ true
unfolding nominal_max_frames
nominal_fits configured n room fmt small h =
    let g = geometry configured fmt in
    let (some_rate, bounded, base, rest) = geometry_rate configured fmt in
    let (whole, fraction) = reset_splits fmt.sample_rate g.packets_per_second some_rate in
    all_leb-nominal_counts n fmt.sample_rate room _
      (reset-IsScheduling fmt.sample_rate g.packets_per_second small bounded)
      (rw (whole, fraction) (rw (base, rest) at h))

pub nominal_cadence :
    (configured n : ℕ) (fmt : StreamFormat)
    → fmt.sample_rate < u32_mod
    → let pps = (geometry configured fmt).packets_per_second in
      sum (nominal_counts n (reset fmt.sample_rate pps)) ≡ n * fmt.sample_rate / pps
nominal_cadence configured n fmt small =
    let (some_rate, bounded, base, rest) = geometry_rate configured fmt in
    sum-nominal_counts n _ ∙ total-reset n fmt.sample_rate _ small bounded some_rate

scaled_above :
    (stride : ℕ) (counts : List ℕ)
    → 0 < stride
    → all_above counts ≡ true
    → all_above (map (λ frames. frames * stride) counts) ≡ true
unfolding all_above
scaled_above stride [] wide h = refl
scaled_above stride (n ∷ counts) wide h =
    let rest = scaled_above stride counts wide (ground arith) in
    let some_frame : 1 ≤ n = ground arith in
    let some_byte = mul-le-mul_right stride some_frame in ground arith

-- The cadence of the counts is that of the lengths in bytes.
pub lengths_keep_clock :
    (b : Bool) (n rate pps stride : ℕ) (counts : List ℕ)
    → 0 < stride
    → Cadence b n rate pps counts (sum counts)
    → let lengths = map (λ frames. frames * stride) counts in
      Cadence b n rate pps lengths (exact_initial_frames stride lengths)
lengths_keep_clock true n rate pps stride counts wide h = scaled_above stride counts wide h
lengths_keep_clock false n rate pps stride counts wide h =
    exact_initial_frames-sum stride counts wide ∙ h
