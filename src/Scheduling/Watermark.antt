-- ===== src/Scheduling/Watermark.antt =====
-- Targets, headroom and priming of include/liblowlatencyaudio/UsbScheduling.h.
use liballa.Base.{ℕ, ◌+◌, ◌*◌, ◌≤◌, ◌<◌, ◌≡◌, true, ◌↔◌, arith, min, ◌⊎◌}
use liballa.Base.Int.{ℤ, pos, pos_part, ◌+ℤ◌, ◌-ℤ◌, ◌≤ℤ◌, max_ℤ, clamp_ℤ, +ℤ_parts, pos_sum, min_ℤ}
use liballa.Base.Word.{int_max}
use liballa.Scheduling.{
  min_graph_quantum, max_graph_quantum, checked_frame_budget_fits, automatic_write_headroom_frames,
  playback_watermark_config, automatic_playback_target_frames, resolved_playback_target_frames,
  startup_playback_prime_frames,
}

-- kPlaybackRingBytes and kWorstTransportFrameBytes
abbrev pub playback_ring_bytes : ℕ
playback_ring_bytes = 65536

abbrev pub worst_transport_frame_bytes : ℕ
worst_transport_frame_bytes = 8 * 4

-- A budget fits exactly when no term is negative and the three terms together stay within the
-- capacity.
pub checked_frame_budget_fits_iff :
    (first second third capacity : ℤ)
    → (checked_frame_budget_fits first second third capacity ≡ true) ↔ (
        (pos 0 ≤ℤ first)
        × (pos 0 ≤ℤ second)
        × (pos 0 ≤ℤ third)
        × (first +ℤ second +ℤ third ≤ℤ capacity))
unfolding checked_frame_budget_fits
checked_frame_budget_fits_iff first second third capacity = (
  λ h. ground (arith, +ℤ_parts first second, +ℤ_parts (first +ℤ second) third),
  λ h. ground (arith, +ℤ_parts first second, +ℤ_parts (first +ℤ second) third),
)

clamp_range :
    (x : ℤ) (lo hi : ℕ)
    → lo ≤ hi
    → (n : ℕ) × (clamp_ℤ x (pos lo) (pos hi) ≡ pos n) × (lo ≤ n) × (n ≤ hi)
clamp_range x lo hi h =
    (pos_part (clamp_ℤ x (pos lo) (pos hi)), ground arith, ground arith, ground arith)

multiple-ge : (q m : ℕ) → 1 ≤ m → q ≤ q * m
multiple-ge q m h = grind arith

-- Any request resolves to a quantum between 4 and 1024, a target of at least one quantum and at
-- most 1024 frames, and a limit of quantum plus target whose frames fit the playback ring at the
-- widest transport format.
pub playback_watermark_config_fits :
    (requested multiplier : ℤ)
    → let c = playback_watermark_config requested multiplier in
      (min_graph_quantum ≤ℤ c.graph_quantum)
      × (c.graph_quantum ≤ℤ c.target_frames)
      × (c.target_frames ≤ℤ max_graph_quantum)
      × (c.frame_limit ≡ c.graph_quantum +ℤ c.target_frames)
      × (pos_part c.frame_limit * worst_transport_frame_bytes ≤ playback_ring_bytes)
unfolding playback_watermark_config ◌+ℤ◌
playback_watermark_config_fits requested multiplier =
    let (q, eq, lo, hi) = clamp_range requested 4 1024 (omega arith) in
    let (m, em, one, eight) = clamp_range multiplier 1 8 (omega arith) in
    rw (eq, em) (ground (arith, multiple-ge q m, pos_sum q))

-- With a known drain chunk the headroom holds the block being admitted and the worst step: twice
-- the quantum less the chunk, never less than one quantum, and never more than two.
pub automatic_write_headroom_frames_covers :
    (quantum chunk : ℕ)
    → quantum + quantum ≤ int_max
    → 0 < chunk
    → let headroom = automatic_write_headroom_frames (pos quantum) (pos chunk) in
      (pos quantum ≤ℤ headroom)
      × (pos (quantum + quantum) ≤ℤ headroom +ℤ pos chunk)
      × (headroom ≤ℤ pos (quantum + quantum))
unfolding automatic_write_headroom_frames ◌+ℤ◌ ◌-ℤ◌
automatic_write_headroom_frames_covers quantum chunk h p = ground arith

-- With a known chunk the automatic target covers one quantum and one chunk, up to the largest
-- quantum, and a larger chunk never asks for less.
pub automatic_playback_target_frames_mono :
    (quantum small large : ℕ) (period : ℤ)
    → 0 < quantum
    → 0 < small
    → small ≤ large
    → let target =
        λ (chunk : ℕ). automatic_playback_target_frames (pos quantum) (pos chunk) period in
      (target small ≤ℤ target large) × (pos (min 1024 (quantum + small)) ≡ target small)
unfolding automatic_playback_target_frames ◌+ℤ◌ ◌-ℤ◌
automatic_playback_target_frames_mono quantum small large period h p q = ground arith

-- The resolved target lies between 0 and the maximum; a positive manual target is taken
-- exactly, cut off at the maximum.
pub resolved_playback_target_frames_bounds :
    (automatic manual quantum maximum : ℤ)
    → let target = resolved_playback_target_frames automatic manual quantum maximum in
      (pos 0 ≤ℤ target)
      × (target ≤ℤ max_ℤ (pos 0) maximum)
      × ((manual ≤ℤ pos 0) ⊎ (target ≡ min_ℤ (max_ℤ (pos 0) maximum) manual))
unfolding resolved_playback_target_frames
resolved_playback_target_frames_bounds automatic manual quantum maximum = ground arith

-- Startup priming lies between 0 and the maximum, and covers the first packets and the target, each
-- cut off at the maximum.
pub startup_playback_prime_frames_bounds :
    (max_target initial target : ℤ)
    → let prime = startup_playback_prime_frames max_target initial target in
      (pos 0 ≤ℤ prime)
      × (prime ≤ℤ max_ℤ (pos 0) max_target)
      × (min_ℤ initial max_target ≤ℤ prime)
      × (min_ℤ target max_target ≤ℤ prime)
unfolding startup_playback_prime_frames
startup_playback_prime_frames_bounds max_target initial target = ground arith
