-- ===== src/Scheduling.antt =====
-- include/liblowlatencyaudio/UsbScheduling.h: frame budgets, transfer geometry and the playback
-- watermarks. An `int` is an integer, and the tests on its sign are the code's own.
pub mod Packets
pub mod Watermark
pub mod Runway
pub mod Rational
mod Tests
use liballa.Base.{
  ℕ, ◌+◌, ◌*◌, ◌-◌, ◌/◌, ◌^◌, Bool, true, false, ◌||◌, ◌&&◌, min, max, ltb, leb, if◌then◌else◌,
}
use liballa.Base.Int.{
  ℤ, pos, negsuc, pos_part, ◌+ℤ◌, ◌-ℤ◌, ltb_ℤ, leb_ℤ, eqb_ℤ, max_ℤ, min_ℤ, clamp_ℤ,
}
use liballa.Base.Word.{int_max, to_int, u64_mod}

abbrev pub min_graph_quantum : ℤ
min_graph_quantum = pos 4

abbrev pub max_graph_quantum : ℤ
max_graph_quantum = pos 1024

abbrev pub explicit_zero_frames : ℤ
explicit_zero_frames = negsuc 0

abbrev pub default_period_multiplier : ℤ
default_period_multiplier = pos 3

-- resolveOptionalFrames
unfoldable pub resolve_optional_frames : ℤ → ℤ → ℤ
resolve_optional_frames requested automatic =
    if eqb_ℤ requested explicit_zero_frames
    then pos 0
    else if eqb_ℤ requested (pos 0)
    then automatic
    else requested

-- checkedFrameBudgetFits; the sum is taken in 64 bits, so it does not wrap.
unfoldable pub checked_frame_budget_fits : ℤ → ℤ → ℤ → ℤ → Bool
checked_frame_budget_fits first second third capacity =
    if ltb_ℤ first (pos 0) || ltb_ℤ second (pos 0) || ltb_ℤ third (pos 0) || ltb_ℤ capacity (pos 0)
    then false
    else leb_ℤ (first +ℤ second +ℤ third) capacity

-- checkedFrameSum
unfoldable pub checked_frame_sum : ℤ → ℤ → ℤ
checked_frame_sum first second =
    if ltb_ℤ first (pos 0) || ltb_ℤ second (pos 0) || ltb_ℤ (pos int_max) (first +ℤ second)
    then pos 0
    else first +ℤ second

-- isCompleteCaptureQuantum
unfoldable pub is_complete_capture_quantum : ℤ → ℤ → Bool
is_complete_capture_quantum available required = ltb_ℤ (pos 0) required && leb_ℤ required available

-- pollMillisUntil, over the nanoseconds from `now` to `deadline`.
unfoldable pub poll_millis_until : ℤ → ℤ → ℤ
poll_millis_until deadline now =
    let remaining = deadline -ℤ now in
    if leb_ℤ remaining (pos 0)
    then pos 0
    else (let ms = (pos_part remaining + 999999) / 1000000 in to_int (if ltb 0 ms then ms else 1))

-- packetsPerSecondForInterval
unfoldable pub packets_per_second_for_interval : Bool → ℤ → ℕ
packets_per_second_for_interval high_speed b_interval =
    let host_periods = if high_speed then 8000 else 1000 in
    let interval : ℕ =
      if high_speed
      then 2 ^ pos_part (clamp_ℤ (b_interval -ℤ pos 1) (pos 0) (pos 15))
      else pos_part (max_ℤ (pos 1) b_interval) in
    max 1 (host_periods / interval)

-- packetsPerTransferForRate
unfoldable pub packets_per_transfer_for_rate : ℤ → ℕ
packets_per_transfer_for_rate packets_per_second =
    if leb_ℤ (pos 8000) packets_per_second
    then 8
    else if leb_ℤ (pos 4000) packets_per_second
    then 4
    else if leb_ℤ (pos 2000) packets_per_second
    then 2
    else 1

-- nominalTransferFrames; the product is taken in 64 bits.
unfoldable pub nominal_transfer_frames : ℤ → ℤ → ℤ → ℕ
nominal_transfer_frames sample_rate packets_per_transfer packets_per_second =
    if leb_ℤ sample_rate (pos 0)
      || leb_ℤ packets_per_transfer (pos 0)
      || leb_ℤ packets_per_second (pos 0)
    then 0
    else (let numerator = pos_part sample_rate * pos_part packets_per_transfer in
        min int_max ((numerator + pos_part packets_per_second - 1) / pos_part packets_per_second))

-- clampPeriodMultiplier
unfoldable pub clamp_period_multiplier : ℤ → ℤ
clamp_period_multiplier multiplier = clamp_ℤ multiplier (pos 1) (pos 8)

-- playbackWatermarkTransferCount
unfoldable pub playback_watermark_transfer_count : ℤ → ℤ → Bool → ℤ
playback_watermark_transfer_count inflight_transfers reserve_transfers exact =
    let inflight = max_ℤ (pos 0) inflight_transfers in
    let reserve = max_ℤ (pos 0) reserve_transfers in
    if exact
    then reserve
    else if ltb_ℤ (pos int_max -ℤ reserve) inflight
    then pos int_max
    else inflight +ℤ reserve

-- automaticWriteHeadroomFrames
unfoldable pub automatic_write_headroom_frames : ℤ → ℤ → ℤ
automatic_write_headroom_frames graph_quantum drain_chunk =
    let quantum = max_ℤ (pos 0) graph_quantum in
    if leb_ℤ drain_chunk (pos 0)
    then quantum
    else (let step = if ltb_ℤ drain_chunk quantum then quantum -ℤ drain_chunk else pos 0 in
        if ltb_ℤ (pos int_max -ℤ step) quantum then pos int_max else quantum +ℤ step)

pub record PlaybackWatermarkConfig : Type 0 where
  pub graph_quantum : ℤ
  pub target_frames : ℤ
  pub frame_limit : ℤ

-- playbackWatermarkConfig; quantum and multiplier are clamped, so the product is that of numbers.
unfoldable pub playback_watermark_config : ℤ → ℤ → PlaybackWatermarkConfig
unfolding clamp_period_multiplier
playback_watermark_config requested_frames period_multiplier =
    let quantum = clamp_ℤ requested_frames min_graph_quantum max_graph_quantum in
    let multiplier = clamp_period_multiplier period_multiplier in
    let target = min_ℤ max_graph_quantum (pos (pos_part quantum * pos_part multiplier)) in
    record { graph_quantum = quantum; target_frames = target; frame_limit = quantum +ℤ target }

-- automaticPlaybackTargetFrames
unfoldable pub automatic_playback_target_frames : ℤ → ℤ → ℤ → ℤ
automatic_playback_target_frames quantum drain_chunk period_target =
    if leb_ℤ quantum (pos 0) || leb_ℤ drain_chunk (pos 0)
    then period_target
    else if ltb_ℤ (max_graph_quantum -ℤ drain_chunk) quantum
    then max_graph_quantum
    else quantum +ℤ drain_chunk

-- effectivePlaybackTargetFrames
unfoldable pub effective_playback_target_frames : ℤ → ℤ → ℤ
effective_playback_target_frames configured queued_transfer_frames =
    max_ℤ (pos 0) (max_ℤ configured queued_transfer_frames)

-- resolvedPlaybackTargetFrames; `graphQuantum` is unused there too.
unfoldable pub resolved_playback_target_frames : ℤ → ℤ → ℤ → ℤ → ℤ
resolved_playback_target_frames automatic_target manual_target graph_quantum max_target =
    let maximum = max_ℤ (pos 0) max_target in
    if eqb_ℤ maximum (pos 0)
    then pos 0
    else (let automatic = min_ℤ maximum (max_ℤ (pos 0) automatic_target) in
        if leb_ℤ manual_target (pos 0) then automatic else min_ℤ maximum manual_target)

-- startupPlaybackPrimeFrames
unfoldable pub startup_playback_prime_frames : ℤ → ℤ → ℤ → ℤ
startup_playback_prime_frames max_target exact_initial_packet_frames playback_target =
    if leb_ℤ max_target (pos 0)
    then pos 0
    else min_ℤ max_target (max_ℤ (pos 0) (max_ℤ exact_initial_packet_frames playback_target))
