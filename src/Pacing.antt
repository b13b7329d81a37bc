-- ===== src/Pacing.antt =====
-- The plans of LibusbUacDriver::startIsoPump and startCapturePump in src/libusb_uac_driver.cpp: how often the endpoint takes
-- a packet, the packets of a transfer, the bytes of each initial packet, and the frames to prime.
-- `packetsPerTransfer` of the configuration, the packet size that libusb_get_max_iso_packet_size
-- answers, `graphQuantum_` and `playbackTargetFrames_` are arguments.
pub mod Packets
pub mod Carried
pub mod Fits
pub mod Agree
mod Tests
use liballa.Base.{
  ℕ, zero, suc, ◌+◌, ◌-◌, ◌*◌, ◌/◌, ◌%◌, ◌^◌, Bool, true, false, ◌&&◌, ◌||◌, min, max, List, [],
  ◌∷◌, map, Option, none, some, ltb, ◌==◌, if◌then◌else◌, get_or, bit_and,
}
use liballa.Base.Int.{ℤ, pos, pos_part, ◌-ℤ◌, leb_ℤ, max_ℤ}
use liballa.Base.Word.{u32, u64, sub_u64, to_int}
use liballa.Scheduling.{
  packets_per_transfer_for_rate, packets_per_second_for_interval, startup_playback_prime_frames,
}
use liballa.Scheduling.Rational.{RationalPacketScheduler, reset, next}
use liballa.Descriptors.Playback.{StreamFormat}
use liballa.Capture.{Capture}
use liballa.Capture.Packets.{implicit_fifo_capacity}

abbrev pub ring_bytes : ℕ
ring_bytes = 2 ^ 16

pub record Geometry : Type 0 where
  pub packet_interval : ℕ
  pub packets_per_second : ℕ
  pub packets_per_transfer : ℕ
  pub nominal_transfer_ns : ℤ
  pub base_frames : ℕ
  pub rate_remainder : ℕ
  pub seed_q16 : ℕ

-- The first part of startIsoPump; `hostPeriodHz` is that of the bus speed.
unfoldable pub geometry : ℕ → StreamFormat → Geometry
geometry configured fmt =
    let host_period_hz : ℕ = if fmt.is_high_speed then 8000 else 1000 in
    let interval : ℕ =
      if fmt.is_high_speed then 2 ^ min 15 (fmt.interval - 1) else max 1 fmt.interval in
    let rate = max 1 (host_period_hz / interval) in
    let packets =
      if configured == 0 then packets_per_transfer_for_rate (pos rate) else configured in
    let base = fmt.sample_rate / rate in
    let rest = fmt.sample_rate % rate in
    record {
      packet_interval = interval;
      packets_per_second = rate;
      packets_per_transfer = packets;
      nominal_transfer_ns =
          if ltb 0 fmt.sample_rate then to_int (packets * 1000000000 / rate) else pos 0;
      base_frames = base;
      rate_remainder = rest;
      seed_q16 = u32 (base * 2 ^ 16 + rest * 2 ^ 16 / rate);
    }

-- `nominalMaxFrames`
unfoldable pub nominal_max_frames : Geometry → ℕ
nominal_max_frames g = g.base_frames + (if ltb 0 g.rate_remainder then 1 else 0)

-- The frames of the packets of all transfers, as `nominalScheduler_` gives them one after another.
unfoldable pub nominal_counts : ℕ → RationalPacketScheduler → List ℕ
nominal_counts zero s = []
nominal_counts (suc n) s = let (s', frames) = next s in frames ∷ nominal_counts n s'

-- The loop that sizes one packet by the capture clock, over the entries between the read and the
-- write counter. Entries of no frames are skipped; `none` is the exhausted metadata. No other thread
-- reads meanwhile, and an entry is within `int`.
unfoldable pub prime_packet : ℕ → ℕ → Capture → Capture × Option ℕ
prime_packet zero max_frames c = (c, none)
prime_packet (suc entries) max_frames c =
    let frames =
      min (get_or c.implicit_frames (bit_and c.implicit_read (implicit_fifo_capacity - 1)) 0)
        max_frames in
    let taken = record c { implicit_read = u64 (c.implicit_read + 1) } in
    let later = prime_packet entries max_frames taken in
    if frames == 0 then later else (taken, some frames)

-- A packet and those after it.
unfoldable pub join_packets :
    Capture × Option ℕ → Capture × Option (List ℕ) → Capture × Option (List ℕ)
join_packets (c, none) others = (c, none)
join_packets (c, some frames) (c', none) = (c', none)
join_packets (c, some frames) (c', some counts) = (c', some (frames ∷ counts))

-- The loops over the transfers and their packets.
unfoldable pub prime_packets : ℕ → ℕ → Capture → Capture × Option (List ℕ)
prime_packets zero max_frames c = (c, some [])
prime_packets (suc n) max_frames c =
    let first = prime_packet (sub_u64 c.implicit_write c.implicit_read) max_frames c in
    join_packets first (prime_packets n max_frames first.0)

-- `exactInitialPacketFrames_`, over the lengths of the packets.
unfoldable pub exact_initial_frames : ℕ → List ℕ → ℕ
exact_initial_frames stride [] = 0
exact_initial_frames stride (n ∷ lengths) = n / stride + exact_initial_frames stride lengths

pub record Plan : Type 0 where
  pub shape : Geometry
  pub max_frames_per_packet : ℕ
  pub lengths : List ℕ
  pub initial_frames : ℕ
  pub startup_prime : ℤ

-- What startIsoPump decides before the feedback transfers; the capture ring has the metadata left.
pub data PlanResult : Type 0 where
  no_packet_size cannot_carry : PlanResult
  metadata_exhausted : Capture → PlanResult
  planned : Plan → Capture → PlanResult

-- The frames to prime for packets of these counts.
unfoldable pub plan_prime : Geometry → ℕ → ℕ → ℤ → ℤ → List ℕ → Capture → PlanResult
plan_prime g stride max_frames quantum target counts c =
    let lengths = map (λ frames. frames * stride) counts in
    let exact = exact_initial_frames stride lengths in
    let max_prime = max_ℤ (pos 0) (pos (ring_bytes / max 1 stride) -ℤ quantum) in
    planned
      (record {
        shape = g;
        max_frames_per_packet = max_frames;
        lengths = lengths;
        initial_frames = exact;
        startup_prime = startup_playback_prime_frames max_prime (pos exact) target;
      })
      c

-- The sizes are the capture clock's, if the metadata lasted.
unfoldable pub plan_primed : Geometry → ℕ → ℕ → ℤ → ℤ → Capture × Option (List ℕ) → PlanResult
plan_primed g stride max_frames quantum target (c, none) = metadata_exhausted c
plan_primed g stride max_frames quantum target (c, some counts) =
    plan_prime g stride max_frames quantum target counts c

-- The capture endpoint is the clock of an implicit-feedback sink.
abbrev pub follows_capture : StreamFormat → Capture → Bool
follows_capture fmt c = c.active && c.implicit && fmt.feedback_endpoint_address == 0

-- startIsoPump up to the feedback transfers
unfoldable pub plan_iso_pump : ℕ → ℕ → ℤ → ℤ → ℤ → StreamFormat → Capture → PlanResult
plan_iso_pump configured transfer_count max_packet quantum target fmt c =
    let g = geometry configured fmt in
    let stride = fmt.channels * fmt.bytes_per_sample in
    let physical = pos_part max_packet / stride in
    let nominal = nominal_max_frames g in
    let max_frames = min physical (nominal + 1) in
    let count = transfer_count * g.packets_per_transfer in
    if stride == 0 || leb_ℤ max_packet (pos 0)
    then no_packet_size
    else if ltb physical nominal
    then cannot_carry
    else if follows_capture fmt c
    then plan_primed g stride max_frames quantum target (prime_packets count max_frames c)
    else plan_prime g stride max_frames quantum target
        (nominal_counts count (reset fmt.sample_rate g.packets_per_second)) c

-- What startCapturePump decides, for the packet size that libusb answers.
pub record CapturePlan : Type 0 where
  pub frame_stride : ℕ
  pub capture_packets : ℕ
  pub capture_max_frames : ℕ
  pub transfer_frames : ℕ

unfoldable pub plan_capture_pump : ℕ → ℤ → StreamFormat → Option CapturePlan
plan_capture_pump configured max_packet fmt =
    let stride = fmt.channels * fmt.bytes_per_sample in
    let rate = packets_per_second_for_interval fmt.is_high_speed (pos fmt.interval) in
    let packets =
      if configured == 0 then packets_per_transfer_for_rate (pos rate) else configured in
    let nominal = (fmt.sample_rate + rate - 1) / rate in
    let physical = pos_part max_packet / stride in
    let max_frames = min physical (nominal + 1) in
    if leb_ℤ max_packet (pos 0)
    then none
    else if stride == 0
    then none
    else if ltb physical nominal
    then none
    else some (record {
      frame_stride = stride;
      capture_packets = packets;
      capture_max_frames = max_frames;
      transfer_frames = max_frames * packets;
    })
