-- ===== src/BufferConfig.antt =====
-- The user's buffer configuration in src/libusb_uac_driver.cpp: configureUserspaceBuffers before the
-- stream starts, and setUserspaceBufferConfig and setGraphQuantum, which resolve the frame budgets.
-- Frame counts that the driver computes and the counts of the configuration that it has checked are
-- numbers.
pub mod Configure
pub mod Resolve
mod Tests
use liballa.Base.{
  ℕ, ◌-◌, ◌*◌, ◌/◌, Bool, true, false, ◌&&◌, ◌||◌, not, List, [], bit_and, ltb, leb, ◌==◌,
  if◌then◌else◌, length, replicate,
}
use liballa.Base.Int.{ℤ, pos, pos_part, ltb_ℤ, leb_ℤ, eqb_ℤ, max_ℤ}
use liballa.Base.Word.{to_int}
use liballa.Scheduling.{
  PlaybackWatermarkConfig, explicit_zero_frames, resolve_optional_frames, checked_frame_budget_fits,
  nominal_transfer_frames, automatic_write_headroom_frames, playback_watermark_config,
  automatic_playback_target_frames, startup_playback_prime_frames,
}
use liballa.Playback.{Playback}
use liballa.Capture.{Capture}

pub record UserspaceBufferConfig : Type 0 where
  pub playback_target_frames : ℤ
  pub startup_prime_frames : ℤ
  pub write_headroom_frames : ℤ
  pub capture_limit_frames : ℤ
  pub capture_target_frames : ℤ
  pub capture_headroom_frames : ℤ
  pub capture_deadline_slack_frames : ℤ
  pub transfer_count : ℤ
  pub packets_per_transfer : ℤ
  pub ring_capacity_bytes : ℕ

-- What these functions read and write of the driver. The quantum, the playback target and the
-- transfer count that `Capture` names are the driver's own.
pub record Driver : Type 0 where
  pub streaming : Bool
  pub playback : Playback
  pub capture : Capture
  pub config : UserspaceBufferConfig
  pub sample_rate : ℤ
  pub playback_packets_per_transfer : ℤ
  pub microframes_per_sec : ℤ
  pub exact_initial_packet_frames : ℕ
  pub capture_transfer_frames : ℤ
  pub capture_target_frames : ℤ
  pub capture_headroom_frames : ℤ
  pub capture_deadline_slack_frames : ℤ

abbrev pub default_ring_bytes : ℕ
default_ring_bytes = 65536

abbrev pub requested_capacity : UserspaceBufferConfig → ℕ
requested_capacity config =
    if config.ring_capacity_bytes == 0 then default_ring_bytes else config.ring_capacity_bytes

-- The second guard of configureUserspaceBuffers.
unfoldable pub unsupported : UserspaceBufferConfig → Bool
unsupported config =
    ltb (requested_capacity config) 4096
    || ltb 1048576 (requested_capacity config)
    || not (bit_and (requested_capacity config) (requested_capacity config - 1) == 0)
    || (not (eqb_ℤ config.transfer_count (pos 0))
        && (ltb_ℤ config.transfer_count (pos 1) || ltb_ℤ (pos 8) config.transfer_count))
    || (not (eqb_ℤ config.packets_per_transfer (pos 0))
        && (ltb_ℤ config.packets_per_transfer (pos 1) || ltb_ℤ (pos 8) config.packets_per_transfer))
    || ltb_ℤ config.playback_target_frames (pos 0)
    || ltb_ℤ config.startup_prime_frames (pos 0)
    || ltb_ℤ config.write_headroom_frames (pos 0)
    || ltb_ℤ config.capture_limit_frames (pos 0)
    || ltb_ℤ config.capture_target_frames explicit_zero_frames
    || ltb_ℤ config.capture_headroom_frames explicit_zero_frames
    || ltb_ℤ config.capture_deadline_slack_frames explicit_zero_frames

-- The stores of configureUserspaceBuffers.
unfoldable pub allocate : UserspaceBufferConfig → Driver → Driver
allocate config d =
    let capacity = requested_capacity config in
    record d {
      playback = record d.playback {
        ring = replicate capacity 0;
        ring_mask = capacity - 1;
        ring_head = 0;
        ring_tail = 0;
      };
      capture = record d.capture {
        ring = replicate capacity 0;
        ring_mask = capacity - 1;
        ring_head = 0;
        ring_tail = 0;
        live = false;
        startup_discard_frames = 0;
        transfer_count =
            if eqb_ℤ config.transfer_count (pos 0) then 4 else pos_part config.transfer_count;
      };
      config = config;
    }

-- LibusbUacDriver::configureUserspaceBuffers
unfoldable pub configure_userspace_buffers : UserspaceBufferConfig → Driver → Driver × Bool
configure_userspace_buffers config d =
    if d.streaming || d.playback.started
    then (d, false)
    else if unsupported config
    then (d, false)
    else (allocate config d, true)

-- The budgets that setUserspaceBufferConfig resolves before it checks them.
pub record Budgets : Type 0 where
  pub graph_quantum : ℤ
  pub physical_frames : ℤ
  pub headroom : ℤ
  pub target : ℤ
  pub prime : ℤ
  pub capture_wave : ℤ
  pub capture_target : ℤ
  pub capture_headroom : ℤ
  pub capture_slack : ℤ

unfoldable pub resolve : ℤ → UserspaceBufferConfig → ℤ → Driver → Budgets
resolve frames user period_multiplier d =
    let automatic = playback_watermark_config frames period_multiplier in
    let stride = d.playback.channels * d.playback.bytes_per_sample in
    let physical = if stride == 0 then pos 0 else to_int (length d.playback.ring / stride) in
    let transfers = d.capture.transfer_count in
    let drain_chunk =
      pos (if ltb 0 transfers then d.exact_initial_packet_frames / transfers else 0) in
    let nominal_chunk =
      nominal_transfer_frames d.sample_rate d.playback_packets_per_transfer d.microframes_per_sec in
    let target =
      if eqb_ℤ user.playback_target_frames (pos 0)
      then automatic_playback_target_frames automatic.graph_quantum (pos nominal_chunk)
          automatic.target_frames
      else user.playback_target_frames in
    let automatic_prime =
      startup_playback_prime_frames physical (pos d.exact_initial_packet_frames) target in
    let wave = max_ℤ (pos 1) d.capture_transfer_frames in
    record {
      graph_quantum = automatic.graph_quantum;
      physical_frames = physical;
      headroom =
          if eqb_ℤ user.write_headroom_frames (pos 0)
          then automatic_write_headroom_frames automatic.graph_quantum drain_chunk
          else user.write_headroom_frames;
      target = target;
      prime =
          if eqb_ℤ user.startup_prime_frames (pos 0)
          then automatic_prime
          else user.startup_prime_frames;
      capture_wave = wave;
      capture_target = resolve_optional_frames user.capture_target_frames wave;
      capture_headroom = resolve_optional_frames user.capture_headroom_frames wave;
      capture_slack = resolve_optional_frames user.capture_deadline_slack_frames wave;
    }

-- `valid` of setUserspaceBufferConfig
unfoldable pub budgets_fit : Budgets → ℕ → Bool
budgets_fit b exact_initial_packet_frames =
    checked_frame_budget_fits b.target b.headroom (pos 0) b.physical_frames
    && leb_ℤ (pos exact_initial_packet_frames) b.prime
    && leb_ℤ b.prime b.physical_frames
    && checked_frame_budget_fits b.capture_wave b.capture_target b.capture_headroom
        b.physical_frames

-- The stores of the two outcomes.
unfoldable pub clear_budgets : Driver → Driver
clear_budgets d = record d {
  playback = record d.playback {
    target_frames = pos 0;
    prime_frames = pos 0;
    headroom_frames = pos 0;
  };
  capture = record d.capture { limit_frames = pos 0; playback_target = pos 0 };
  capture_target_frames = pos 0;
  capture_headroom_frames = pos 0;
  capture_deadline_slack_frames = pos 0;
}

unfoldable pub store_budgets : Budgets → ℤ → Driver → Driver
store_budgets b capture_limit d = record d {
  playback = record d.playback {
    target_frames = b.target;
    prime_frames = b.prime;
    headroom_frames = b.headroom;
  };
  capture = record d.capture {
    graph_quantum = b.graph_quantum;
    limit_frames = capture_limit;
    playback_target = b.target;
  };
  capture_target_frames = b.capture_target;
  capture_headroom_frames = b.capture_headroom;
  capture_deadline_slack_frames = b.capture_slack;
}

-- LibusbUacDriver::setUserspaceBufferConfig
unfoldable pub set_userspace_buffer_config : ℤ → UserspaceBufferConfig → ℤ → Driver → Driver
set_userspace_buffer_config frames user period_multiplier d =
    let b = resolve frames user period_multiplier d in
    if budgets_fit b d.exact_initial_packet_frames
    then store_budgets b user.capture_limit_frames d
    else clear_budgets d

-- LibusbUacDriver::setGraphQuantum
unfoldable pub set_graph_quantum : ℤ → ℤ → ℤ → Driver → Driver
set_graph_quantum frames period_multiplier watermark_frames d =
    set_userspace_buffer_config frames
      (record d.config { playback_target_frames = watermark_frames }) period_multiplier d
