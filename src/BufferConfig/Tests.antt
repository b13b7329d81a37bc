-- ===== src/BufferConfig/Tests.antt =====
-- A driver with rings of 64 bytes and stereo 32-bit frames at 48 kHz, and its configurations.
use liballa.Base.{◌≡◌, ◌⊎◌, refl, true, false, ◌||◌, ◌/◌, arith, length, [], replicate}
use liballa.Base.Int.{pos, negsuc, ◌+ℤ◌, ◌-ℤ◌}
use liballa.FlightRecorder.{create}
use liballa.Scheduling.{
  resolve_optional_frames, checked_frame_budget_fits, nominal_transfer_frames,
  automatic_write_headroom_frames, playback_watermark_config, clamp_period_multiplier,
  automatic_playback_target_frames, startup_playback_prime_frames,
}
use liballa.Playback.{Playback, stride}
use liballa.Capture.{Capture}
use liballa.BufferConfig.{
  UserspaceBufferConfig, Driver, resolve, budgets_fit, unsupported, configure_userspace_buffers,
  set_userspace_buffer_config,
}
use liballa.BufferConfig.Configure.{IsAllocated, configure_userspace_buffers_outcome}
use liballa.BufferConfig.Resolve.{IsBudgeted, IsCleared, set_userspace_buffer_config_safe}

abbrev automatic : UserspaceBufferConfig
automatic = record {
  playback_target_frames = pos 0;
  startup_prime_frames = pos 0;
  write_headroom_frames = pos 0;
  capture_limit_frames = pos 0;
  capture_target_frames = pos 0;
  capture_headroom_frames = negsuc 0;
  capture_deadline_slack_frames = pos 0;
  transfer_count = pos 0;
  packets_per_transfer = pos 0;
  ring_capacity_bytes = 4096;
}

abbrev idle_playback : Playback
idle_playback = record {
  ring = replicate 64 0;
  ring_mask = 63;
  ring_head = 0;
  ring_tail = 0;
  channels = 2;
  bytes_per_sample = 4;
  started = false;
  target_frames = pos 128;
  prime_frames = pos 0;
  headroom_frames = pos 0;
  written_frames = 0;
  played_frames = 0;
  overruns = 0;
  overrun_active = false;
  underruns = 0;
  underrun_active = false;
  short_packets = 0;
  short_frames = 0;
  writes_since_drain = 0;
  ring_high_water = 0;
  queued_out_frames = 0;
  recorder = create 4;
}

abbrev idle_capture : Capture
idle_capture = record {
  active = false;
  ring = replicate 64 0;
  ring_mask = 63;
  ring_head = 0;
  ring_tail = 0;
  channels = 2;
  bytes_per_sample = 4;
  high_speed = true;
  b_interval = pos 1;
  sample_rate = pos 48000;
  packets_per_transfer = pos 4;
  max_frames_per_packet = pos 7;
  transfer_count = 4;
  graph_quantum = pos 64;
  playback_target = pos 128;
  limit_frames = pos 0;
  live = false;
  startup_discard_frames = 0;
  overruns = 0;
  underruns = 0;
  packet_drops = 0;
  implicit = true;
  implicit_frames = [];
  implicit_read = 0;
  implicit_write = 0;
  metadata_fifo_overruns = 0;
  metadata_invalid = 0;
}

abbrev idle : Driver
idle = record {
  streaming = false;
  playback = idle_playback;
  capture = idle_capture;
  config = automatic;
  sample_rate = pos 48000;
  playback_packets_per_transfer = pos 4;
  microframes_per_sec = pos 8000;
  exact_initial_packet_frames = 2;
  capture_transfer_frames = pos 1;
  capture_target_frames = pos 0;
  capture_headroom_frames = pos 0;
  capture_deadline_slack_frames = pos 0;
}

-- Two frames of target and two of headroom fit a ring of eight frames.
abbrev small_targets : UserspaceBufferConfig
small_targets = record automatic { playback_target_frames = pos 2; write_headroom_frames = pos 2 }

small_targets_fit : budgets_fit (resolve (pos 4) small_targets (pos 3) idle) 2 ≡ true
unfolding budgets_fit resolve checked_frame_budget_fits playback_watermark_config
    clamp_period_multiplier startup_playback_prime_frames resolve_optional_frames ◌+ℤ◌
small_targets_fit = refl

-- The automatic target of a 64 frame quantum does not fit there.
automatic_does_not_fit : budgets_fit (resolve (pos 64) automatic (pos 3) idle) 2 ≡ false
unfolding budgets_fit resolve checked_frame_budget_fits playback_watermark_config
    clamp_period_multiplier startup_playback_prime_frames resolve_optional_frames
    nominal_transfer_frames automatic_write_headroom_frames automatic_playback_target_frames ◌+ℤ◌
    ◌-ℤ◌
automatic_does_not_fit = refl

odd_capacity : unsupported (record automatic { ring_capacity_bytes = 5000 }) ≡ true
unfolding unsupported
odd_capacity = refl

configure_userspace_buffers_outcome_example :
    let (d', accepted) = configure_userspace_buffers automatic idle in
    (((false || false || unsupported automatic) ≡ true) × (accepted ≡ false) × (d' ≡ idle))
    ⊎ (((false || false || unsupported automatic) ≡ false)
        × (accepted ≡ true)
        × IsAllocated automatic d')
configure_userspace_buffers_outcome_example = configure_userspace_buffers_outcome automatic idle

set_userspace_buffer_config_safe_example :
    let d' = set_userspace_buffer_config (pos 4) small_targets (pos 3) idle in
    IsBudgeted (pos (length idle_playback.ring / stride idle_playback)) (pos 1) d' ⊎ IsCleared d'
set_userspace_buffer_config_safe_example =
    set_userspace_buffer_config_safe (pos 4) small_targets (pos 3) idle (omega arith)

abbrev running : Driver
running = record idle { playback = record idle_playback { started = true } }
