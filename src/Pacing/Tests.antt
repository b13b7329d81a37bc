-- ===== src/Pacing/Tests.antt =====
-- A stereo stream of 16 bits over 8000 packets a second, and a capture clock with an empty entry.
use liballa.Base.{◌≡◌, refl, true, false, [], ◌∷◌, none, some, arith}
use liballa.Base.Int.{pos, ◌-ℤ◌}
use liballa.Descriptors.Playback.{StreamFormat}
use liballa.Capture.{Capture}
use liballa.Scheduling.{packets_per_transfer_for_rate, startup_playback_prime_frames}
use liballa.Scheduling.Rational.{reset, next}
use liballa.Pacing.{
  Plan, planned, geometry, nominal_max_frames, nominal_counts, prime_packet, join_packets,
  prime_packets, exact_initial_frames, plan_prime, plan_iso_pump, plan_capture_pump,
}
use liballa.Pacing.Agree.{plan_like, pumps_plan_alike}
use liballa.Pacing.Fits.{IsPlan, plan_iso_pump_fits}

abbrev stereo : StreamFormat
stereo = record {
  sample_rate = 44100;
  bits_per_sample = 16;
  bytes_per_sample = 2;
  channels = 2;
  interface_number = 1;
  alt_setting = 1;
  endpoint_address = 1;
  sync_endpoint_address = 0;
  terminal_link = 1;
  max_packet_size = 32;
  clock_source_id = 9;
  control_interface_num = 0;
  is_high_speed = true;
  interval = 2;
  uac_version = 0x0200;
  feedback_endpoint_address = 0;
  feedback_max_packet_size = 0;
  feedback_interval = 0;
  implicit_feedback = false;
  candidate_clock_ids = [];
}

abbrev idle : Capture
idle = record {
  active = false;
  ring = [];
  ring_mask = 0;
  ring_head = 0;
  ring_tail = 0;
  channels = 2;
  bytes_per_sample = 2;
  high_speed = true;
  b_interval = pos 1;
  sample_rate = pos 44100;
  packets_per_transfer = pos 4;
  max_frames_per_packet = pos 7;
  transfer_count = 2;
  graph_quantum = pos 4;
  playback_target = pos 3;
  limit_frames = pos 0;
  live = false;
  startup_discard_frames = 0;
  overruns = 0;
  underruns = 0;
  packet_drops = 0;
  implicit = true;
  implicit_frames = 11 ∷ 0 ∷ 12 ∷ 11 ∷ 11 ∷ [];
  implicit_read = 0;
  implicit_write = 5;
  metadata_fifo_overruns = 0;
  metadata_invalid = 0;
}

abbrev clocked : Capture
clocked = record idle { active = true }

abbrev plan : Plan
plan = record {
  shape = geometry 0 stereo;
  max_frames_per_packet = 13;
  lengths = 44 ∷ 44 ∷ 44 ∷ 44 ∷ 44 ∷ 44 ∷ 44 ∷ 44 ∷ [];
  initial_frames = 88;
  startup_prime = pos 88;
}

free_plan : plan_iso_pump 0 2 (pos 64) (pos 48) (pos 20) stereo idle ≡ planned plan idle
unfolding plan_iso_pump geometry nominal_max_frames nominal_counts reset next exact_initial_frames
    plan_prime packets_per_transfer_for_rate startup_playback_prime_frames ◌-ℤ◌
free_plan = refl

plan_iso_pump_fits_example : IsPlan 0 2 (pos 64) (pos 48) stereo idle plan
plan_iso_pump_fits_example =
    plan_iso_pump_fits 0 2 (pos 64) (pos 48) (pos 20) stereo idle idle plan (omega arith) free_plan

-- The empty entry is skipped, so the capture clock has four packets and no fifth.
primed_four : (prime_packets 4 13 clocked).1 ≡ some (11 ∷ 12 ∷ 11 ∷ 11 ∷ [])
unfolding prime_packets join_packets prime_packet
primed_four = refl

primed_five : (prime_packets 5 13 clocked).1 ≡ none
unfolding prime_packets join_packets prime_packet
primed_five = refl

pumps_plan_alike_example : plan_capture_pump 0 (pos 64) stereo ≡ some (plan_like 4 4 13)
unfolding geometry packets_per_transfer_for_rate
pumps_plan_alike_example =
    pumps_plan_alike 0 2 (pos 64) (pos 48) (pos 20) stereo idle idle plan free_plan
