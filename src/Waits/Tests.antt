-- ===== src/Waits/Tests.antt =====
-- Waits of src/libusb_uac_driver.cpp: one that a signal wakes, one whose deadline passes, and one that
-- spins.
use liballa.Base.{◌↔◌, ℕ, ◌≡◌, refl, Bool, true, false, List, [], ◌∷◌, none, some, arith}
use liballa.Base.Int.{ℤ, pos, ltb_ℤ, leb_ℤ, ◌+ℤ◌}
use liballa.FlightRecorder.{create}
use liballa.Scheduling.{nominal_transfer_frames, packets_per_second_for_interval}
use liballa.Playback.{Playback, writable_frames, writable_to_target_frames}
use liballa.Capture.{Capture, capture_frame_limit, capture_available_frames}
use liballa.Waits.{Round, wait_loop, wait_for_capture_frames_until, wait_for_writable_frames_until}
use liballa.Waits.Ends.{
  Expires, now_expired, later_expired, LeftIn, leaves, stays, satisfied, Hungry, no_rounds, hungry,
  wait_for_writable_frames_until_ends, wait_for_capture_frames_until-LeftIn,
  wait_for_writable_frames_until_spins,
}

-- A ring filled to its target.
abbrev at_target : Playback
at_target = record {
  ring = 3 ∷ 4 ∷ 0 ∷ 0 ∷ 0 ∷ 0 ∷ 1 ∷ 2 ∷ [];
  ring_mask = 7;
  ring_head = 10;
  ring_tail = 6;
  channels = 2;
  bytes_per_sample = 1;
  started = true;
  target_frames = pos 2;
  prime_frames = pos 2;
  headroom_frames = pos 1;
  written_frames = 5;
  played_frames = 3;
  overruns = 0;
  overrun_active = false;
  underruns = 0;
  underrun_active = false;
  short_packets = 0;
  short_frames = 0;
  writes_since_drain = 0;
  ring_high_water = 0;
  queued_out_frames = 0;
  recorder = create 4;
}

abbrev filled : Capture
filled = record {
  active = true;
  ring = 10 ∷ 11 ∷ 12 ∷ 13 ∷ 14 ∷ 15 ∷ 16 ∷ 17 ∷ [];
  ring_mask = 7;
  ring_head = 18;
  ring_tail = 12;
  channels = 2;
  bytes_per_sample = 1;
  high_speed = true;
  b_interval = pos 1;
  sample_rate = pos 48000;
  packets_per_transfer = pos 1;
  max_frames_per_packet = pos 6;
  transfer_count = 4;
  graph_quantum = pos 4;
  playback_target = pos 8;
  limit_frames = pos 2;
  live = false;
  startup_discard_frames = 0;
  overruns = 0;
  underruns = 0;
  packet_drops = 0;
  implicit = true;
  implicit_frames = 0 ∷ 0 ∷ 0 ∷ [];
  implicit_read = 0;
  implicit_write = 0;
  metadata_fifo_overruns = 0;
  metadata_invalid = 0;
}

abbrev drained : Capture
drained = record filled { ring_tail = 18 }

abbrev waiting : ℕ → ℤ → Round Playback
waiting signals remaining = record {
  seen = at_target;
  running = true;
  remaining = remaining;
  signals = signals;
  seen_after = at_target;
}

abbrev late : List (Round Playback)
late = waiting 1 (pos 3) ∷ waiting 0 (pos 0) ∷ []

late-Expires : Expires late
late-Expires = later_expired (now_expired refl)

late_result : wait_for_writable_frames_until (pos 1) 0 late ≡ some true
unfolding wait_loop writable_frames writable_to_target_frames wait_for_writable_frames_until ◌+ℤ◌
late_result = refl

wait_for_writable_frames_until_ends_example :
    (b : Bool) × (wait_for_writable_frames_until (pos 1) 0 late ≡ some b)
wait_for_writable_frames_until_ends_example =
    wait_for_writable_frames_until_ends (pos 1) 0 late late-Expires

abbrev round : Capture → ℕ → Round Capture
round c signals = record {
  seen = c;
  running = true;
  remaining = pos 3;
  signals = signals;
  seen_after = c;
}

abbrev woken_once : List (Round Capture)
woken_once = round drained 1 ∷ round filled 0 ∷ []

woken_once-LeftIn :
    LeftIn (λ c. ltb_ℤ (capture_available_frames c) (pos 2)) 0 woken_once (round filled 0)
unfolding capture_available_frames capture_frame_limit packets_per_second_for_interval
    nominal_transfer_frames ◌+ℤ◌
woken_once-LeftIn = stays refl refl refl (omega arith) (leaves (satisfied refl))

wait_for_capture_frames_until-LeftIn_example :
    (wait_for_capture_frames_until (pos 2) 0 woken_once ≡ some true) ↔ (
      (r : Round Capture) × LeftIn (λ c. ltb_ℤ (capture_available_frames c) (pos 2)) 0 woken_once r
      × (true ≡ leb_ℤ (pos 2) (capture_available_frames r.seen_after)))
wait_for_capture_frames_until-LeftIn_example =
    wait_for_capture_frames_until-LeftIn (pos 2) 0 woken_once true refl

abbrev silent : List (Round Playback)
silent = waiting 0 (pos 3) ∷ waiting 0 (pos 3) ∷ waiting 0 (pos 2) ∷ []

silent-Hungry : Hungry (λ p. ltb_ℤ (writable_to_target_frames p) (pos 1)) silent
unfolding writable_frames writable_to_target_frames ◌+ℤ◌
silent-Hungry = hungry refl refl refl (hungry refl refl refl (hungry refl refl refl no_rounds))

wait_for_writable_frames_until_spins_example :
    wait_for_writable_frames_until (pos 1) 1 silent ≡ none
wait_for_writable_frames_until_spins_example =
    wait_for_writable_frames_until_spins (pos 1) 1 silent refl (omega arith) silent-Hungry
