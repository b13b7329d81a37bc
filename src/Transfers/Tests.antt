-- ===== src/Transfers/Tests.antt =====
-- Three queued stereo frames of one byte a sample, and metadata for two packets of one and two.
use liballa.Base.{
  ℕ, ◌*◌, ◌≤◌, ◌≡◌, refl, true, false, List, [], ◌∷◌, ◌++◌, some, arith, take, drop, ◌^◌,
}
use liballa.Base.Int.{pos}
use liballa.FlightRecorder.{PacketFlightRecorder, blank, record_event}
use liballa.FlightRecorder.Events.{unknown}
use liballa.ByteRing.{read_at, copy_out}
use liballa.Playback.{Playback, queued_bytes, buffered_frames, drain_ring}
use liballa.Playback.Valid.{IsValid, contents}
use liballa.Capture.{Capture}
use liballa.Transfers.{
  Engine, Transfer, completed, frame_counts, sum, fill_packets, has_metadata, note_event,
  prepare_implicit_transfer, transfer_frames, on_feedback,
}
use liballa.Transfers.Submit.{note_submitted, submit_round, submit_loop}
use liballa.Transfers.Service.{Service}
use liballa.Transfers.Fill.{joined, lengths, scaled, prepare_implicit_transfer_fills}
use liballa.Transfers.Order.{ids, waiting_ids, submit_loop_order}
use liballa.Transfers.Rate.{IsRate, on_feedback-IsRate}

abbrev quiet : PacketFlightRecorder
quiet = record {
  records = blank ∷ [];
  capacity = 1;
  mask = 0;
  next_sequence = 0;
  enabled = false;
  frozen = false;
  freeze_trigger = unknown;
  event_mask = 0;
}

abbrev rendered : Playback
rendered = record {
  ring = 10 ∷ 11 ∷ 12 ∷ 13 ∷ 14 ∷ 15 ∷ 16 ∷ 17 ∷ [];
  ring_mask = 7;
  ring_head = 18;
  ring_tail = 12;
  channels = 2;
  bytes_per_sample = 1;
  started = true;
  target_frames = pos 3;
  prime_frames = pos 2;
  headroom_frames = pos 1;
  written_frames = 9;
  played_frames = 6;
  overruns = 0;
  overrun_active = false;
  underruns = 0;
  underrun_active = false;
  short_packets = 0;
  short_frames = 0;
  writes_since_drain = 1;
  ring_high_water = 0;
  queued_out_frames = 0;
  recorder = quiet;
}

abbrev clocked : Capture
clocked = record {
  active = true;
  ring = [];
  ring_mask = 0;
  ring_head = 0;
  ring_tail = 0;
  channels = 2;
  bytes_per_sample = 1;
  high_speed = true;
  b_interval = pos 1;
  sample_rate = pos 48000;
  packets_per_transfer = pos 2;
  max_frames_per_packet = pos 6;
  transfer_count = 4;
  graph_quantum = pos 4;
  playback_target = pos 3;
  limit_frames = pos 0;
  live = true;
  startup_discard_frames = 0;
  overruns = 0;
  underruns = 0;
  packet_drops = 0;
  implicit = true;
  implicit_frames = 1 ∷ 2 ∷ [];
  implicit_read = 0;
  implicit_write = 2;
  metadata_fifo_overruns = 0;
  metadata_invalid = 0;
}

abbrev first_transfer : Transfer
first_transfer = record { id = 7; packets = [] ∷ [] ∷ [] }

abbrev second_transfer : Transfer
second_transfer = record { id = 9; packets = [] ∷ [] ∷ [] }

abbrev waiting : List (Transfer × ℕ)
waiting = (first_transfer, 100) ∷ (second_transfer, 200) ∷ []

abbrev engine : Engine
engine = record {
  playback = rendered;
  capture = clocked;
  max_frames_per_packet = 6;
  packet_interval = 1;
  rate_q16 = 6 * 2 ^ 16;
  inflight = 2;
  capture_inflight = 4;
  pending = waiting;
  max_pending_age = 0;
  zero_runway_active = true;
  streaming = true;
  stop_requested = false;
  transport_failed = false;
  playback_errors = 0;
  capture_errors = 0;
  capture_sequence = 0;
  no_metadata = 0;
  no_pcm = 0;
  wakes = [];
}

abbrev filled : Transfer
filled = record { id = 7; packets = (14 ∷ 15 ∷ []) ∷ (16 ∷ 17 ∷ 10 ∷ 11 ∷ []) ∷ [] }

first_is_filled : (prepare_implicit_transfer 500 first_transfer engine).1 ≡ some filled
unfolding prepare_implicit_transfer frame_counts sum fill_packets buffered_frames drain_ring
    copy_out read_at
first_is_filled = refl

-- The second transfer finds no metadata and waits on.
one_is_sent : ids (submit_loop (λ t. true) 500 waiting engine).taken ≡ 7 ∷ []
unfolding submit_loop submit_round note_submitted transfer_frames prepare_implicit_transfer
    frame_counts sum fill_packets buffered_frames drain_ring copy_out read_at note_event
    record_event ids
one_is_sent = refl

rendered-IsValid : IsValid 3 rendered
rendered-IsValid = record {
  small = omega arith;
  full = refl;
  mask = refl;
  head_word = omega arith;
  tail_word = omega arith;
  fits = omega arith;
}

prepare_implicit_transfer_fills_example :
    let counts = frame_counts engine 0 2 in
    let p = (prepare_implicit_transfer 500 first_transfer engine).0.playback in
    let bytes = sum counts * 2 in
    (has_metadata 2 clocked ≡ true)
    × (bytes ≤ queued_bytes rendered)
    × (joined filled.packets ≡ take bytes (contents 3 rendered))
    × (lengths filled.packets ≡ scaled 2 counts)
    × (contents 3 p ≡ drop bytes (contents 3 rendered))
    × IsValid 3 p
prepare_implicit_transfer_fills_example =
    prepare_implicit_transfer_fills 3 engine rendered-IsValid (omega arith) 500 first_transfer
      filled first_is_filled

submit_loop_order_example :
    let r = submit_loop (λ t. true) 500 waiting engine in
    ids r.taken ++ waiting_ids r.waiting ≡ waiting_ids waiting
submit_loop_order_example = submit_loop_order (λ t. true) 500 waiting engine

engine-IsRate : IsRate engine
engine-IsRate = record { some_rate = omega arith; fits = omega arith }

on_feedback-IsRate_example : IsRate (on_feedback completed 1 true (0 ∷ 0 ∷ 7 ∷ 0 ∷ []) true engine)
on_feedback-IsRate_example =
    on_feedback-IsRate completed 1 true (0 ∷ 0 ∷ 7 ∷ 0 ∷ []) true engine (omega arith) engine-IsRate

abbrev service : Service
service = record {
  nominal_scheduler = record { whole = 6; fraction = 0; period = 8000; remainder = 0 };
  frac_q16 = 0;
  has_feedback = false;
  nominal_transfer_ns = 500000;
  last_completion = 100;
  max_gap = 0;
  worst_gap_inflight = 0;
  worst_gap_pending = 0;
  worst_gap_ring = pos 0;
  service_gaps = 0;
  max_missing_drains = 0;
  credit = pos 0;
  drain_min = 0;
  drain_max = 0;
  out_low_water = 0;
  occupancy = 0 ∷ 0 ∷ [];
  occupancy_samples = 0;
  ring_low_water = 0;
  deferred_transfers = 0;
  pending_high_water = 0;
  zero_runway_events = 0;
}
