-- ===== src/Transfers.antt =====
-- The isochronous transfers of src/libusb_uac_driver.cpp: the feedback callback, the transfers that
-- follow the capture clock and wait in a FIFO while data is missing. The answer of
-- libusb_submit_transfer is a parameter; the clock is read once per call, and the bytes of a buffer
-- are below 256. `pendingDepth_` is the length of `pending`.
pub mod Fill
pub mod Submit
pub mod Order
pub mod Rate
pub mod Service
pub mod Completion
pub mod Custody
mod Tests
use liballa.Base.{
  ℕ, zero, suc, ◌+◌, ◌-◌, ◌*◌, ◌/◌, ◌^◌, Bool, true, false, ◌&&◌, ◌||◌, not, min, max, List, [],
  ◌∷◌, ◌++◌, Option, none, some, ltb, leb, ◌==◌, if◌then◌else◌, length, bit_and, get_or,
}
use liballa.Base.Int.{ℤ, pos, ltb_ℤ, leb_ℤ, max_ℤ}
use liballa.Base.Word.{u32, u64, u64_mod, sub_u64, int_to_u32}
use liballa.FlightRecorder.{record_event}
use liballa.FlightRecorder.Events.{Event, deferred_no_metadata, deferred_no_pcm, capture_complete}
use liballa.Playback.{Playback, stride, buffered_frames, drain_ring}
use liballa.Capture.{Capture}
use liballa.Capture.Packets.{IsoPacket, implicit_fifo_capacity, receive_packets}

-- libusb_transfer_status
pub data Status : Type 0 where
  completed cancelled no_device other : Status

abbrev pub is_completed : Status → Bool
is_completed completed = true
is_completed _ = false

-- An OUT transfer: which one it is, and the bytes of its packets, each as long as the packet.
pub record Transfer : Type 0 where
  pub id : ℕ
  pub packets : List (List ℕ)

-- The calls of the wake channels.
pub data Wake : Type 0 where
  capture_signal playback_signal capture_signal_if_waiting playback_signal_if_waiting : Wake

-- What the callbacks read and write of the driver; `pending` has each waiting transfer with the time
-- since which it waits.
pub record Engine : Type 0 where
  pub playback : Playback
  pub capture : Capture
  pub max_frames_per_packet : ℕ
  pub packet_interval : ℕ
  pub rate_q16 : ℕ
  pub inflight : ℕ
  pub capture_inflight : ℕ
  pub pending : List (Transfer × ℕ)
  pub max_pending_age : ℕ
  pub zero_runway_active : Bool
  pub streaming : Bool
  pub stop_requested : Bool
  pub transport_failed : Bool
  pub playback_errors : ℕ
  pub capture_errors : ℕ
  pub capture_sequence : ℕ
  pub no_metadata : ℕ
  pub no_pcm : ℕ
  pub wakes : List Wake

-- subtractQueued
unfoldable pub subtract_queued : ℕ → ℕ → ℕ
subtract_queued value amount =
    if value == 0 then value else if ltb amount value then value - amount else 0

-- LibusbUacDriver::markTransportFailed
unfoldable pub mark_transport_failed : Engine → Engine
mark_transport_failed e = record e {
  transport_failed = true;
  capture = record e.capture { active = false };
  streaming = false;
  stop_requested = true;
  wakes = e.wakes ++ capture_signal ∷ playback_signal ∷ [];
}

-- A failed submission of an OUT or feedback transfer.
abbrev pub fail_submission : Engine → Engine
fail_submission e =
    mark_transport_failed
      (record e { playback_errors = u64 (e.playback_errors + 1); inflight = e.inflight - 1 })

-- The Q16 rate in the bytes of a feedback packet; three bytes are a 10.14 value.
unfoldable pub feedback_value : List ℕ → ℕ
feedback_value (a ∷ b ∷ c ∷ d ∷ rest) = u32 (a + b * 2 ^ 8 + c * 2 ^ 16 + d * 2 ^ 24)
feedback_value (a ∷ b ∷ c ∷ []) = u32 ((a + b * 2 ^ 8 + c * 2 ^ 16) * 4)
feedback_value _ = 0

-- The value is taken for a rate if it is above 0 and within the packet's room.
unfoldable pub take_feedback : List ℕ → Engine → Engine
unfolding feedback_value
take_feedback bytes e =
    let rate = u64 (feedback_value bytes * e.packet_interval) in
    if ltb 0 rate && leb rate (e.max_frames_per_packet * 2 ^ 16)
    then record e { rate_q16 = u32 rate }
    else e

-- LibusbUacDriver::onFeedback: the transfer's status, its packets' number, whether the first one is
-- COMPLETED, its bytes, and whether libusb takes the transfer again.
unfoldable pub on_feedback : Status → ℕ → Bool → List ℕ → Bool → Engine → Engine
on_feedback cancelled packets first_completed bytes accepted e = record e {
  inflight = e.inflight - 1;
}
on_feedback no_device packets first_completed bytes accepted e =
    if e.stop_requested then record e { inflight = e.inflight - 1 } else fail_submission e
on_feedback status packets first_completed bytes accepted e =
    let e' =
      if is_completed status && ltb 0 packets && first_completed
      then take_feedback bytes e
      else record e { playback_errors = u64 (e.playback_errors + 1) } in
    if e.stop_requested
    then record e { inflight = e.inflight - 1 }
    else if accepted
    then e'
    else fail_submission e'

-- One event in the flight recorder.
unfoldable pub note_event : Event → ℕ → ℕ → ℕ → ℕ → Engine → Engine
note_event event now available needed ring_frames e = record e {
  playback = record e.playback {
    recorder =
        record_event
          (record {
            event = event;
            timestamp_ns = now;
            a = u32 available;
            b = u32 needed;
            ring_frames = ring_frames;
            queued_frames = u32 e.playback.queued_out_frames;
          })
          e.playback.recorder;
  };
}

-- The frame counts of the next `count` packets in the metadata FIFO.
unfoldable pub frame_counts : Engine → ℕ → ℕ → List ℕ
frame_counts e read zero = []
frame_counts e read (suc count) =
    min (get_or e.capture.implicit_frames (bit_and read (implicit_fifo_capacity - 1)) 0)
      e.max_frames_per_packet
    ∷ frame_counts e (read + 1) count

unfoldable pub sum : List ℕ → ℕ
sum [] = 0
sum (n ∷ ns) = n + sum ns

-- One packet's bytes, in prepareImplicitTransfer and onIso alike; an empty packet drains nothing.
abbrev pub drain_packet : ℕ → ℕ → Playback → Playback × List ℕ
drain_packet now frames p =
    if ltb 0 (frames * stride p) then drain_ring now (frames * stride p) p else (p, [])

-- The draining loop of prepareImplicitTransfer.
unfoldable pub fill_packets : ℕ → List ℕ → Playback → Playback × List (List ℕ)
fill_packets now [] p = (p, [])
fill_packets now (frames ∷ counts) p =
    let (p', packet) = drain_packet now frames p in
    let (p'', packets) = fill_packets now counts p' in (p'', packet ∷ packets)

-- The metadata of `count` packets is there.
abbrev pub has_metadata : ℕ → Capture → Bool
has_metadata count c =
    not (ltb c.implicit_write c.implicit_read) && leb count (c.implicit_write - c.implicit_read)

-- LibusbUacDriver::prepareImplicitTransfer; `none` is the result false.
unfoldable pub prepare_implicit_transfer : ℕ → Transfer → Engine → Engine × Option Transfer
prepare_implicit_transfer now xfr e =
    let count = length xfr.packets in
    let c = e.capture in
    let counts = frame_counts e c.implicit_read count in
    let buffered = buffered_frames e.playback in
    let (p, packets) = fill_packets now counts e.playback in
    if count == 0 || ltb 8 count
    then (e, none)
    else if not (has_metadata count c)
    then (
      note_event deferred_no_metadata now
          (if ltb c.implicit_write c.implicit_read then 0 else c.implicit_write - c.implicit_read)
          count (int_to_u32 buffered) (record e { no_metadata = u64 (e.no_metadata + 1) }),
      none,
    )
    else if ltb_ℤ buffered (pos (sum counts))
    then (
      note_event deferred_no_pcm now (int_to_u32 (max_ℤ (pos 0) buffered)) (sum counts)
          (int_to_u32 (max_ℤ (pos 0) buffered)) (record e { no_pcm = u64 (e.no_pcm + 1) }),
      none,
    )
    else (
      record e {
        capture = record c { implicit_read = u64 (c.implicit_read + count) };
        playback = p;
      },
      some (record xfr { packets = packets }),
    )

-- The frames of the packets of a transfer.
unfoldable pub transfer_frames : ℕ → List (List ℕ) → ℕ
transfer_frames stride [] = 0
transfer_frames stride (packet ∷ packets) = length packet / stride + transfer_frames stride packets
