-- ===== src/Capture/Tests.antt =====
-- A capture ring of 8 bytes with two channels of one byte, its counters past one round.
use liballa.Base.{
  ℕ, ◌+◌, ◌*◌, ◌<◌, ◌≡◌, refl, true, false, List, [], ◌∷◌, ◌++◌, arith, length, take, drop,
}
use liballa.Base.Int.{pos, ◌+ℤ◌}
use liballa.Scheduling.{packets_per_second_for_interval, nominal_transfer_frames}
use liballa.ByteRing.{read_at}
use liballa.Capture.{
  Capture, stride, stale_bytes, readable_frames, capture_frame_limit, prepare_capture_read,
  commit_capture_read, copy_region, read_capture_pcm,
}
use liballa.Capture.Packets.{
  IsoPacket, receive_packets, receive_packet, note_packet, admit_packet, note_metadata,
}
use liballa.Capture.Read.{IsValid, contents, IsStreaming, read_capture_pcm_refines}
use liballa.Capture.Joining.{room, joining, no_packets, packet_then}
use liballa.Capture.Receive.{receive_packets_appends}

abbrev wrapped : Capture
wrapped = record {
  active = true;
  ring = 10 ∷ 11 ∷ 12 ∷ 13 ∷ 14 ∷ 15 ∷ 16 ∷ 17 ∷ [];
  ring_mask = 7;
  ring_head = 18;
  ring_tail = 12;
  channels = 2;
  bytes_per_sample = 1;
  high_speed = true;
  b_interval = pos 1;
  sample_rate = pos 48000;
  packets_per_transfer = pos 1;
  max_frames_per_packet = pos 6;
  transfer_count = 4;
  graph_quantum = pos 4;
  playback_target = pos 8;
  limit_frames = pos 2;
  live = false;
  startup_discard_frames = 0;
  overruns = 0;
  underruns = 0;
  packet_drops = 0;
  implicit = true;
  implicit_frames = 0 ∷ 0 ∷ 0 ∷ [];
  implicit_read = 0;
  implicit_write = 0;
  metadata_fifo_overruns = 0;
  metadata_invalid = 0;
}

limited : capture_frame_limit wrapped ≡ pos 2
unfolding capture_frame_limit packets_per_second_for_interval nominal_transfer_frames ◌+ℤ◌
limited = refl

-- The oldest frame is stale, and the two newest ones are read round the end of the ring.
newest_window : (read_capture_pcm true (pos 5) wrapped).1 ≡ (16 ∷ 17 ∷ 10 ∷ 11 ∷ [], 2)
unfolding read_capture_pcm prepare_capture_read commit_capture_read copy_region read_at
    capture_frame_limit packets_per_second_for_interval nominal_transfer_frames ◌+ℤ◌
newest_window = refl

abbrev good : IsoPacket
good = record { completed = true; actual_length = 2; length = 4 }

abbrev bad : IsoPacket
bad = record { completed = false; actual_length = 2; length = 4 }

abbrev arrived : List ℕ
arrived = 20 ∷ 21 ∷ 0 ∷ 0 ∷ 30 ∷ 31 ∷ 0 ∷ 0 ∷ []

one_frame_arrives : (receive_packets true (good ∷ bad ∷ []) arrived wrapped).1 ≡ 1
unfolding receive_packets receive_packet note_packet admit_packet note_metadata
one_frame_arrives = refl

wrapped-IsValid : IsValid 3 wrapped
wrapped-IsValid = record {
  small = omega arith;
  full = refl;
  masked = refl;
  head_word = omega arith;
  tail_word = omega arith;
  fits = omega arith;
}

wrapped-IsStreaming : IsStreaming 3 wrapped
wrapped-IsStreaming = record {
  valid = wrapped-IsValid;
  active = refl;
  some_channels = omega arith;
  some_bytes = omega arith;
  some_ring = omega arith;
}

some_readable : 0 < readable_frames 5 wrapped
unfolding capture_frame_limit packets_per_second_for_interval nominal_transfer_frames ◌+ℤ◌
some_readable = omega arith

read_capture_pcm_refines_example :
    let (c', (out, frames)) = read_capture_pcm true (pos 5) wrapped in
    (frames ≡ readable_frames 5 wrapped)
    × (out ≡ take (frames * 2) (drop (stale_bytes wrapped) (contents 3 wrapped)))
    × (contents 3 c' ≡ drop (stale_bytes wrapped + frames * 2) (contents 3 wrapped))
    × IsValid 3 c'
read_capture_pcm_refines_example = read_capture_pcm_refines wrapped-IsStreaming 5 some_readable

receive_packets_appends_example :
    let (c', frames) = receive_packets true (good ∷ bad ∷ []) arrived wrapped in
    let added = joining true 2 (room 3 wrapped) (good ∷ bad ∷ []) arrived in
    (contents 3 c' ≡ contents 3 wrapped ++ added)
    × (length added ≡ frames * 2)
    × (stride c' ≡ 2)
    × IsValid 3 c'
receive_packets_appends_example =
    receive_packets_appends 3 true (good ∷ bad ∷ []) arrived wrapped wrapped-IsValid (omega arith)
      (packet_then 1 refl (omega arith) (packet_then 1 refl (omega arith) no_packets))
