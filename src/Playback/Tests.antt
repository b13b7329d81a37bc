-- ===== src/Playback/Tests.antt =====
-- Runs of the playback ring of src/libusb_uac_driver.cpp on eight bytes, two to a frame.
use liballa.Base.{
  length, ◌*◌, ◌≤◌, ◌<◌, ◌≡◌, refl, true, false, none, some, [], ◌∷◌, ◌++◌, max, take, arith,
}
use liballa.Base.Int.{pos}
use liballa.ByteRing.{read_at, copy_out}
use liballa.ByteRing.Copy.{read_round}
use liballa.FlightRecorder.{create}
use liballa.Playback.{
  Playback, queued_bytes, frame_limit, admitted_frames, drain_ring, write_pcm, flush_tail,
  flush_ring, note_quantum_written,
}
use liballa.Playback.Valid.{IsValid, contents}
use liballa.Playback.Drain.{drain_ring_refines, drain_ring_accounts}
use liballa.Playback.Write.{write_pcm_refines}
use liballa.Playback.Gate.{IsAligned, write_pcm-depth, flush_ring_exposes}

-- Two frames are queued, the second one round the end of the ring.
abbrev wrapped : Playback
wrapped = record {
  ring = 3 ∷ 4 ∷ 0 ∷ 0 ∷ 0 ∷ 0 ∷ 1 ∷ 2 ∷ [];
  ring_mask = 7;
  ring_head = 10;
  ring_tail = 6;
  channels = 2;
  bytes_per_sample = 1;
  started = true;
  target_frames = pos 2;
  prime_frames = pos 2;
  headroom_frames = pos 1;
  written_frames = 5;
  played_frames = 3;
  overruns = 0;
  overrun_active = false;
  underruns = 0;
  underrun_active = false;
  short_packets = 0;
  short_frames = 0;
  writes_since_drain = 0;
  ring_high_water = 0;
  queued_out_frames = 0;
  recorder = create 4;
}

wrapped-IsValid : IsValid 3 wrapped
wrapped-IsValid = record {
  small = omega arith;
  full = refl;
  mask = refl;
  head_word = omega arith;
  tail_word = omega arith;
  fits = omega arith;
}

drains_round : (drain_ring 0 4 wrapped).1 ≡ 1 ∷ 2 ∷ 3 ∷ 4 ∷ []
unfolding drain_ring copy_out read_at
drains_round = refl

refuses_null : (write_pcm none (pos 1) wrapped).1 ≡ 0
unfolding write_pcm
refuses_null = refl

counts_writes : (note_quantum_written 0 wrapped).1 ≡ 1
unfolding note_quantum_written
counts_writes = refl

drain_ring_refines_example :
    let (q, out) = drain_ring 0 6 wrapped in
    (out ≡ 1 ∷ 2 ∷ 3 ∷ 4 ∷ []) × (contents 3 q ≡ []) × IsValid 3 q
unfolding read_round
drain_ring_refines_example = drain_ring_refines wrapped-IsValid 0 6

drain_ring_accounts_example :
    let q = (drain_ring 0 (3 * 2) wrapped).0 in (q.played_frames ≡ 5) × (q.short_frames ≡ 1)
drain_ring_accounts_example = drain_ring_accounts 0 2 3 wrapped (omega arith) refl (omega arith)

write_pcm_refines_example :
    let (q, taken) = write_pcm (some (5 ∷ 6 ∷ 7 ∷ 8 ∷ [])) (pos 2) wrapped in
    (taken ≡ admitted_frames 2 wrapped)
    × (contents 3 q ≡ contents 3 wrapped ++ take (taken * 2) (5 ∷ 6 ∷ 7 ∷ 8 ∷ []))
    × IsValid 3 q
write_pcm_refines_example =
    write_pcm_refines wrapped-IsValid 2 (5 ∷ 6 ∷ 7 ∷ 8 ∷ []) (omega arith) (omega arith)
      (omega arith)

write_pcm-depth_example :
    let q = (write_pcm (some (5 ∷ 6 ∷ 7 ∷ 8 ∷ [])) (pos 2) wrapped).0 in
    (queued_bytes q ≤ max 2 (frame_limit wrapped) * 2) × IsAligned q
write_pcm-depth_example =
    write_pcm-depth wrapped-IsValid 2 (5 ∷ 6 ∷ 7 ∷ 8 ∷ []) (omega arith) (omega arith) (omega arith)
      refl

flush_ring_exposes_example :
    (4 < queued_bytes (flush_tail wrapped))
    × (length (drain_ring 500 8 (flush_tail wrapped)).1 ≡ 8)
    × (queued_bytes (flush_ring wrapped) ≡ 0)
flush_ring_exposes_example =
    flush_ring_exposes wrapped-IsValid 500 8 (omega arith) (omega arith) (omega arith) (omega arith)
