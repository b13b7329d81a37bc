-- ===== src/Playback.antt =====
-- The playback ring of src/libusb_uac_driver.cpp and include/liblowlatencyaudio/libusb_uac_driver.h:
-- the two-phase write of the render thread and the drain of the USB callback. The channel count and
-- the bytes of a sample come from descriptor bytes and are numbers; a stored frame budget is an
-- `int`. The continuity check of `drainRing` is at its default threshold 0, where it returns.
pub mod Valid
pub mod Drain
pub mod Write
pub mod Gate
mod Tests
use liballa.Base.{
  ℕ, zero, suc, ◌+◌, ◌-◌, ◌*◌, ◌/◌, ◌%◌, Bool, true, false, ◌&&◌, ◌||◌, not, min, max, List, [],
  ◌∷◌, Option, none, some, ltb, leb, ◌==◌, if◌then◌else◌, length, take, drop, bit_and,
}
use liballa.Base.Int.{ℤ, pos, pos_part, ◌+ℤ◌, ltb_ℤ, leb_ℤ}
use liballa.Base.Word.{u32, u64, sub_u64, to_size, to_int}
use liballa.ByteRing.{write_at, first_span, copy_out}
use liballa.FlightRecorder.{PacketFlightRecorder, Offer, record_event}
use liballa.FlightRecorder.Events.{playback_underrun}

pub record Playback : Type 0 where
  pub ring : List ℕ
  pub ring_mask : ℕ
  pub ring_head : ℕ
  pub ring_tail : ℕ
  pub channels : ℕ
  pub bytes_per_sample : ℕ
  pub started : Bool
  pub target_frames : ℤ
  pub prime_frames : ℤ
  pub headroom_frames : ℤ
  pub written_frames : ℕ
  pub played_frames : ℕ
  pub overruns : ℕ
  pub overrun_active : Bool
  pub underruns : ℕ
  pub underrun_active : Bool
  pub short_packets : ℕ
  pub short_frames : ℕ
  pub writes_since_drain : ℕ
  pub ring_high_water : ℕ
  pub queued_out_frames : ℕ
  pub recorder : PacketFlightRecorder

-- The bytes of a frame.
abbrev pub stride : Playback → ℕ
stride p = p.channels * p.bytes_per_sample

-- The bytes between the counters, `ringHead_ - ringTail_` on size_t.
abbrev pub queued_bytes : Playback → ℕ
queued_bytes p = sub_u64 p.ring_head p.ring_tail

-- LibusbUacDriver::bufferedFrames
unfoldable pub buffered_frames : Playback → ℤ
buffered_frames p = if stride p == 0 then pos 0 else to_int (queued_bytes p / stride p)

-- The flags of a drain of `n` bytes out of `available` that falls short of `bytes`.
note_underrun : ℕ → ℕ → ℕ → ℕ → Playback → Playback
note_underrun now available n bytes p =
    let q =
      if p.started
      then record p {
        underruns = if p.underrun_active then p.underruns else u64 (p.underruns + 1);
        underrun_active = true;
      }
      else p in
    if stride p == 0 then q else record q {
      short_packets = u64 (p.short_packets + 1);
      short_frames = u64 (p.short_frames + (bytes - n) / stride p);
      recorder =
          record_event
            (record {
              event = playback_underrun;
              timestamp_ns = now;
              a = u32 (n / stride p);
              b = u32 (bytes / stride p);
              ring_frames = u32 (available / stride p);
              queued_frames = u32 p.queued_out_frames;
            })
            p.recorder;
    }

-- LibusbUacDriver::drainRing for `bytes` bytes, with the bytes that it copied out. Their number is
-- what it returns.
unfoldable pub drain_ring : ℕ → ℕ → Playback → Playback × List ℕ
unfolding note_underrun
drain_ring now bytes p =
    let available = queued_bytes p in
    let n = min available bytes in
    let out = copy_out p.ring p.ring_mask p.ring_tail n in
    let q =
      if n == 0
      then p
      else record p { writes_since_drain = 0; ring_tail = u64 (p.ring_tail + n) } in
    let r =
      if ltb n bytes
      then note_underrun now available n bytes q
      else record q { underrun_active = false } in
    (
      record r {
        played_frames = if stride p == 0 then r.played_frames else r.played_frames + n / stride p;
      },
      out,
    )

-- LibusbUacDriver::PlaybackWriteRegion; `first` is the offset into the ring, `second` its start.
pub record PlaybackWriteRegion : Type 0 where
  pub first : ℕ
  pub first_bytes : ℕ
  pub second_bytes : ℕ
  pub producer_cursor : ℕ
  pub frames : ℕ
  pub frame_stride : ℕ

abbrev pub no_region : PlaybackWriteRegion
no_region = record {
  first = 0;
  first_bytes = 0;
  second_bytes = 0;
  producer_cursor = 0;
  frames = 0;
  frame_stride = 0;
}

-- The logical limit on queued frames: target or startup prime, plus the write headroom.
abbrev pub frame_limit : Playback → ℕ
frame_limit p =
    to_size ((if p.started then p.target_frames else p.prime_frames) +ℤ p.headroom_frames)

-- The room in frames: in the vector, and under the limit.
abbrev pub physical_frames : Playback → ℕ
physical_frames p = sub_u64 (length p.ring) (queued_bytes p) / stride p

abbrev pub logical_frames : ℕ → Playback → ℕ
logical_frames limit p =
    if ltb (queued_bytes p / stride p) limit then limit - queued_bytes p / stride p else 0

-- How many of the requested frames there is room for.
abbrev pub admitted_frames : ℕ → Playback → ℕ
admitted_frames requested p =
    min requested (min (physical_frames p) (logical_frames (frame_limit p) p))

-- LibusbUacDriver::preparePlaybackWrite
unfoldable pub prepare_playback_write : ℤ → Playback → Playback × PlaybackWriteRegion
prepare_playback_write requested_frames p =
    if leb_ℤ requested_frames (pos 0) || stride p == 0 || length p.ring == 0
    then (p, no_region)
    else (let requested = pos_part requested_frames in
        let admitted = admitted_frames requested p in
        let q =
          if ltb admitted requested
          then record p {
            overruns = if p.overrun_active then p.overruns else u64 (p.overruns + 1);
            overrun_active = true;
          }
          else record p { overrun_active = false } in
        if admitted == 0
        then (q, no_region)
        else (let bytes = admitted * stride p in
            let offset = bit_and p.ring_head p.ring_mask in
            let first = first_span p.ring offset bytes in
            (
              q,
              record {
                first = offset;
                first_bytes = first;
                second_bytes = bytes - first;
                producer_cursor = p.ring_head;
                frames = admitted;
                frame_stride = stride p;
              },
            )))

-- LibusbUacDriver::commitPlaybackWrite
unfoldable pub commit_playback_write : PlaybackWriteRegion → Playback → Playback
unfolding buffered_frames
commit_playback_write region p =
    if region.frames == 0 || region.frame_stride == 0
    then p
    else (let q = record p {
      ring_head = u64 (region.producer_cursor + region.frames * region.frame_stride);
      written_frames = p.written_frames + region.frames;
    } in
        if p.started
        then record q { ring_high_water = max p.ring_high_water (pos_part (buffered_frames q)) }
        else q)

-- The two copies of LibusbUacDriver::writePcm into the region.
unfoldable pub fill_region : PlaybackWriteRegion → List ℕ → Playback → Playback
fill_region region source p = record p {
  ring =
      write_at (write_at p.ring region.first (take region.first_bytes source)) 0
        (take region.second_bytes (drop region.first_bytes source));
}

-- LibusbUacDriver::writePcm, with the frames that it took; `none` is a null pointer.
unfoldable pub write_pcm : Option (List ℕ) → ℤ → Playback → Playback × ℕ
write_pcm none frames p = (p, 0)
write_pcm (some source) frames p =
    if leb_ℤ frames (pos 0)
    then (p, 0)
    else (let (q, region) = prepare_playback_write frames p in
        (commit_playback_write region (fill_region region source q), region.frames))

-- LibusbUacDriver::writableFrames
unfoldable pub writable_frames : Playback → ℤ
writable_frames p =
    if stride p == 0
    then pos 0
    else to_int (min (physical_frames p) (logical_frames (frame_limit p) p))

-- LibusbUacDriver::writableToTargetFrames
unfoldable pub writable_to_target_frames : Playback → ℤ
unfolding writable_frames
writable_to_target_frames p =
    if stride p == 0
    then pos 0
    else (let target = if p.started then p.target_frames else p.prime_frames in
        if leb_ℤ target (pos 0)
        then writable_frames p
        else to_int (min (physical_frames p) (logical_frames (to_size target) p)))

-- LibusbUacDriver::flushRing; the store between the two halves is `flush_tail`.
unfoldable pub flush_tail : Playback → Playback
flush_tail p = record p { ring_tail = 0 }

unfoldable pub flush_ring : Playback → Playback
flush_ring p = record (flush_tail p) { ring_head = 0; written_frames = 0; played_frames = 0 }

-- noteQuantumWritten; the high-water mark is a second result.
unfoldable pub note_quantum_written : ℕ → Playback → Playback × ℕ
note_quantum_written high p =
    let writes = u64 (p.writes_since_drain + 1) in
    (record p { writes_since_drain = writes }, max high writes)
