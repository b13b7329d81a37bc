-- ===== src/Capture.antt =====
-- The capture ring of src/libusb_uac_driver.cpp: the packets that a completed transfer brings in, the
-- two-phase read of the render thread, and the discards. The channel count and the bytes of a sample
-- come from descriptor bytes, and the transfer count is checked at configuration: they are numbers.
pub mod Read
pub mod Discard
pub mod Packets
pub mod Joining
pub mod Receive
mod Tests
use liballa.Base.{
  ℕ, ◌+◌, ◌-◌, ◌*◌, ◌/◌, ◌%◌, ◌^◌, Bool, true, false, ◌&&◌, ◌||◌, not, min, max, List, [], ◌∷◌,
  ◌++◌, ltb, leb, ◌==◌, if◌then◌else◌, length, take, drop, bit_and, set,
}
use liballa.Base.Int.{ℤ, pos, pos_part, ◌+ℤ◌, ltb_ℤ, leb_ℤ, max_ℤ, min_ℤ}
use liballa.Base.Word.{u16_mod, u64, sub_u64, to_size, to_int}
use liballa.ByteRing.{read_at, first_span, copy_in}
use liballa.Scheduling.{packets_per_second_for_interval, nominal_transfer_frames}

pub record Capture : Type 0 where
  pub active : Bool
  pub ring : List ℕ
  pub ring_mask : ℕ
  pub ring_head : ℕ
  pub ring_tail : ℕ
  pub channels : ℕ
  pub bytes_per_sample : ℕ
  pub high_speed : Bool
  pub b_interval : ℤ
  pub sample_rate : ℤ
  pub packets_per_transfer : ℤ
  pub max_frames_per_packet : ℤ
  pub transfer_count : ℕ
  pub graph_quantum : ℤ
  pub playback_target : ℤ
  pub limit_frames : ℤ
  pub live : Bool
  pub startup_discard_frames : ℕ
  pub overruns : ℕ
  pub underruns : ℕ
  pub packet_drops : ℕ
  pub implicit : Bool
  pub implicit_frames : List ℕ
  pub implicit_read : ℕ
  pub implicit_write : ℕ
  pub metadata_fifo_overruns : ℕ
  pub metadata_invalid : ℕ

abbrev pub stride : Capture → ℕ
stride c = c.channels * c.bytes_per_sample

abbrev pub queued_bytes : Capture → ℕ
queued_bytes c = sub_u64 c.ring_head c.ring_tail

-- LibusbUacDriver::captureFrameLimit
unfoldable pub capture_frame_limit : Capture → ℤ
capture_frame_limit c =
    if stride c == 0 || length c.ring == 0
    then pos 0
    else (let transfer_frames =
          pos_part (max_ℤ (pos 1) c.packets_per_transfer)
          * pos_part (max_ℤ (pos 0) c.max_frames_per_packet) in
        let queued_frames = (c.transfer_count + 2) * transfer_frames in
        let packets_per_second = packets_per_second_for_interval c.high_speed c.b_interval in
        let submitted =
          c.transfer_count
          * nominal_transfer_frames c.sample_rate c.packets_per_transfer (pos packets_per_second) in
        let playback_budget = c.playback_target +ℤ c.graph_quantum +ℤ pos submitted in
        let latency_limit =
          max_ℤ (c.graph_quantum +ℤ c.graph_quantum)
            (max_ℤ (pos queued_frames +ℤ c.graph_quantum) playback_budget) in
        let physical_limit = to_int (length c.ring / stride c) in
        if ltb_ℤ (pos 0) c.limit_frames
        then min_ℤ physical_limit c.limit_frames
        else min_ℤ physical_limit latency_limit)

-- LibusbUacDriver::CaptureReadRegion; `first` is the offset into the ring, `second` its start.
pub record CaptureReadRegion : Type 0 where
  pub first : ℕ
  pub first_bytes : ℕ
  pub second_bytes : ℕ
  pub consumer_cursor : ℕ
  pub frames : ℕ
  pub frame_stride : ℕ

abbrev pub no_region : CaptureReadRegion
no_region = record {
  first = 0;
  first_bytes = 0;
  second_bytes = 0;
  consumer_cursor = 0;
  frames = 0;
  frame_stride = 0;
}

-- `limitBytes`, and the bytes that a read drops to keep within it.
abbrev pub limit_bytes : Capture → ℕ
limit_bytes c = u64 (to_size (capture_frame_limit c) * stride c)

abbrev pub stale_bytes : Capture → ℕ
stale_bytes c = queued_bytes c - limit_bytes c

-- The frames that a read of `requested` frames gets.
abbrev pub readable_frames : ℕ → Capture → ℕ
readable_frames requested c = min ((queued_bytes c - stale_bytes c) / stride c) requested

-- LibusbUacDriver::prepareCaptureRead
unfoldable pub prepare_capture_read : ℤ → Capture → Capture × CaptureReadRegion
prepare_capture_read requested_frames c =
    if not c.active || leb_ℤ requested_frames (pos 0) || c.channels == 0
    then (c, no_region)
    else if stride c == 0 || length c.ring == 0
    then (c, no_region)
    else (let requested = pos_part requested_frames in
        let trims = ltb (limit_bytes c) (queued_bytes c) in
        let tail = if trims then sub_u64 c.ring_head (limit_bytes c) else c.ring_tail in
        let c' = record c {
          overruns = if trims && c.live then u64 (c.overruns + 1) else c.overruns;
        } in
        let frames = min (sub_u64 c.ring_head tail / stride c) requested in
        let bytes = frames * stride c in
        let offset = bit_and tail c.ring_mask in
        let first = first_span c.ring offset bytes in
        (
          record c' {
            underruns = if ltb frames requested then u64 (c.underruns + 1) else c.underruns;
          },
          record {
            first = offset;
            first_bytes = first;
            second_bytes = bytes - first;
            consumer_cursor = tail;
            frames = frames;
            frame_stride = stride c;
          },
        ))

-- LibusbUacDriver::commitCaptureRead
unfoldable pub commit_capture_read : CaptureReadRegion → Capture → Capture
commit_capture_read region c =
    if region.frames == 0 || region.frame_stride == 0
    then c
    else record c { ring_tail = u64 (region.consumer_cursor + region.frames * region.frame_stride) }

-- The two copies of LibusbUacDriver::readCapturePcm out of the region.
unfoldable pub copy_region : CaptureReadRegion → Capture → List ℕ
copy_region region c =
    read_at c.ring region.first region.first_bytes ++ read_at c.ring 0 region.second_bytes

-- LibusbUacDriver::readCapturePcm: the bytes that it copies, and the frames that it returns. The
-- first argument says whether there is a buffer.
unfoldable pub read_capture_pcm : Bool → ℤ → Capture → Capture × (List ℕ × ℕ)
read_capture_pcm has_buffer frames c =
    if not has_buffer || leb_ℤ frames (pos 0)
    then (c, ([], 0))
    else (let (c', region) = prepare_capture_read frames c in
        (commit_capture_read region c', (copy_region region c', region.frames)))

-- LibusbUacDriver::beginCaptureLive, with the frames that it dropped
unfoldable pub begin_capture_live : ℤ → Capture → Capture × ℕ
begin_capture_live keep_frames c =
    let c' = record c { live = true } in
    let available = queued_bytes c / stride c in
    let keep = if ltb_ℤ (pos 0) keep_frames then pos_part keep_frames else 0 in
    if c.live
    then (c', 0)
    else if not c.active
    then (c', 0)
    else if stride c == 0
    then (c', 0)
    else if leb available keep
    then (c', 0)
    else (
      record c' {
        ring_tail = u64 (c.ring_tail + (available - keep) * stride c);
        startup_discard_frames = available - keep;
      },
      available - keep,
    )

-- LibusbUacDriver::discardCaptureFrames
unfoldable pub discard_capture_frames : ℤ → Capture → Capture × ℕ
discard_capture_frames max_frames c =
    if not c.active || leb_ℤ max_frames (pos 0)
    then (c, 0)
    else if stride c == 0
    then (c, 0)
    else (let discarded = min (queued_bytes c / stride c) (pos_part max_frames) in
        (record c { ring_tail = u64 (c.ring_tail + discarded * stride c) }, discarded))

-- LibusbUacDriver::captureAvailableFrames
unfoldable pub capture_available_frames : Capture → ℤ
unfolding capture_frame_limit
capture_available_frames c =
    if not c.active
    then pos 0
    else if stride c == 0
    then pos 0
    else to_int (min (queued_bytes c / stride c) (to_size (capture_frame_limit c)))
