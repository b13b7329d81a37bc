-- ===== src/Capture/Packets.antt =====
-- The packet loop of LibusbUacDriver::onCapture in src/libusb_uac_driver.cpp: the packets of one
-- completed transfer, their clock metadata for implicit feedback, and their bytes.
use liballa.Base.{
  ℕ, ◌+◌, ◌-◌, ◌/◌, ◌%◌, Bool, ◌&&◌, List, [], ◌∷◌, ltb, leb, if◌then◌else◌, length, take, drop,
  min, set, bit_and,
}
use liballa.Base.Word.{u16_mod, u64, sub_u64}
use liballa.ByteRing.{copy_in}
use liballa.Capture.{Capture, stride, queued_bytes}

-- libusb_iso_packet_descriptor: whether its status is COMPLETED, the bytes that came, and its size.
pub record IsoPacket : Type 0 where
  pub completed : Bool
  pub actual_length : ℕ
  pub length : ℕ

abbrev pub implicit_fifo_capacity : ℕ
implicit_fifo_capacity = 256

-- `packetOk`, for a transfer that is COMPLETED or not.
abbrev pub packet_ok : Bool → IsoPacket → Capture → Bool
packet_ok completed packet c =
    completed && packet.completed && ltb 0 packet.actual_length && ltb 0 (stride c)

-- The metadata of one packet. A full FIFO is emptied: its read cursor goes to the write cursor.
unfoldable pub note_metadata : Bool → IsoPacket → Capture → Capture
note_metadata ok packet c =
    let frames = if ok then packet.actual_length / stride c % u16_mod else 0 in
    let full = leb implicit_fifo_capacity (sub_u64 c.implicit_write c.implicit_read) in
    record c {
      metadata_invalid = if ok then c.metadata_invalid else u64 (c.metadata_invalid + 1);
      implicit_read = if full then c.implicit_write else c.implicit_read;
      metadata_fifo_overruns =
          if full then u64 (c.metadata_fifo_overruns + 1) else c.metadata_fifo_overruns;
      implicit_frames =
          set c.implicit_frames (bit_and c.implicit_write (implicit_fifo_capacity - 1)) frames;
      implicit_write = u64 (c.implicit_write + 1);
    }

-- The bytes of a packet that there is room for, in whole frames.
abbrev pub kept_bytes : ℕ → Capture → ℕ
kept_bytes n c =
    let free = sub_u64 (length c.ring) (queued_bytes c) in min n (free - free % stride c)

-- The bytes of a good packet, with the frames that they add to `totalFrames`.
unfoldable pub admit_packet : IsoPacket → List ℕ → Capture → Capture × ℕ
admit_packet packet bytes c =
    let keep = kept_bytes packet.actual_length c in
    (
      record c {
        overruns = if ltb keep packet.actual_length then u64 (c.overruns + 1) else c.overruns;
        ring = copy_in c.ring c.ring_mask c.ring_head (take keep bytes);
        ring_head = u64 (c.ring_head + keep);
      },
      keep / stride c,
    )

-- What happens to good and bad packets alike: the drop counter and the metadata.
unfoldable pub note_packet : Bool → IsoPacket → Capture → Capture
unfolding note_metadata
note_packet ok packet c =
    let counted = record c {
      packet_drops = if ok then c.packet_drops else u64 (c.packet_drops + 1);
    } in
    if c.implicit then note_metadata ok packet counted else counted

-- One round of the loop, on the bytes of the transfer's buffer from the packet on.
unfoldable pub receive_packet : Bool → IsoPacket → List ℕ → Capture → Capture × ℕ
receive_packet completed packet bytes c =
    let ok = packet_ok completed packet c in
    let noted = note_packet ok packet c in
    if ok then admit_packet packet bytes noted else (noted, 0)

-- The loop, with `totalFrames`.
unfoldable pub receive_packets : Bool → List IsoPacket → List ℕ → Capture → Capture × ℕ
receive_packets completed [] bytes c = (c, 0)
receive_packets completed (packet ∷ packets) bytes c =
    let (c', frames) = receive_packet completed packet bytes c in
    let (c'', more) = receive_packets completed packets (drop packet.length bytes) c' in
    (c'', frames + more)
