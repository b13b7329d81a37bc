-- ===== src/Capture/Receive.antt =====
-- What the packet loop of LibusbUacDriver::onCapture in src/libusb_uac_driver.cpp does to the queue.
use native.Mathlib.Nat.{zero-mul}
use liballa.Base.{
  ℕ, ◌-◌, ◌*◌, ◌<◌, ◌≡◌, refl, sym, subst, Bool, List, [], ◌∷◌, ◌++◌, append-nil, arith, length,
  take, drop,
}
use liballa.Capture.{Capture, stride}
use liballa.Capture.Read.{IsValid, contents}
use liballa.Capture.Packets.{IsoPacket, receive_packet, receive_packets}
use liballa.Capture.Joining.{
  IsFilled, no_packets, packet_then, room, keep_of, joining, Extends, Extends-then,
  receive_packet-Extends, room_after,
}

-- The packets of a filled transfer never overwrite or reorder what is still unread: exactly the bytes
-- `joining` join the end of the queue, which are, packet after packet, the first bytes of each packet
-- that has come, all of them or as many whole frames as the ring has room for; `totalFrames` counts
-- exactly these frames, and the invariant is kept; bad packets, a full ring and a full metadata FIFO
-- included.
pub receive_packets_appends :
    (k : ℕ) (completed : Bool) (packets : List IsoPacket) (bytes : List ℕ) (c : Capture)
    → IsValid k c
    → 0 < stride c
    → IsFilled (stride c) packets bytes
    → let (c', frames) = receive_packets completed packets bytes c in
      let added = joining completed (stride c) (room k c) packets bytes in
      (contents k c' ≡ contents k c ++ added)
      × (length added ≡ frames * stride c)
      × (stride c' ≡ stride c)
      × IsValid k c'
unfolding receive_packets Extends joining
receive_packets_appends k completed [] bytes c v wide no_packets =
    (sym (append-nil (contents k c)), sym (zero-mul (stride c)), refl, v)
receive_packets_appends k completed (packet ∷ packets) bytes c v wide
      (packet_then n whole there rest) =
    let r = receive_packet completed packet bytes c in
    let keep = keep_of completed (stride c) (room k c) packet in
    let first : Extends k (take keep bytes) c r =
      receive_packet-Extends k n completed packet bytes c v wide whole there in
    let (joined, count, size, valid) = first in
    let left = room_after k keep bytes c r v (ground arith) first in
    let later = drop packet.length bytes in
    Extends-then k (take keep bytes) (joining completed (stride c) (room k c - keep) packets later)
      c r.0 (receive_packets completed packets later r.0).0 r.1
      (receive_packets completed packets later r.0).1 first
      (subst
        (λ f.
          Extends k (joining completed (stride c) f packets later) r.0
            (receive_packets completed packets later r.0))
        left
        (subst
          (λ s.
            Extends k (joining completed s (room k r.0) packets later) r.0
              (receive_packets completed packets later r.0))
          size
          (receive_packets_appends k completed packets later r.0 valid (rw size wide)
            (subst (λ s. IsFilled s packets later) (sym size) rest))))
