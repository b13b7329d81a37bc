-- ===== src/Capture/Joining.antt =====
-- What one packet of LibusbUacDriver::onCapture in src/libusb_uac_driver.cpp adds to the queue.
use native.Mathlib.Nat.{mul-le-mul_right, mul-div_cancel, div-add-mod', zero-mul, add-mul}
use liballa.Base.{
  ℕ, ◌+◌, ◌-◌, ◌*◌, ◌/◌, ◌%◌, ◌≤◌, ◌<◌, ◌≡◌, refl, sym, ap, ap₂, subst, transport, ◌∙◌, Bool, ◌&&◌,
  true, false, List, [], ◌∷◌, ◌++◌, append_assoc, append-nil, arith, dec_le, length-take,
  length-append, if◌then◌else◌, length, take, drop, min,
}
use liballa.Base.Word.{u64, sub_u64}
use liballa.Base.Bits.{two_pow, two_pow_mono}
use liballa.ByteRing.{copy_in}
use liballa.ByteRing.Queue.{length-read_round}
use liballa.ByteRing.View.{IsRing, queue, push_back}
use liballa.Capture.{Capture, stride, queued_bytes}
use liballa.Capture.Read.{IsValid, contents}
use liballa.Capture.Packets.{
  IsoPacket, packet_ok, note_metadata, kept_bytes, admit_packet, note_packet, receive_packet,
}

-- What the kernel says of a transfer: each packet's bytes are in the buffer, and are whole frames.
pub data IsFilled (s : ℕ) : List IsoPacket → List ℕ → Type 0 where
  no_packets : {bytes : List ℕ} → IsFilled s [] bytes
  packet_then :
      {packet : IsoPacket} {packets : List IsoPacket} {bytes : List ℕ}
      → (frames : ℕ) → packet.actual_length ≡ frames * s
      → packet.actual_length ≤ length bytes
      → IsFilled s packets (drop packet.length bytes)
      → IsFilled s (packet ∷ packets) bytes

whole_kept :
    (frames free s : ℕ) → 0 < s → min (frames * s) (free - free % s) ≡ min frames (free / s) * s
whole_kept frames free s h = elim (dec_le frames (free / s)) [
  | yes few ↦
      let least : min frames (free / s) ≡ frames = omega arith in
      rw least (omega (arith, mul-le-mul_right s few, div-add-mod' free s))
  | no many ↦
      let less : free / s ≤ frames = omega arith in
      let least : min frames (free / s) ≡ free / s = omega arith in
      rw least (omega (arith, mul-le-mul_right s less, div-add-mod' free s))
]

-- The free bytes of the ring, and the bytes of a packet that join the queue: those of a packet that
-- has come, as many whole frames as there is room for.
abbrev pub room : ℕ → Capture → ℕ
room k c = length c.ring - length (contents k c)

abbrev pub keep_of : Bool → ℕ → ℕ → IsoPacket → ℕ
keep_of completed s free packet =
    if completed && packet.completed then min packet.actual_length (free / s * s) else 0

-- The bytes that the packets of a transfer add, each packet's from its own place in the buffer.
unfoldable pub joining : Bool → ℕ → ℕ → List IsoPacket → List ℕ → List ℕ
joining completed s free [] bytes = []
joining completed s free (packet ∷ packets) bytes =
    let keep = keep_of completed s free packet in
    take keep bytes ++ joining completed s (free - keep) packets (drop packet.length bytes)

-- What a step of the loop does to the queue: it appends these bytes, whole frames, and counts them.
unfoldable pub Extends : ℕ → List ℕ → Capture → Capture × ℕ → Type 0
Extends k added c (c', frames) =
    (contents k c' ≡ contents k c ++ added)
    × (length added ≡ frames * stride c)
    × (stride c' ≡ stride c)
    × IsValid k c'

admit_fields :
    (packet : IsoPacket) (bytes : List ℕ) (c : Capture)
    → let (c', frames) = admit_packet packet bytes c in
      let keep = kept_bytes packet.actual_length c in
      (c'.ring ≡ copy_in c.ring c.ring_mask c.ring_head (take keep bytes))
      × (c'.ring_mask ≡ c.ring_mask)
      × (c'.ring_head ≡ u64 (c.ring_head + keep))
      × (c'.ring_tail ≡ c.ring_tail)
      × (stride c' ≡ stride c)
      × (frames ≡ keep / stride c)
unfolding admit_packet
admit_fields packet bytes c = (refl, refl, refl, refl, refl, refl)

admit-Extends :
    (k n : ℕ) (packet : IsoPacket) (bytes : List ℕ) (c : Capture)
    → IsValid k c
    → 0 < stride c
    → packet.actual_length ≡ n * stride c
    → packet.actual_length ≤ length bytes
    → Extends k (take (kept_bytes packet.actual_length c) bytes) c (admit_packet packet bytes c)
unfolding Extends
admit-Extends k n packet bytes c v wide whole there =
    let keep = kept_bytes packet.actual_length c in
    let free = sub_u64 (length c.ring) (queued_bytes c) in
    let (ring, mask, head, tail, same, count) = admit_fields packet bytes c in
    let exact : keep ≡ min n (free / stride c) * stride c =
      ap (λ b. min b (free - free % stride c)) whole ∙ whole_kept n free (stride c) wide in
    let taken : length (take keep bytes) ≡ keep = omega (arith, length-take keep bytes) in
    let (more, valid) =
      push_back v (take keep bytes)
        (omega (arith, taken, v.full, v.fits, two_pow_mono k 20 v.small)) in
    (
      (λ i. queue k (ring i) (head i) (tail i))
          ∙ ap
              (λ m.
                queue k (copy_in c.ring c.ring_mask c.ring_head (take keep bytes))
                  (u64 (c.ring_head + m)) c.ring_tail)
              (sym taken)
          ∙ more,
      taken
          ∙ exact
          ∙ ap (λ m. m * stride c)
              (sym (count ∙ ap (λ m. m / stride c) exact ∙ mul-div_cancel _ wide)),
      same,
      transport
          (sym (λ i.
            IsRing k (ring i) (mask i) ((head ∙ ap (λ m. u64 (c.ring_head + m)) (sym taken)) i)
              (tail i)))
          valid,
    )

note_fields :
    (ok : Bool) (packet : IsoPacket) (c : Capture)
    → let noted = note_packet ok packet c in
      (noted.ring ≡ c.ring)
      × (noted.ring_mask ≡ c.ring_mask)
      × (noted.ring_head ≡ c.ring_head)
      × (noted.ring_tail ≡ c.ring_tail)
      × (stride noted ≡ stride c)
unfolding note_packet note_metadata
note_fields ok packet c = ground arith

same_contents :
    (k : ℕ) (c d : Capture)
    → d.ring ≡ c.ring
    → d.ring_mask ≡ c.ring_mask
    → d.ring_head ≡ c.ring_head
    → d.ring_tail ≡ c.ring_tail
    → IsValid k c
    → (contents k d ≡ contents k c) × IsValid k d
same_contents k c d ring mask head tail v = (
  (λ i. queue k (ring i) (head i) (tail i)),
  transport (sym (λ i. IsRing k (ring i) (mask i) (head i) (tail i))) v,
)

nothing_added :
    (k : ℕ) (c d : Capture)
    → contents k d ≡ contents k c
    → stride d ≡ stride c
    → IsValid k d
    → Extends k [] c (d, 0)
unfolding Extends
nothing_added k c d same size v =
    (same ∙ sym (append-nil (contents k c)), sym (zero-mul (stride c)), size, v)

Extends-after :
    (k : ℕ) (added : List ℕ) (c d : Capture) (r : Capture × ℕ)
    → contents k d ≡ contents k c
    → stride d ≡ stride c
    → Extends k added d r
    → Extends k added c r
unfolding Extends
Extends-after k added c d r same size (joined, count, kept, v) =
    (joined ∙ ap (λ q. q ++ added) same, count ∙ ap (λ s. r.1 * s) size, kept ∙ size, v)

-- One step after another.
pub Extends-then :
    (k : ℕ) (added added' : List ℕ) (c c' c'' : Capture) (frames more : ℕ)
    → Extends k added c (c', frames)
    → Extends k added' c' (c'', more)
    → Extends k (added ++ added') c (c'', frames + more)
unfolding Extends
Extends-then k added added' c c' c'' frames more (joined, count, kept, v)
      (joined', count', kept', v') =
    (
      joined' ∙ ap (λ q. q ++ added') joined ∙ append_assoc (contents k c) added added',
      length-append added added'
          ∙ ap₂ ◌+◌ count (count' ∙ ap (λ s. more * s) kept)
          ∙ sym (add-mul frames more (stride c)),
      kept' ∙ kept,
      v',
    )

-- The code's whole frames are those that the room divides into.
kept_bytes-room :
    (k n : ℕ) (c : Capture) → IsValid k c → kept_bytes n c ≡ min n (room k c / stride c * stride c)
kept_bytes-room k n c v =
    let queued : length (contents k c) ≡ queued_bytes c =
      length-read_round (two_pow k) c.ring c.ring_tail (queued_bytes c) in
    let free : sub_u64 (length c.ring) (queued_bytes c) ≡ room k c =
      omega (arith, queued, v.full, v.fits, two_pow_mono k 20 v.small) in
    ap (λ f. min n (f - f % stride c)) free
    ∙ ap (min n) (omega (arith, div-add-mod' (room k c) (stride c)))

receive_branch :
    (ok : Bool) (k n keep : ℕ) (packet : IsoPacket) (bytes : List ℕ) (c : Capture)
    → IsValid k c
    → 0 < stride c
    → packet.actual_length ≡ n * stride c
    → packet.actual_length ≤ length bytes
    → keep ≡ (if ok then min packet.actual_length (room k c / stride c * stride c) else 0)
    → Extends k (take keep bytes) c (
        if ok
        then admit_packet packet bytes (note_packet ok packet c)
        else (note_packet ok packet c, 0))
receive_branch true k n keep packet bytes c v wide whole there e =
    let d = note_packet true packet c in
    let (ring, mask, head, tail, size) = note_fields true packet c in
    let (same, valid) = same_contents k c d ring mask head tail v in
    let kept : kept_bytes packet.actual_length d ≡ keep =
      kept_bytes-room k packet.actual_length d valid
      ∙ ap₂ (λ r s. min packet.actual_length (r / s * s))
          (ap₂ (λ b q. length b - length q) ring same) size
      ∙ sym e in
    Extends-after k (take keep bytes) c d (admit_packet packet bytes d) same size (
      subst (λ m. Extends k (take m bytes) d (admit_packet packet bytes d)) kept
        (admit-Extends k n packet bytes d valid (rw size wide) (whole ∙ ap (λ s. n * s) (sym size))
          there))
receive_branch false k n keep packet bytes c v wide whole there e =
    let d = note_packet false packet c in
    let (ring, mask, head, tail, size) = note_fields false packet c in
    let (same, valid) = same_contents k c d ring mask head tail v in
    rw e (nothing_added k c d same size valid)

keep_of-ok :
    (completed : Bool) (k : ℕ) (packet : IsoPacket) (c : Capture)
    → 0 < stride c
    → keep_of completed (stride c) (room k c) packet ≡ (
        if packet_ok completed packet c
        then min packet.actual_length (room k c / stride c * stride c)
        else 0)
keep_of-ok completed k packet c wide = ground arith

pub receive_packet-Extends :
    (k n : ℕ) (completed : Bool) (packet : IsoPacket) (bytes : List ℕ) (c : Capture)
    → IsValid k c
    → 0 < stride c
    → packet.actual_length ≡ n * stride c
    → packet.actual_length ≤ length bytes
    → Extends k
        (take (keep_of completed (stride c) (room k c) packet) bytes)
        c
        (receive_packet completed packet bytes c)
unfolding receive_packet
receive_packet-Extends k n completed packet bytes c v wide whole there =
    receive_branch (packet_ok completed packet c) k n _ packet bytes c v wide whole there
      (keep_of-ok completed k packet c wide)

-- What is free after a packet.
pub room_after :
    (k keep : ℕ) (bytes : List ℕ) (c : Capture) (r : Capture × ℕ)
    → IsValid k c
    → keep ≤ length bytes
    → Extends k (take keep bytes) c r
    → room k r.0 ≡ room k c - keep
unfolding Extends
room_after k keep bytes c r v there (joined, count, kept, v') = omega (
  arith,
  ap length joined,
  length-append (contents k c) (take keep bytes),
  length-take keep bytes,
  v.full,
  v'.full,
)
