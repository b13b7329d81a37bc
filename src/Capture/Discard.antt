-- ===== src/Capture/Discard.antt =====
-- beginCaptureLive and discardCaptureFrames of src/libusb_uac_driver.cpp.
use native.Mathlib.Nat.{div-mul-le_self, mul-le-mul_right, zero-mul}
use liballa.Base.{
  ℕ, ◌+◌, ◌-◌, ◌*◌, ◌/◌, ◌≤◌, ◌<◌, ◌≡◌, sym, transport, ◌∙◌, true, false, arith, drop, min,
}
use liballa.Base.Int.{pos}
use liballa.Base.Word.{u64}
use liballa.ByteRing.View.{IsRing, queue, move_tail}
use liballa.Capture.{Capture, stride, queued_bytes, begin_capture_live, discard_capture_frames}
use liballa.Capture.Read.{IsValid, contents, IsStreaming}

abbrev pub queued_frames : Capture → ℕ
queued_frames c = queued_bytes c / stride c

-- A state that differs from another one by a moved tail.
moved :
    {k : ℕ} (c c' : Capture) (n : ℕ)
    → IsValid k c
    → n ≤ queued_bytes c
    → c'.ring ≡ c.ring
    → c'.ring_mask ≡ c.ring_mask
    → c'.ring_head ≡ c.ring_head
    → c'.ring_tail ≡ u64 (c.ring_tail + n)
    → (contents k c' ≡ drop n (contents k c)) × IsValid k c'
moved {k} c c' n v h ring mask head tail =
    let (left, valid) = move_tail v n h in
    (
      (λ i. queue k (ring i) (head i) (tail i)) ∙ left,
      transport (sym (λ i. IsRing k (ring i) (mask i) (head i) (tail i))) valid,
    )

within : (c : Capture) (n : ℕ) → n ≤ queued_frames c → n * stride c ≤ queued_bytes c
within c n h =
    omega (arith, mul-le-mul_right (stride c) h, div-mul-le_self (queued_bytes c) (stride c))

discard_fields :
    {k : ℕ} {c : Capture} (n : ℕ)
    → IsStreaming k c
    → 0 < n
    → let (c', discarded) = discard_capture_frames (pos n) c in
      (c'.ring ≡ c.ring)
      × (c'.ring_mask ≡ c.ring_mask)
      × (c'.ring_head ≡ c.ring_head)
      × (c'.ring_tail ≡ u64 (c.ring_tail + min (queued_frames c) n * stride c))
      × (discarded ≡ min (queued_frames c) n)
unfolding discard_capture_frames
discard_fields n s h = ground (arith, s)

-- A discard on a running stream takes the oldest whole frames off, as many as there are up to the
-- request, reports their number, leaves the others in order, and keeps the invariant.
pub discard_capture_frames_drops :
    {k : ℕ} {c : Capture}
    → IsStreaming k c
    → (n : ℕ) → 0 < n
    → let (c', discarded) = discard_capture_frames (pos n) c in
      (discarded ≡ min (queued_frames c) n)
      × (contents k c' ≡ drop (min (queued_frames c) n * stride c) (contents k c))
      × IsValid k c'
discard_capture_frames_drops {k} {c} s n h =
    let (ring, mask, head, tail, count) = discard_fields n s h in
    let (left, valid) =
      moved c (discard_capture_frames (pos n) c).0 (min (queued_frames c) n * stride c) s.valid
        (within c (min (queued_frames c) n) (omega arith)) ring mask head tail in
    (count, left, valid)

live_fields :
    {k : ℕ} {c : Capture} (keep : ℕ)
    → IsStreaming k c
    → c.live ≡ false
    → let (c', discarded) = begin_capture_live (pos keep) c in
      (c'.ring ≡ c.ring)
      × (c'.ring_mask ≡ c.ring_mask)
      × (c'.ring_head ≡ c.ring_head)
      × (c'.ring_tail ≡ u64 (c.ring_tail + (queued_frames c - keep) * stride c))
      × (discarded ≡ queued_frames c - keep)
      × (c'.live ≡ true)
unfolding begin_capture_live
live_fields {k} {c} keep s off = ground (arith, s, s.valid, zero-mul (stride c))

live_again : (keep : ℕ) (c : Capture) → c.live ≡ true → (begin_capture_live (pos keep) c).1 ≡ 0
unfolding begin_capture_live
live_again keep c on = ground arith

-- The handover to live capture drops the pre-roll but for the newest frames to keep, reports the
-- dropped frames, leaves the kept ones in order, and keeps the invariant; it happens once: calling
-- it again drops nothing.
pub begin_capture_live_once :
    {k : ℕ} {c : Capture}
    → IsStreaming k c
    → c.live ≡ false
    → (keep again : ℕ)
    → let (c', discarded) = begin_capture_live (pos keep) c in
      (discarded ≡ queued_frames c - keep)
      × (contents k c' ≡ drop ((queued_frames c - keep) * stride c) (contents k c))
      × IsValid k c'
      × ((begin_capture_live (pos again) c').1 ≡ 0)
begin_capture_live_once {k} {c} s off keep again =
    let (ring, mask, head, tail, count, on) = live_fields keep s off in
    let c' = (begin_capture_live (pos keep) c).0 in
    let (left, valid) =
      moved c c' ((queued_frames c - keep) * stride c) s.valid
        (within c (queued_frames c - keep) (omega arith)) ring mask head tail in
    (count, left, valid, live_again again c' on)
