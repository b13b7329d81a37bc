-- ===== src/Capture/Read.antt =====
-- Reading captured frames: prepareCaptureRead, commitCaptureRead and readCapturePcm of
-- src/libusb_uac_driver.cpp.
use native.Mathlib.Nat.{div-mul-le_self, mul-le-mul_right}
use liballa.Base.{
  ℕ, ◌+◌, ◌-◌, ◌*◌, ◌/◌, ◌≤◌, ◌<◌, ◌≡◌, sym, ap, ap₂, transport, ◌∙◌, true, List, ◌++◌, arith, ltb,
  if◌then◌else◌, length, take, drop, min, bit_and,
}
use liballa.Base.Int.{pos}
use liballa.Base.Word.{u64, sub_u64}
use liballa.ByteRing.{read_at, first_span, copy_out}
use liballa.ByteRing.View.{IsRing, queue, take_out, move_tail, queued_behind}
use liballa.Capture.{
  Capture, CaptureReadRegion, stride, queued_bytes, limit_bytes, stale_bytes, readable_frames,
  prepare_capture_read, commit_capture_read, copy_region, read_capture_pcm,
}

-- The capture ring is a ring of 2 ^ k bytes.
abbrev pub IsValid : ℕ → Capture → Type 0
IsValid k c = IsRing k c.ring c.ring_mask c.ring_head c.ring_tail

abbrev pub contents : ℕ → Capture → List ℕ
contents k c = queue k c.ring c.ring_head c.ring_tail

-- A stream that is up and has frames of positive size, with its ring.
pub record IsStreaming (k : ℕ) (c : Capture) : Type 0 where
  pub valid : IsValid k c
  pub active : c.active ≡ true
  pub some_channels : 0 < c.channels
  pub some_bytes : 0 < stride c
  pub some_ring : 0 < length c.ring

cursor : Capture → ℕ
cursor c =
    if ltb (limit_bytes c) (queued_bytes c)
    then sub_u64 c.ring_head (limit_bytes c)
    else c.ring_tail

cursor-eq : {k : ℕ} (c : Capture) → IsValid k c → cursor c ≡ u64 (c.ring_tail + stale_bytes c)
unfolding cursor
cursor-eq c v = ground (arith, v)

-- The region of a read of `frames` frames from a cursor.
abbrev region_at : ℕ → ℕ → Capture → CaptureReadRegion
region_at at frames c =
    let offset = bit_and at c.ring_mask in
    let first = first_span c.ring offset (frames * stride c) in
    record {
      first = offset;
      first_bytes = first;
      second_bytes = frames * stride c - first;
      consumer_cursor = at;
      frames = frames;
      frame_stride = stride c;
    }

prepare_fields :
    {k : ℕ} {c : Capture} (requested : ℕ)
    → IsStreaming k c
    → 0 < requested
    → let (c', region) = prepare_capture_read (pos requested) c in
      (c'.ring ≡ c.ring)
      × (c'.ring_mask ≡ c.ring_mask)
      × (c'.ring_head ≡ c.ring_head)
      × (c'.ring_tail ≡ c.ring_tail)
      × (region
          ≡ region_at (cursor c) (min (sub_u64 c.ring_head (cursor c) / stride c) requested) c)
unfolding prepare_capture_read cursor
prepare_fields requested s r = ground (arith, s)

commit_fields :
    (at frames : ℕ) (c d : Capture)
    → 0 < frames
    → 0 < stride c
    → let c' = commit_capture_read (region_at at frames c) d in
      (c'.ring ≡ d.ring)
      × (c'.ring_mask ≡ d.ring_mask)
      × (c'.ring_head ≡ d.ring_head)
      × (c'.ring_tail ≡ u64 (at + frames * stride c))
unfolding commit_capture_read
commit_fields at frames c d f s = ground arith

module _ {k : ℕ} {c : Capture} (s : IsStreaming k c) (requested : ℕ)
    (some_frames : 0 < requested) where
  prepared : Capture × CaptureReadRegion
  prepared = prepare_capture_read (pos requested) c

  cursor_frames :
      min (sub_u64 c.ring_head (cursor c) / stride c) requested ≡ readable_frames requested c
  cursor_frames =
      ap (λ n. min (n / stride c) requested)
        (ap (sub_u64 c.ring_head) (cursor-eq c s.valid)
          ∙ queued_behind s.valid (stale_bytes c) (omega arith))

  prepared_region : prepared.1 ≡ region_at (cursor c) (readable_frames requested c) c
  unfolding prepared
  prepared_region =
      let (ring, mask, head, tail, region) = prepare_fields requested s some_frames in
      region ∙ ap (λ n. region_at (cursor c) n c) cursor_frames

  read-eq : read_capture_pcm true (pos requested) c ≡ (
    commit_capture_read prepared.1 prepared.0,
    (copy_region prepared.1 prepared.0, prepared.1.frames),
  )
  unfolding read_capture_pcm prepared
  read-eq = ground arith

  copied :
      copy_region prepared.1 prepared.0
      ≡ copy_out c.ring c.ring_mask (cursor c) (readable_frames requested c * stride c)
  unfolding copy_region copy_out prepared
  copied =
      let (ring, mask, head, tail, region) = prepare_fields requested s some_frames in
      ap₂ (λ r b. read_at b r.first r.first_bytes ++ read_at b 0 r.second_bytes) prepared_region
        ring

  reach : stale_bytes c + readable_frames requested c * stride c ≤ queued_bytes c
  reach =
      let whole = (queued_bytes c - stale_bytes c) / stride c in
      let least : readable_frames requested c ≤ whole = ground arith in
      omega (
        arith,
        mul-le-mul_right (stride c) least,
        div-mul-le_self (queued_bytes c - stale_bytes c) (stride c),
      )

  taken : ℕ
  taken = readable_frames requested c * stride c

  new_tail :
      0 < readable_frames requested c
      → (commit_capture_read prepared.1 prepared.0).ring_tail
        ≡ u64 (c.ring_tail + (stale_bytes c + taken))
  unfolding taken
  new_tail more =
      let (ring, mask, head, tail) =
        commit_fields (cursor c) (readable_frames requested c) c prepared.0 more s.some_bytes in
      ap (λ r. (commit_capture_read r prepared.0).ring_tail) prepared_region
      ∙ tail
      ∙ omega (arith, cursor-eq c s.valid)

  committed_ring :
      let c' = commit_capture_read prepared.1 prepared.0 in
      (c'.ring ≡ c.ring) × (c'.ring_mask ≡ c.ring_mask) × (c'.ring_head ≡ c.ring_head)
  unfolding commit_capture_read prepared
  committed_ring = ground (arith, prepare_fields requested s some_frames)

-- A read on a running stream that gets any frame drops the stale bytes above the limit from the
-- front, hands out the next whole frames in order, as many as were asked for or are left, leaves
-- exactly the others queued, and keeps the invariant.
pub read_capture_pcm_refines :
    {k : ℕ} {c : Capture}
    → IsStreaming k c
    → (requested : ℕ) → 0 < readable_frames requested c
    → let (c', (out, frames)) = read_capture_pcm true (pos requested) c in
      (frames ≡ readable_frames requested c)
      × (out ≡ take (frames * stride c) (drop (stale_bytes c) (contents k c)))
      × (contents k c' ≡ drop (stale_bytes c + frames * stride c) (contents k c))
      × IsValid k c'
unfolding taken
read_capture_pcm_refines {k} {c} s requested more =
    let some_frames : 0 < requested = ground arith in
    let (ring, mask, head) = committed_ring s requested some_frames in
    let tail = new_tail s requested some_frames more in
    let frames = ap (λ r. r.frames) (prepared_region s requested some_frames) in
    let (left, valid) =
      move_tail s.valid (stale_bytes c + taken s requested some_frames)
        (reach s requested some_frames) in
    rw (read-eq s requested some_frames) (
      frames,
      copied s requested some_frames
          ∙ ap (λ t. copy_out c.ring c.ring_mask t (readable_frames requested c * stride c))
              (cursor-eq c s.valid)
          ∙ take_out s.valid (stale_bytes c) (readable_frames requested c * stride c)
              (reach s requested some_frames)
          ∙ ap (λ n. take (n * stride c) (drop (stale_bytes c) (contents k c))) (sym frames),
      (λ i. queue k (ring i) (head i) (tail i))
          ∙ left
          ∙ ap (λ n. drop (stale_bytes c + n * stride c) (contents k c)) (sym frames),
      transport (sym (λ i. IsRing k (ring i) (mask i) (head i) (tail i))) valid,
    )
