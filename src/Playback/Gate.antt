-- ===== src/Playback/Gate.antt =====
-- Admission to the playback ring of src/libusb_uac_driver.cpp: what `writableFrames` promises, how
-- deep the ring gets, and what `flushRing` shows between its two stores.
use native.Mathlib.Nat.{div-add-mod, mul-le-mul_right, div-le_self, add-mul-mod_self_right}
use liballa.Base.{
  ℕ, ◌-◌, min, ◌+◌, ◌*◌, ◌/◌, ◌%◌, ◌^◌, ◌≤◌, ◌<◌, ◌≡◌, ◌↔◌, sym, ap, ◌∙◌, arith, max, List, some,
  length, length-append, length-take, take,
}
use liballa.Base.Int.{pos, ◌≤ℤ◌, ◌+ℤ◌}
use liballa.Base.Word.{sub_u64}
use liballa.Base.Bits.{two_pow}
use liballa.ByteRing.{copy_out}
use liballa.ByteRing.Copy.{copy_out-round}
use liballa.ByteRing.Queue.{length-read_round}
use liballa.Playback.{
  drain_ring, Playback, queued_bytes, stride, admitted_frames, physical_frames, frame_limit,
  write_pcm, prepare_playback_write, commit_playback_write, fill_region, writable_frames,
  writable_to_target_frames, flush_tail, flush_ring,
}
use liballa.Playback.Valid.{IsValid, contents, length-contents, capacity_bound}
use liballa.Playback.Write.{write_pcm_refines}

physical-le : {k : ℕ} {p : Playback} → IsValid k p → physical_frames p ≤ 2 ^ 20
physical-le {k} {p} v = omega (
  arith,
  div-le_self (sub_u64 (length p.ring) (queued_bytes p)) (stride p),
  capacity_bound k v.small,
  v.full,
  v.fits,
)

-- On a valid ring a request is admitted whole exactly when `writableFrames` reports at least that
-- many frames: a render thread that waited for them is not refused.
pub writable_frames_iff :
    {k : ℕ} {p : Playback}
    → IsValid k p
    → (frames : ℕ) → 0 < stride p
    → (pos frames ≤ℤ writable_frames p) ↔ (admitted_frames frames p ≡ frames)
unfolding writable_frames
writable_frames_iff {k} {p} v frames wide =
    ((λ h. ground (arith, physical-le v)), (λ h. ground (arith, physical-le v)))

-- Measured against the target alone there is never more room than under the limit with headroom.
pub writable_to_target-le :
    {k : ℕ} {p : Playback}
    → IsValid k p
    → (target prime headroom : ℕ) → p.target_frames ≡ pos target
    → p.prime_frames ≡ pos prime
    → p.headroom_frames ≡ pos headroom
    → target + headroom < 2 ^ 31
    → prime + headroom < 2 ^ 31
    → writable_to_target_frames p ≤ℤ writable_frames p
unfolding writable_to_target_frames writable_frames ◌+ℤ◌
writable_to_target-le {k} {p} v target prime headroom et ep eh h g = ground (arith, physical-le v)

-- Whole frames only.
abbrev pub IsAligned : Playback → Type 0
IsAligned p = queued_bytes p % stride p ≡ 0

length-drain_ring :
    (k now bytes : ℕ) (p : Playback)
    → p.ring_mask ≡ two_pow k - 1
    → length p.ring ≡ two_pow k
    → bytes ≤ queued_bytes p
    → bytes ≤ length p.ring
    → length (drain_ring now bytes p).1 ≡ bytes
unfolding drain_ring
length-drain_ring k now bytes p mask full there small =
    let all : min (queued_bytes p) bytes ≡ bytes = omega arith in
    ap (λ n. length (copy_out p.ring p.ring_mask p.ring_tail n)) all
    ∙ ap (λ m. length (copy_out p.ring m p.ring_tail bytes)) mask
    ∙ ap length (copy_out-round k p.ring full p.ring_tail bytes (omega (arith, full)))
    ∙ length-read_round (two_pow k) p.ring p.ring_tail bytes

-- Between the two stores of a flush, after the one to the tail, a ring whose counters have not wrapped
-- shows more bytes than are queued: a drain there of any size above that number, up to the head's
-- counter and the size of the ring, hands out that many bytes. After the flush the ring is empty.
pub flush_ring_exposes :
    {k : ℕ} {p : Playback}
    → IsValid k p
    → (now bytes : ℕ) → p.ring_tail ≤ p.ring_head
    → queued_bytes p < bytes
    → bytes ≤ p.ring_head
    → bytes ≤ length p.ring
    → (queued_bytes p < queued_bytes (flush_tail p))
      × (length (drain_ring now bytes (flush_tail p)).1 ≡ bytes)
      × (queued_bytes (flush_ring p) ≡ 0)
unfolding flush_ring flush_tail
flush_ring_exposes {k} {p} v now bytes g more low small =
    let shown : queued_bytes (flush_tail p) ≡ p.ring_head = omega (arith, v.head_word) in
    (
      omega (arith, shown, v.head_word, v.tail_word),
      length-drain_ring k now bytes (flush_tail p) v.mask v.full (omega (arith, shown)) small,
      omega arith,
    )

stride-write_pcm :
    (source : List ℕ) (frames : ℕ) (p : Playback)
    → stride (write_pcm (some source) (pos frames) p).0 ≡ stride p
unfolding write_pcm commit_playback_write prepare_playback_write fill_region
stride-write_pcm source frames p = ground arith

depth :
    (frames : ℕ) (p : Playback)
    → admitted_frames frames p + queued_bytes p / stride p
      ≤ max (queued_bytes p / stride p) (frame_limit p)
depth frames p = ground arith

-- A write never pushes an aligned queue above its limit: afterwards it holds at most the larger of
-- the frames that were queued before and the limit of target or prime plus headroom, and it still
-- holds whole frames only.
pub write_pcm-depth :
    {k : ℕ} {p : Playback}
    → IsValid k p
    → (frames : ℕ) (source : List ℕ) → 0 < frames
    → 0 < stride p
    → frames * stride p ≤ length source
    → IsAligned p
    → let q = (write_pcm (some source) (pos frames) p).0 in
      (queued_bytes q ≤ max (queued_bytes p / stride p) (frame_limit p) * stride p) × IsAligned q
write_pcm-depth {k} {p} v frames source some_frames wide enough aligned = (
  omega (
    arith,
    grown,
    mul-le-mul_right (stride p) (depth frames p),
    div-add-mod (queued_bytes p) (stride p),
    aligned,
  ),
  ap (λ s. queued_bytes q % s) (stride-write_pcm source frames p)
      ∙ ap (λ n. n % stride p) grown
      ∙ add-mul-mod_self_right (queued_bytes p) (admitted_frames frames p) (stride p)
      ∙ aligned,
)
  where
    q : Playback
    q = (write_pcm (some source) (pos frames) p).0

    admitted_le : admitted_frames frames p ≤ frames
    admitted_le = omega arith

    grown : queued_bytes q ≡ queued_bytes p + admitted_frames frames p * stride p
    grown =
        let (taken, queue, valid) = write_pcm_refines v frames source some_frames wide enough in
        let bytes = admitted_frames frames p * stride p in
        sym (length-contents k q)
        ∙ ap length queue
        ∙ length-append (contents k p)
            (take ((write_pcm (some source) (pos frames) p).1 * stride p) source)
        ∙ ap (λ n. length (contents k p) + length (take (n * stride p) source)) taken
        ∙ omega (
          arith,
          length-contents k p,
          length-take bytes source,
          mul-le-mul_right (stride p) admitted_le,
        )
