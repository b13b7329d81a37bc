-- ===== src/Playback/Write.antt =====
-- `preparePlaybackWrite`, `commitPlaybackWrite` and `writePcm` of src/libusb_uac_driver.cpp: the
-- producer's side of the playback ring.
use native.Mathlib.Nat.{div-mul-le_self, mul-le-mul_right, zero-mul}
use liballa.Base.{
  ℕ, ◌+◌, ◌-◌, ◌*◌, ◌%◌, ◌≤◌, ◌<◌, ◌≡◌, sym, ap, ap₂, ◌∙◌, List, ◌++◌, arith, dec_lt, some, bit_and,
  append-nil, length, take, drop, length-take, take-take, drop-take,
}
use liballa.Base.Bits.{two_pow, two_pow-pos, wrap_index}
use liballa.Base.Int.{pos}
use liballa.Base.Word.{u64, sub_u64}
use liballa.ByteRing.{write_at, first_span, copy_in}
use liballa.ByteRing.Copy.{
  read_round, write_round, write_round-mod, length-write_round, copy_in-round,
}
use liballa.ByteRing.Queue.{push_bytes}
use liballa.Playback.{
  Playback, PlaybackWriteRegion, queued_bytes, stride, admitted_frames, physical_frames,
  prepare_playback_write, commit_playback_write, fill_region, write_pcm,
}
use liballa.Playback.Valid.{IsValid, contents, head-eq, extend_queued, capacity_bound, same_ring}

-- The guards of `preparePlaybackWrite` hold, and there is room.
abbrev pub Admits : ℕ → Playback → Type 0
Admits frames p = (0 < admitted_frames frames p) × (0 < stride p) × (0 < length p.ring)

prepare_grants :
    (frames : ℕ) (p : Playback)
    → Admits frames p
    → let (q, region) = prepare_playback_write (pos frames) p in
      let bytes = admitted_frames frames p * stride p in
      (q.ring ≡ p.ring)
      × (q.ring_mask ≡ p.ring_mask)
      × (q.ring_head ≡ p.ring_head)
      × (q.ring_tail ≡ p.ring_tail)
      × (region.first ≡ bit_and p.ring_head p.ring_mask)
      × (region.first_bytes ≡ first_span p.ring (bit_and p.ring_head p.ring_mask) bytes)
      × (region.second_bytes ≡ bytes - first_span p.ring (bit_and p.ring_head p.ring_mask) bytes)
      × (region.producer_cursor ≡ p.ring_head)
      × (region.frames ≡ admitted_frames frames p)
      × (region.frame_stride ≡ stride p)
unfolding prepare_playback_write
prepare_grants frames p h = ground arith

prepare_refuses :
    (frames : ℕ) (p : Playback)
    → (admitted_frames frames p ≡ 0)
    → let (q, region) = prepare_playback_write (pos frames) p in
      (q.ring ≡ p.ring)
      × (q.ring_mask ≡ p.ring_mask)
      × (q.ring_head ≡ p.ring_head)
      × (q.ring_tail ≡ p.ring_tail)
      × (region.first_bytes ≡ 0)
      × (region.second_bytes ≡ 0)
      × (region.frames ≡ 0)
unfolding prepare_playback_write
prepare_refuses frames p h = ground arith

commit_fields :
    (region : PlaybackWriteRegion) (p : Playback)
    → let q = commit_playback_write region p in
      (q.ring ≡ p.ring)
      × (q.ring_mask ≡ p.ring_mask)
      × (q.ring_tail ≡ p.ring_tail)
      × (region.frames ≡ 0 → q.ring_head ≡ p.ring_head)
      × (0 < region.frames
          → 0 < region.frame_stride
          → q.ring_head ≡ u64 (region.producer_cursor + region.frames * region.frame_stride))
unfolding commit_playback_write
commit_fields region p = ground arith

-- The two copies into a region are the copy of the admitted bytes.
fill-eq :
    (ring : List ℕ) (mask cursor bytes : ℕ) (source : List ℕ)
    → bytes ≤ length source
    → let first = first_span ring (bit_and cursor mask) bytes in
      write_at
        (write_at ring (bit_and cursor mask) (take first source))
        0
        (take (bytes - first) (drop first source))
      ≡ copy_in ring mask cursor (take bytes source)
unfolding copy_in
fill-eq ring mask cursor bytes source h =
    ap₂ (λ xs ys. write_at (write_at ring off xs) 0 ys)
      (sym (take-take first bytes source (omega arith))) (sym (drop-take first bytes source))
    ∙ ap
        (λ n.
          write_at (write_at ring off (take (first_span ring off n) (take bytes source))) 0
            (drop (first_span ring off n) (take bytes source)))
        {x = bytes} {y = length (take bytes source)} (omega (arith, length-take bytes source))
  where
    off : ℕ
    off = bit_and cursor mask

    first : ℕ
    first = first_span ring off bytes

room :
    {k : ℕ} {p : Playback} (frames : ℕ)
    → IsValid k p
    → admitted_frames frames p * stride p ≤ two_pow k - queued_bytes p
room {k} {p} frames v = omega (
  arith,
  mul-le-mul_right (stride p) admitted_le,
  div-mul-le_self (sub_u64 (length p.ring) (queued_bytes p)) (stride p),
  capacity_bound k v.small,
  v.full,
  v.fits,
)
  where
    admitted_le : admitted_frames frames p ≤ physical_frames p
    admitted_le = omega arith

abbrev admitted_bytes : ℕ → Playback → ℕ
admitted_bytes frames p = admitted_frames frames p * stride p

module _ {k : ℕ} {p : Playback} (v : IsValid k p) (frames : ℕ) (source : List ℕ) where
  -- What is left to show once the new fields are known.
  written-IsValid :
      (q : Playback)
      → admitted_bytes frames p ≤ length source
      → q.ring ≡ write_round (two_pow k) p.ring p.ring_head (take (admitted_bytes frames p) source)
      → q.ring_mask ≡ p.ring_mask
      → q.ring_tail ≡ p.ring_tail
      → q.ring_head ≡ u64 (p.ring_head + admitted_bytes frames p)
      → (contents k q ≡ contents k p ++ take (admitted_bytes frames p) source) × IsValid k q
  written-IsValid q enough ring mask tail head = (
    (λ i. read_round (two_pow k) (ring i) (tail i) (queued i))
        ∙ ap (λ r. read_round (two_pow k) r p.ring_tail (queued_bytes p + admitted_bytes frames p))
            (write_round-mod (two_pow k) p.ring p.ring_head (p.ring_tail + queued_bytes p)
              (take (admitted_bytes frames p) source) index)
        ∙ ap
            (λ n.
              read_round (two_pow k)
                (write_round (two_pow k) p.ring (p.ring_tail + queued_bytes p)
                  (take (admitted_bytes frames p) source))
                p.ring_tail (queued_bytes p + n))
            (sym taken)
        ∙ push_bytes (two_pow k) p.ring p.ring_tail (queued_bytes p)
            (take (admitted_bytes frames p) source) v.full (omega (arith, room frames v, taken)),
    record {
      small = v.small;
      full =
          ap length ring
          ∙ length-write_round (two_pow k) p.ring p.ring_head
              (take (admitted_bytes frames p) source)
          ∙ v.full;
      mask = mask ∙ v.mask;
      head_word = omega arith;
      tail_word = omega arith;
      fits = omega (arith, room frames v, queued);
    },
  )
    where
      taken : length (take (admitted_bytes frames p) source) ≡ admitted_bytes frames p
      taken = omega (arith, length-take (admitted_bytes frames p) source)

      queued : queued_bytes q ≡ queued_bytes p + admitted_bytes frames p
      queued =
          ap₂ sub_u64 head tail
          ∙ extend_queued (admitted_bytes frames p) v (omega (arith, room frames v))

      index : p.ring_head % two_pow k ≡ (p.ring_tail + queued_bytes p) % two_pow k
      index =
          ap (λ h. h % two_pow k) (head-eq v)
          ∙ wrap_index k (p.ring_tail + queued_bytes p) (omega (arith, v.small))

-- A write that is not turned away is the commit of the filled region.
write_pcm-eq :
    (frames : ℕ) (source : List ℕ) (p : Playback)
    → 0 < frames
    → write_pcm (some source) (pos frames) p ≡ (
        let (q, region) = prepare_playback_write (pos frames) p in
        (commit_playback_write region (fill_region region source q), region.frames))
unfolding write_pcm
write_pcm-eq frames source p h = ground arith

-- A write that there is no room for leaves the ring and the counters alone.
refused_fields :
    (frames : ℕ) (source : List ℕ) (p : Playback)
    → admitted_frames frames p ≡ 0
    → let (q, region) = prepare_playback_write (pos frames) p in
      let r = commit_playback_write region (fill_region region source q) in
      (r.ring ≡ p.ring)
      × (r.ring_mask ≡ p.ring_mask)
      × (r.ring_tail ≡ p.ring_tail)
      × (r.ring_head ≡ p.ring_head)
      × (region.frames ≡ 0)
unfolding fill_region write_at
refused_fields frames source p h =
    let (q, region) = prepare_playback_write (pos frames) p in
    let (ring, mask, head, tail, one, two, count) = prepare_refuses frames p h in
    let (ring', mask', tail', head', _) = commit_fields region (fill_region region source q) in
    (
      ring' ∙ (λ i.
          write_at (write_at (ring i) region.first (take (one i) source)) 0
            (take (two i) (drop (one i) source))),
      mask' ∙ mask,
      tail' ∙ tail,
      head' count ∙ head,
      count,
    )

-- The new fields of a write that there is room for.
admitted_fields :
    (frames : ℕ) (source : List ℕ) (p : Playback)
    → Admits frames p
    → admitted_frames frames p * stride p ≤ length source
    → let (q, region) = prepare_playback_write (pos frames) p in
      let r = commit_playback_write region (fill_region region source q) in
      let bytes = admitted_frames frames p * stride p in
      (r.ring ≡ copy_in p.ring p.ring_mask p.ring_head (take bytes source))
      × (r.ring_mask ≡ p.ring_mask)
      × (r.ring_tail ≡ p.ring_tail)
      × (r.ring_head ≡ u64 (p.ring_head + bytes))
unfolding fill_region
admitted_fields frames source p h enough =
    let (q, region) = prepare_playback_write (pos frames) p in
    let (ring, mask, head, tail, first, one, two, cursor, count, width) =
      prepare_grants frames p h in
    let (ring', mask', tail', _, head') = commit_fields region (fill_region region source q) in
    (
      ring'
          ∙ (λ i.
              write_at (write_at (ring i) (first i) (take (one i) source)) 0
                (take (two i) (drop (one i) source)))
          ∙ fill-eq p.ring p.ring_mask p.ring_head _ source enough,
      mask' ∙ mask,
      tail' ∙ tail,
      head' (rw count (h.0)) (rw width (h.1)) ∙ (λ i. u64 (cursor i + count i * width i)),
    )

prepare_count :
    (frames : ℕ) (p : Playback)
    → 0 < admitted_frames frames p
    → 0 < stride p
    → 0 < length p.ring
    → (prepare_playback_write (pos frames) p).1.frames ≡ admitted_frames frames p
unfolding prepare_playback_write
prepare_count frames p more wide holds = ground arith

-- A write on a valid ring takes as many of the requested whole frames as fit the vector and stay
-- under the limit, appends exactly their bytes to the queue, in order, returns their number, and
-- keeps the invariant; also where the two spans go round the end of the ring. The source must hold
-- the requested frames.
pub write_pcm_refines :
    {k : ℕ} {p : Playback}
    → IsValid k p
    → (frames : ℕ) (source : List ℕ) → 0 < frames
    → 0 < stride p
    → frames * stride p ≤ length source
    → let (q, taken) = write_pcm (some source) (pos frames) p in
      (taken ≡ admitted_frames frames p)
      × (contents k q ≡ contents k p ++ take (taken * stride p) source)
      × IsValid k q
write_pcm_refines {k} {p} v frames source some_frames wide enough =
    rw (write_pcm-eq frames source p some_frames) (elim (dec_lt 0 (admitted_frames frames p)) [
      | yes more ↦
          let (ring, mask, tail, head) =
            admitted_fields frames source p (more, wide, holds) whole in
          let count = prepare_count frames p more wide holds in
          let (queue, valid) =
            written-IsValid v frames source _ whole
              (ring
                ∙ ap (λ m. copy_in p.ring m p.ring_head (take (admitted_bytes frames p) source))
                    v.mask
                ∙ copy_in-round k p.ring v.full p.ring_head (take (admitted_bytes frames p) source)
                    (omega (arith, length-take (admitted_bytes frames p) source, room frames v)))
              mask tail head in
          (count, queue ∙ ap (λ n. contents k p ++ take (n * stride p) source) (sym count), valid)
      | no nothing ↦
          let none_left : admitted_frames frames p ≡ 0 = omega arith in
          let (ring, mask, tail, head, count) = refused_fields frames source p none_left in
          let (queue, valid) = same_ring _ v ring mask head tail in
          (
            count ∙ sym none_left,
            queue
                ∙ sym (append-nil (contents k p))
                ∙ ap (λ m. contents k p ++ take m source)
                    (sym (ap (λ n. n * stride p) count ∙ zero-mul (stride p))),
            valid,
          )
    ])
  where
    holds : 0 < length p.ring
    holds = omega (arith, v.full, two_pow-pos k)

    admitted_le : admitted_frames frames p ≤ frames
    admitted_le = omega arith

    whole : admitted_frames frames p * stride p ≤ length source
    whole = omega (arith, mul-le-mul_right (stride p) admitted_le)
