-- ===== src/Playback/Drain.antt =====
-- `drainRing` of src/libusb_uac_driver.cpp: the bytes of a USB packet out of the ring, and the
-- counters of what falls short.
use native.Mathlib.Nat.{mul-le-mul_right, mul-div_cancel, mul-sub, zero-div, le_of_mul-le-mul_right}
use liballa.Base.{
  dec_le, if◌then◌else◌, ℕ, ◌+◌, ◌-◌, ◌*◌, ◌/◌, ◌≤◌, ◌<◌, ◌≡◌, sym, ap, ◌∙◌, ◌++◌, true, arith, min,
  take, drop, take-append_length, drop-append_length, take-min, drop-min,
}
use liballa.Base.Bits.{two_pow, wrap_index}
use liballa.Base.Word.{u64_mod, u64}
use liballa.ByteRing.Copy.{read_round, read_round-mod, read_round-append, copy_out-round}
use liballa.ByteRing.Queue.{length-read_round}
use liballa.Playback.{Playback, queued_bytes, stride, drain_ring}
use liballa.ByteRing.{copy_out}
use liballa.Playback.Valid.{IsValid, contents, length-contents, advance_queued}

-- What a drain leaves alone and where its counters go.
drain_fields :
    (now bytes : ℕ) (p : Playback)
    → let n = min (queued_bytes p) bytes in
      let q = (drain_ring now bytes p).0 in
      (q.ring ≡ p.ring)
      × (q.ring_mask ≡ p.ring_mask)
      × (q.ring_head ≡ p.ring_head)
      × (p.ring_tail < u64_mod → q.ring_tail ≡ u64 (p.ring_tail + n))
unfolding drain_ring
drain_fields now bytes p = ground arith

pub stride-drain_ring :
    (now bytes : ℕ) (p : Playback) → stride (drain_ring now bytes p).0 ≡ stride p
unfolding drain_ring
stride-drain_ring now bytes p = ground arith

module _ {k : ℕ} {p : Playback} (v : IsValid k p) (now bytes : ℕ) where
  drained : ℕ
  drained = min (queued_bytes p) bytes

  split_contents :
      contents k p
      ≡ read_round (two_pow k) p.ring p.ring_tail drained
        ++ read_round (two_pow k) p.ring (p.ring_tail + drained) (queued_bytes p - drained)
  unfolding drained
  split_contents =
      ap (read_round (two_pow k) p.ring p.ring_tail) {y = drained + (queued_bytes p - drained)}
        (omega arith)
      ∙ read_round-append (two_pow k) p.ring p.ring_tail drained (queued_bytes p - drained)

  out-eq : (drain_ring now bytes p).1 ≡ read_round (two_pow k) p.ring p.ring_tail drained
  unfolding drain_ring drained
  out-eq =
      ap (λ m. copy_out p.ring m p.ring_tail drained) v.mask
      ∙ copy_out-round k p.ring v.full p.ring_tail drained (omega (arith, v.fits))

  front : take bytes (contents k p) ≡ read_round (two_pow k) p.ring p.ring_tail drained
  unfolding drained
  front =
      sym (take-min bytes (contents k p))
      ∙ ap (λ n. take (min n bytes) (contents k p)) (length-contents k p)
      ∙ ap (take drained) split_contents
      ∙ take-append_length drained _ _ (length-read_round (two_pow k) p.ring p.ring_tail drained)

  back :
      drop bytes (contents k p)
      ≡ read_round (two_pow k) p.ring (p.ring_tail + drained) (queued_bytes p - drained)
  unfolding drained
  back =
      sym (drop-min bytes (contents k p))
      ∙ ap (λ n. drop (min n bytes) (contents k p)) (length-contents k p)
      ∙ ap (drop drained) split_contents
      ∙ drop-append_length drained _ _ (length-read_round (two_pow k) p.ring p.ring_tail drained)

  drained-queued : queued_bytes (drain_ring now bytes p).0 ≡ queued_bytes p - drained
  unfolding drained
  drained-queued = ground (arith, drain_fields now bytes p, advance_queued drained v)

  drained-contents :
      contents k (drain_ring now bytes p).0
      ≡ read_round (two_pow k) p.ring (p.ring_tail + drained) (queued_bytes p - drained)
  unfolding drained
  drained-contents =
      let (ring, mask, head, tail) = drain_fields now bytes p in
      (λ i. read_round (two_pow k) (ring i) (tail v.tail_word i) (drained-queued i))
      ∙ read_round-mod (two_pow k) p.ring (u64 (p.ring_tail + drained)) (p.ring_tail + drained) _
          (wrap_index k (p.ring_tail + drained) (omega (arith, v.small)))

  drained-IsValid : IsValid k (drain_ring now bytes p).0
  unfolding drained
  drained-IsValid = ground (arith, drain_fields now bytes p, drained-queued, v)

-- A drain hands out the oldest queued bytes in order, as many as there are up to the request, leaves
-- exactly the others queued, invents none, and keeps the invariant; also across wraps of the ring
-- and of the counters.
pub drain_ring_refines :
    {k : ℕ} {p : Playback}
    → IsValid k p
    → (now bytes : ℕ)
    → let (q, out) = drain_ring now bytes p in
      (out ≡ take bytes (contents k p)) × (contents k q ≡ drop bytes (contents k p)) × IsValid k q
drain_ring_refines v now bytes = (
  out-eq v now bytes ∙ sym (front v now bytes),
  drained-contents v now bytes ∙ sym (back v now bytes),
  drained-IsValid v now bytes,
)

-- The counters of a drain out of whole frames.
quotients :
    (a b s : ℕ)
    → 0 < s
    → (min (a * s) (b * s) / s ≡ min a b) × ((b * s - min (a * s) (b * s)) / s ≡ b - min a b)
quotients a b s h = elim (dec_le a b) [
  | yes short ↦
      let least : min (a * s) (b * s) ≡ a * s = omega (arith, mul-le-mul_right s short) in
      (
        rw least (mul-div_cancel a h ∙ omega arith),
        rw least (
            ap (λ n. n / s) {y = (b - a) * s} (omega (arith, mul-sub s b a))
            ∙ mul-div_cancel (b - a) h
            ∙ omega arith),
      )
  | no long ↦
      let fewer : b ≤ a = omega arith in
      let least : min (a * s) (b * s) ≡ b * s = omega (arith, mul-le-mul_right s fewer) in
      (
        rw least (mul-div_cancel b h ∙ omega arith),
        rw least (ap (λ n. n / s) {y = 0} (omega arith) ∙ zero-div s ∙ omega arith),
      )
]

-- A drain of `b` frames out of `a` queued ones counts exactly the frames that it hands out as
-- played, and exactly the missing ones as short; it counts no missing frame as played.
pub drain_ring_accounts :
    (now a b : ℕ) (p : Playback)
    → 0 < stride p
    → queued_bytes p ≡ a * stride p
    → p.short_frames < u64_mod
    → let q = (drain_ring now (b * stride p) p).0 in
      (q.played_frames ≡ p.played_frames + min a b)
      × (q.short_frames ≡ u64 (p.short_frames + (b - min a b)))
unfolding drain_ring
drain_ring_accounts now a b p wide queued word = ground (
  arith,
  quotients a b (stride p) wide,
  λ (h : b * stride p ≤ a * stride p). le_of_mul-le-mul_right h wide,
)

-- An underrun is an episode: once playback has started, a second short drain in a row counts no
-- further underrun.
pub drain_ring_episode :
    (now later bytes more : ℕ) (p : Playback)
    → p.started ≡ true
    → queued_bytes p < bytes
    → queued_bytes (drain_ring now bytes p).0 < more
    → let q = (drain_ring now bytes p).0 in
      ((drain_ring later more q).0.underruns ≡ q.underruns)
      × (q.underruns ≡ (if p.underrun_active then p.underruns else u64 (p.underruns + 1)))
unfolding drain_ring
drain_ring_episode now later bytes more p on short again = ground arith
