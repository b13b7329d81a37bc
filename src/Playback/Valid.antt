-- ===== src/Playback/Valid.antt =====
-- The representation invariant of the playback ring of src/libusb_uac_driver.cpp, and the queue of
-- bytes that it holds.
use liballa.Base.{ℕ, ◌+◌, ◌-◌, ◌%◌, ◌^◌, ◌≤◌, ◌<◌, ◌≡◌, List, arith, length}
use liballa.Base.Bits.{two_pow, two_pow_mono}
use liballa.Base.Word.{u64_mod, u64, sub_u64}
use liballa.ByteRing.Copy.{read_round}
use liballa.ByteRing.Queue.{length-read_round}
use liballa.Playback.{Playback, queued_bytes}

-- The capacities that `configureUserspaceBuffers` admits are powers of two up to 2 ^ 20.
pub record IsValid (k : ℕ) (p : Playback) : Type 0 where
  pub small : k ≤ 20
  pub full : length p.ring ≡ two_pow k
  pub mask : p.ring_mask ≡ two_pow k - 1
  pub head_word : p.ring_head < u64_mod
  pub tail_word : p.ring_tail < u64_mod
  pub fits : queued_bytes p ≤ two_pow k

-- The queued bytes, oldest first.
abbrev pub contents : ℕ → Playback → List ℕ
contents k p = read_round (two_pow k) p.ring p.ring_tail (queued_bytes p)

pub length-contents : (k : ℕ) (p : Playback) → length (contents k p) ≡ queued_bytes p
length-contents k p = length-read_round (two_pow k) p.ring p.ring_tail (queued_bytes p)

pub capacity_bound : (k : ℕ) → k ≤ 20 → two_pow k ≤ 2 ^ 20
capacity_bound k h = two_pow_mono k 20 h

-- The producer's counter is the consumer's plus what is queued, also across a wrap.
pub head-eq :
    {k : ℕ} {p : Playback} → IsValid k p → p.ring_head ≡ (p.ring_tail + queued_bytes p) % u64_mod
head-eq v = omega arith

pub advance_queued :
    {k : ℕ} {p : Playback} (n : ℕ)
    → IsValid k p
    → n ≤ queued_bytes p
    → sub_u64 p.ring_head (u64 (p.ring_tail + n)) ≡ queued_bytes p - n
advance_queued n v h = omega arith

pub extend_queued :
    {k : ℕ} {p : Playback} (n : ℕ)
    → IsValid k p
    → queued_bytes p + n ≤ two_pow k
    → sub_u64 (u64 (p.ring_head + n)) p.ring_tail ≡ queued_bytes p + n
extend_queued {k} {p} n v h = omega (arith, capacity_bound k v.small)

-- Nothing but the ring and its counters matters to the queue.
pub same_ring :
    {k : ℕ} {p : Playback} (q : Playback)
    → IsValid k p
    → q.ring ≡ p.ring
    → q.ring_mask ≡ p.ring_mask
    → q.ring_head ≡ p.ring_head
    → q.ring_tail ≡ p.ring_tail
    → (contents k q ≡ contents k p) × IsValid k q
same_ring {k} q v ring mask head tail =
    ((λ i. read_round (two_pow k) (ring i) (tail i) (sub_u64 (head i) (tail i))), ground arith)
