-- ===== src/Pacing/Packets.antt =====
-- The counts that the plan of src/libusb_uac_driver.cpp gives its packets.
use native.Mathlib.Nat.{mul-div_cancel}
use liballa.Base.{
  ℕ, zero, suc, ◌+◌, ◌*◌, ◌≤◌, ◌<◌, ◌≡◌, refl, ap, Bool, true, false, ◌&&◌, List, [], ◌∷◌, map,
  Option, none, some, arith, ltb, leb, ◌==◌, if◌then◌else◌, length,
}
use liballa.Base.Word.{sub_u64}
use liballa.Scheduling.Rational.{
  RationalPacketScheduler, next, total, IsScheduling, next-IsScheduling,
}
use liballa.Capture.{Capture}
use liballa.Pacing.{nominal_counts, prime_packet, prime_packets, join_packets, exact_initial_frames}
use liballa.Transfers.{sum}

-- Every count is within a packet's room.
unfoldable pub all_leb : ℕ → List ℕ → Bool
all_leb room [] = true
all_leb room (n ∷ ns) = leb n room && all_leb room ns

-- No count is 0.
unfoldable pub all_above : List ℕ → Bool
all_above [] = true
all_above (n ∷ ns) = ltb 0 n && all_above ns

pub length-nominal_counts : (n : ℕ) (s : RationalPacketScheduler) → length (nominal_counts n s) ≡ n
unfolding nominal_counts
length-nominal_counts zero s = refl
length-nominal_counts (suc n) s = ap suc (length-nominal_counts n (next s).0)

pub sum-nominal_counts :
    (n : ℕ) (s : RationalPacketScheduler) → sum (nominal_counts n s) ≡ total n s
unfolding nominal_counts total sum
sum-nominal_counts zero s = refl
sum-nominal_counts (suc n) s = ap (λ k. (next s).1 + k) (sum-nominal_counts n (next s).0)

-- A packet carries the whole frames, and one more only if there is a fraction to carry.
next_room :
    (rate : ℕ) (s : RationalPacketScheduler)
    → IsScheduling rate s
    → ((next s).1 ≤ s.whole + (if ltb 0 s.fraction then 1 else 0))
      × ((next s).0.whole ≡ s.whole)
      × ((next s).0.fraction ≡ s.fraction)
unfolding next
next_room rate s v = ground arith

pub all_leb-nominal_counts :
    (n rate room : ℕ) (s : RationalPacketScheduler)
    → IsScheduling rate s
    → s.whole + (if ltb 0 s.fraction then 1 else 0) ≤ room
    → all_leb room (nominal_counts n s) ≡ true
unfolding nominal_counts all_leb
all_leb-nominal_counts zero rate room s v h = refl
all_leb-nominal_counts (suc n) rate room s v h =
    let (fits, whole, fraction) = next_room rate s v in
    let rest =
      all_leb-nominal_counts n rate room (next s).0 (next-IsScheduling rate s v)
        (rw (whole, fraction) h) in
    ground (arith, rest)

pub exact_initial_frames-sum :
    (stride : ℕ) (counts : List ℕ)
    → 0 < stride
    → exact_initial_frames stride (map (λ frames. frames * stride) counts) ≡ sum counts
unfolding exact_initial_frames sum
exact_initial_frames-sum stride [] h = refl
exact_initial_frames-sum stride (n ∷ counts) h =
    omega (arith, mul-div_cancel n h, exact_initial_frames-sum stride counts h)

-- What one packet's clock entry gives: between one frame and the room.
abbrev Sized : ℕ → Capture × Option ℕ → Type 0
Sized room (c, none) = Unit
Sized room (c, some n) = (0 < n) × (n ≤ room)

entry_in_room :
    (b : Bool) (n room : ℕ) (c : Capture) (later : Capture × Option ℕ)
    → (n == 0) ≡ b
    → n ≤ room
    → Sized room later
    → Sized room (if b then later else (c, some n))
entry_in_room true n room c later e h v = v
entry_in_room false n room c later e h v = (ground arith, h)

prime_packet-Sized : (entries room : ℕ) (c : Capture) → Sized room (prime_packet entries room c)
unfolding prime_packet
prime_packet-Sized zero room c = tt
prime_packet-Sized (suc entries) room c =
    entry_in_room _ _ room _ _ refl (omega arith) (prime_packet-Sized entries room _)

-- What the metadata gives all packets: each has a count, above 0 and within the room.
pub record IsPrimed (n room : ℕ) (counts : List ℕ) : Type 0 where
  pub covers : length counts ≡ n
  pub fits : all_leb room counts ≡ true
  pub above : all_above counts ≡ true

abbrev pub PrimedIf : ℕ → ℕ → Capture × Option (List ℕ) → Type 0
PrimedIf n room (c, none) = Unit
PrimedIf n room (c, some counts) = IsPrimed n room counts

join_packets-PrimedIf :
    (n room : ℕ) (first : Capture × Option ℕ) (others : Capture × Option (List ℕ))
    → Sized room first
    → PrimedIf n room others
    → PrimedIf (suc n) room (join_packets first others)
unfolding join_packets all_leb all_above
join_packets-PrimedIf n room (c, none) others v p = tt
join_packets-PrimedIf n room (c, some frames) (c', none) v p = tt
join_packets-PrimedIf n room (c, some frames) (c', some counts) v p = record {
  covers = ap suc p.covers;
  fits = ground (arith, p.fits);
  above = ground (arith, p.above);
}

pub prime_packets-PrimedIf : (n room : ℕ) (c : Capture) → PrimedIf n room (prime_packets n room c)
unfolding prime_packets all_leb all_above
prime_packets-PrimedIf zero room c = record { covers = refl; fits = refl; above = refl }
prime_packets-PrimedIf (suc n) room c =
    join_packets-PrimedIf n room (prime_packet (sub_u64 c.implicit_write c.implicit_read) room c) _
      (prime_packet-Sized (sub_u64 c.implicit_write c.implicit_read) room c)
      (prime_packets-PrimedIf n room _)
