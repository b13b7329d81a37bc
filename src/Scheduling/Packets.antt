-- ===== src/Scheduling/Packets.antt =====
-- Packets, transfers and waits of include/liblowlatencyaudio/UsbScheduling.h.
use native.Mathlib.Nat.{div-add-mod, mod-lt, div-mul-le_self, div-le_self}
use liballa.Base.{ℕ, ◌+◌, ◌*◌, ◌-◌, ◌/◌, ◌≤◌, ◌<◌, ◌≡◌, Bool, true, ◌⊎◌, arith}
use liballa.Base.Int.{ℤ, pos, pos_part, ◌+ℤ◌, ◌-ℤ◌, ◌≤ℤ◌, leb_ℤ, int_laws, -ℤ_parts, +ℤ_parts}
use liballa.Base.Word.{int_max}
use liballa.Scheduling.{poll_millis_until, packets_per_second_for_interval, nominal_transfer_frames}

-- The rounded up quotient covers `m`, and nothing less does.
pub ceil_covers : (m p : ℕ) → 0 < p → m ≤ (m + p - 1) / p * p
ceil_covers m p h = omega (arith, div-add-mod (m + p - 1) p, mod-lt (m + p - 1) h)

ceil_least : (m p n : ℕ) → 0 < p → m ≤ n * p → (m + p - 1) / p ≤ n
ceil_least m p n h g = grind (arith, ceil_covers m p h, div-mul-le_self (m + p - 1) p)

-- For positive rate, packet count and packet rate the nominal transfer is INT_MAX or covers the
-- transfer's share of the rate, and it is no larger than any `n` frames that cover it.
pub nominal_transfer_frames-least :
    (rate packets pps n : ℕ)
    → 0 < rate
    → 0 < packets
    → 0 < pps
    → rate * packets ≤ n * pps
    → let frames = nominal_transfer_frames (pos rate) (pos packets) (pos pps) in
      ((frames ≡ int_max) ⊎ (rate * packets ≤ frames * pps)) × (frames ≤ n)
unfolding nominal_transfer_frames
nominal_transfer_frames-least rate packets pps n a b c enough =
    ground (arith, ceil_covers (rate * packets) pps c, ceil_least (rate * packets) pps n c enough)

remaining-pos : (now : ℤ) (d : ℕ) → now +ℤ pos d -ℤ now ≡ pos d
remaining-pos now d = omega int_laws

remaining-past : (now : ℤ) (d : ℕ) → leb_ℤ (now -ℤ (now +ℤ pos d)) (pos 0) ≡ true
remaining-past now d = ground (arith, -ℤ_parts now (now +ℤ pos d), +ℤ_parts now (pos d))

-- `d` nanoseconds past the deadline the wait is 0. For a deadline `d` ahead, up to INT_MAX
-- milliseconds, the wait is not negative, lasts at least `d`, and less than a millisecond over it;
-- so a deadline that is still ahead is never waited for with 0.
pub poll_millis_until_bounds :
    (now : ℤ) (d : ℕ)
    → d ≤ int_max * 1000000
    → let wait = poll_millis_until (now +ℤ pos d) now in
      (poll_millis_until now (now +ℤ pos d) ≡ pos 0)
      × (pos 0 ≤ℤ wait)
      × (d ≤ pos_part wait * 1000000)
      × (pos_part wait * 1000000 < d + 1000000)
unfolding poll_millis_until
poll_millis_until_bounds now d h = (
  rw (remaining-past now d),
  rw (remaining-pos now d) (ground arith),
  rw (remaining-pos now d) (ground arith),
  rw (remaining-pos now d) (ground arith),
)

-- Every service interval, negative ones too, gives between 1 and 8000 packets a second.
pub packets_per_second_range :
    (high_speed : Bool) (b_interval : ℤ)
    → let pps = packets_per_second_for_interval high_speed b_interval in (1 ≤ pps) × (pps ≤ 8000)
unfolding packets_per_second_for_interval
packets_per_second_range hs b = grind (arith, div-le_self)
