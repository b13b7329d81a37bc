-- ===== src/Descriptors/Playback/PacketRate.antt =====
-- `packetsPerSec` of selectAltSetting in src/libusb_uac_driver.cpp.
use native.Mathlib.Nat.{le-div_iff_mul-le, div-eq_of_lt}
use liballa.Base.{
  ℕ, zero, suc, ◌-◌, ◌/◌, ◌≤◌, ◌<◌, ◌≡◌, ◌↔◌, refl, sym, ◌∙◌, Bool, true, false, none, some, ap,
  ◌==◌, inl, inr, Bool-cases, arith, ltb, if◌then◌else◌, dec_lt,
}
use liballa.Base.Int.{pos, ltb_ℤ}
use liballa.Base.Bits.{two_pow, two_pow-pos, two_pow_mono}
use liballa.Descriptors.Playback.{packets_per_sec, microframes_per_interval}

quotient : (a m : ℕ) → 0 < m → (if ltb_ℤ (pos 0) (pos m) then a / m else a) ≡ a / m
quotient a m h = ground arith

zero_quotient : (a m : ℕ) → 0 < m → (a / m ≡ 0) ↔ (a < m)
zero_quotient a m h = (
  λ z. elim (dec_lt a m) [
    | yes low ↦ low
    | no high ↦ let one : 1 ≤ a / m = (le-div_iff_mul-le h).1 (omega arith) in absurd (omega arith)
  ],
  λ low. div-eq_of_lt low,
)

packets_of_short :
    (i : ℕ) → ltb (i - 1) 31 ≡ true → packets_per_sec true i ≡ some (8000 / two_pow (i - 1))
unfolding packets_per_sec microframes_per_interval
packets_of_short i short =
    rw (packets_per_sec, microframes_per_interval, short)
      (ap some (quotient 8000 (two_pow (i - 1)) (two_pow-pos (i - 1))))

packets_of_sign :
    (i : ℕ) → ltb (i - 1) 31 ≡ false → (i - 1 == 31) ≡ true → packets_per_sec true i ≡ some 8000
unfolding packets_per_sec microframes_per_interval
packets_of_sign i long sign = rw (packets_per_sec, microframes_per_interval, long, sign) refl

no_packets :
    (i : ℕ) → ltb (i - 1) 31 ≡ false → (i - 1 == 31) ≡ false → packets_per_sec true i ≡ none
unfolding packets_per_sec microframes_per_interval
no_packets i long far = rw (packets_per_sec, microframes_per_interval, long, far) refl

some_eq : (a b : ℕ) → some a ≡ some b → a ≡ b
some_eq a b e = cc

-- The number of packets per second that `selectAltSetting` divides by is 0 exactly for an endpoint
-- of a high-speed device whose interval is from 14 to 31, of the intervals that a byte holds. At 32
-- the shifted int is negative, and above the shift is undefined.
pub packets_per_sec_zero :
    (high_speed : Bool) (interval : ℕ)
    → interval < 256
    → (packets_per_sec high_speed interval ≡ some 0)
      ↔ ((high_speed ≡ true) × (14 ≤ interval) × (interval ≤ 31))
unfolding packets_per_sec microframes_per_interval
packets_per_sec_zero true interval h = elim (Bool-cases (ltb (interval - 1) 31)) [
  | inl short ↦
      let packets = packets_of_short interval short in
      let (to, fro) = zero_quotient 8000 (two_pow (interval - 1)) (two_pow-pos (interval - 1)) in
      let below : interval ≤ 31 = ground arith in
      (
        λ z.
            let big = to (some_eq _ 0 (sym packets ∙ z)) in
            elim (dec_lt interval 14) [
              | yes low ↦ absurd (omega (arith, two_pow_mono (interval - 1) 12 (omega arith), big))
              | no high ↦ (refl, omega arith, below)
            ],
        λ (e, high, low).
            packets ∙ ap some (fro (omega (arith, two_pow_mono 13 (interval - 1) (omega arith)))),
      )
  | inr long ↦
      let above : 31 < interval = ground arith in
      elim (Bool-cases (interval - 1 == 31)) [
        | inl sign ↦ (
          λ z.
              absurd (omega (arith, some_eq 8000 0 (sym (packets_of_sign interval long sign) ∙ z))),
          λ (e, high, low). absurd (omega arith),
        )
        | inr far ↦
            (λ z. cc (no_packets interval long far, z), λ (e, high, low). absurd (omega arith))
      ]
]
packets_per_sec_zero false zero h = (λ z. absurd (omega (arith, some_eq 1000 0 z)), λ e. cc (e.0))
packets_per_sec_zero false (suc n) h =
    let (to, fro) = zero_quotient 1000 (suc n) (omega arith) in
    let same = quotient 1000 (suc n) (omega arith) in
    (λ z. absurd (omega (arith, to (sym same ∙ some_eq _ 0 z))), λ e. cc (e.0))
