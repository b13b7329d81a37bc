-- ===== src/Scheduling/Rational.antt =====
-- RationalPacketScheduler of include/liblowlatencyaudio/UsbScheduling.h: the frames of each packet,
-- with the fraction carried over.
use native.Mathlib.Nat.{div-add-mod, mod-lt, mod-eq_of_lt, div-eq_of_lt-le}
use liballa.Base.{
  ℕ, zero, suc, ◌+◌, ◌*◌, ◌-◌, ◌/◌, ◌%◌, ◌<◌, ◌≡◌, sym, ap, ◌∙◌, ◌==◌, inl, inr, Bool-cases, leb,
  if◌then◌else◌, arith,
}
use liballa.Base.Word.{u32_mod, u32}

pub record RationalPacketScheduler : Type 0 where
  pub whole : ℕ
  pub fraction : ℕ
  pub period : ℕ
  pub remainder : ℕ

-- RationalPacketScheduler::reset
unfoldable pub reset : ℕ → ℕ → RationalPacketScheduler
reset rate packets_per_second =
    let period = if packets_per_second == 0 then 1 else packets_per_second in
    record { whole = rate / period; fraction = rate % period; period = period; remainder = 0 }

-- RationalPacketScheduler::next; uint32_t arithmetic wraps.
unfoldable pub next : RationalPacketScheduler → RationalPacketScheduler × ℕ
next s =
    let gap = u32 (period + u32_mod - fraction) in
    if leb gap remainder
    then (record s { remainder = u32 (remainder + u32_mod - gap) }, u32 (whole + 1))
    else (record s { remainder = u32 (remainder + fraction) }, whole)
  where
    open s use {whole, fraction, period, remainder}

-- The frames of `n` packets in a row.
unfoldable pub total : ℕ → RationalPacketScheduler → ℕ
total zero s = 0
total (suc n) s = let (s', frames) = next s in frames + total n s'

-- `n` calls later.
pub advance : ℕ → RationalPacketScheduler → RationalPacketScheduler
advance zero s = s
advance (suc n) s = advance n (next s).0

-- What a scheduler that was reset to this rate keeps between two packets.
pub record IsScheduling (rate : ℕ) (s : RationalPacketScheduler) : Type 0 where
  pub period_pos : 0 < s.period
  pub splits : s.whole * s.period + s.fraction ≡ rate
  pub fraction_in : s.fraction < s.period
  pub remainder_in : s.remainder < s.period
  pub rate_fits : rate < u32_mod
  pub period_fits : s.period < u32_mod
  pub exact : s.fraction ≡ 0 → s.remainder ≡ 0

pub reset-IsScheduling :
    (rate pps : ℕ) → rate < u32_mod → pps < u32_mod → IsScheduling rate (reset rate pps)
unfolding reset
reset-IsScheduling rate zero hr hp = ground (arith, div-add-mod rate 1, mod-lt rate {m = 1})
reset-IsScheduling rate (suc n) hr hp =
    ground (arith, div-add-mod rate (suc n), mod-lt rate {m = suc n})

whole_room : (w f p rate : ℕ) → 0 < f → f < p → w * p + f ≡ rate → rate < u32_mod → w + 1 < u32_mod
whole_room w f p rate hf hp e h = grind arith

pub next-IsScheduling :
    (rate : ℕ) (s : RationalPacketScheduler) → IsScheduling rate s → IsScheduling rate (next s).0
unfolding next
next-IsScheduling rate s v = ground arith

-- Each packet carries floor((rate + remainder) / period) frames and the division's remainder is
-- kept for the next packet: one step of exact long division, whatever the wrap-around.
pub next-divides :
    (rate : ℕ) (s : RationalPacketScheduler)
    → IsScheduling rate s
    → let (s', frames) = next s in
      (frames * s.period + s'.remainder ≡ rate + s.remainder)
      × (s'.remainder < s.period)
      × (s'.period ≡ s.period)
unfolding next
next-divides rate s v = elim (Bool-cases (leb (u32 (period + u32_mod - fraction)) remainder)) [
  | inl e ↦
      let carried : 0 < fraction = ground arith in
      rw
        (
          e,
          mod-eq_of_lt
              (whole_room whole fraction period rate carried v.fraction_in v.splits v.rate_fits),
        )
        (ground arith)
  | inr e ↦ rw e (ground arith)
]
  where
    open s use {whole, fraction, period, remainder}

total_sum :
    (n rate : ℕ) (s : RationalPacketScheduler)
    → IsScheduling rate s
    → (total n s * s.period + (advance n s).remainder ≡ n * rate + s.remainder)
      × ((advance n s).remainder < s.period)
unfolding total advance
total_sum zero rate s v = (omega arith, v.remainder_in)
total_sum (suc n) rate s v =
    let step = next-divides rate s v in
    let rest = total_sum n rate (next s).0 (next-IsScheduling rate s v) in
    let kept : total n (next s).0 * s.period + (advance n (next s).0).remainder
        ≡ n * rate + (next s).0.remainder =
      rw step.2 at (rest.0) in
    (omega arith, omega arith)

reset_fields :
    (rate pps : ℕ) → 0 < pps → ((reset rate pps).period ≡ pps) × ((reset rate pps).remainder ≡ 0)
unfolding reset
reset_fields rate pps h = ground arith

total_quotient :
    (n rate : ℕ) (s : RationalPacketScheduler)
    → IsScheduling rate s
    → s.remainder ≡ 0
    → total n s ≡ n * rate / s.period
total_quotient n rate s v e =
    let sum = total_sum n rate s v in sym (div-eq_of_lt-le s.period (omega arith) (omega arith))

-- After a reset to any rate and any packet rate above 0, the first `n` packets together carry
-- exactly floor(n * rate / packetsPerSecond) frames: the long-run sum never drifts.
pub total-reset :
    (n rate pps : ℕ)
    → rate < u32_mod
    → pps < u32_mod
    → 0 < pps
    → total n (reset rate pps) ≡ n * rate / pps
total-reset n rate pps hr hp h =
    let fields = reset_fields rate pps h in
    total_quotient n rate (reset rate pps) (reset-IsScheduling rate pps hr hp) (fields.1)
    ∙ ap (λ p. n * rate / p) (fields.0)
