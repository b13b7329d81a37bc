-- ===== src/Pacing/Fits.antt =====
-- What the plan of startIsoPump in src/libusb_uac_driver.cpp keeps to.
use native.Mathlib.Nat.{mul-le-mul_right, div-mul-le_self}
use liballa.Base.{
  ℕ, ◌+◌, ◌*◌, ◌/◌, ◌≤◌, ◌<◌, ◌≡◌, subst, true, ◌||◌, min, List, Option, none, some, arith, ltb,
  ◌==◌, length,
}
use liballa.Base.Int.{ℤ, pos, pos_part, leb_ℤ}
use liballa.Base.Word.{u32_mod}
use liballa.Descriptors.Playback.{StreamFormat}
use liballa.Capture.{Capture}
use liballa.Transfers.{sum}
use liballa.Session.Held.{either}
use liballa.Pacing.{
  Plan, planned, geometry, nominal_max_frames, plan_prime, plan_primed, follows_capture,
  plan_iso_pump,
}
use liballa.Pacing.Packets.{all_leb, length-nominal_counts, PrimedIf, prime_packets-PrimedIf}
use liballa.Pacing.Carried.{
  IsCarried, Cadence, Planned, plan_prime-IsCarried, nominal_fits, nominal_cadence,
  lengths_keep_clock,
}

-- What holds of a plan for a stream and a capture ring.
pub record IsPlan (configured transfer_count : ℕ) (max_packet quantum : ℤ) (fmt : StreamFormat)
    (c : Capture) (p : Plan) : Type 0 where
  pub carried :
      IsCarried
        (transfer_count * (geometry configured fmt).packets_per_transfer)
        (fmt.channels * fmt.bytes_per_sample)
        (pos_part max_packet)
        quantum
        p
  pub cadence :
      Cadence
        (follows_capture fmt c)
        (transfer_count * (geometry configured fmt).packets_per_transfer)
        fmt.sample_rate
        (geometry configured fmt).packets_per_second
        p.lengths
        p.initial_frames

-- A plan from counts of which each is within the room.
module _ (configured transfer_count : ℕ) (max_packet quantum target : ℤ) (fmt : StreamFormat)
    (c : Capture) where
  counts-Planned :
      (room : ℕ) (counts : List ℕ) (c' : Capture)
      → 0 < fmt.channels * fmt.bytes_per_sample
      → room * (fmt.channels * fmt.bytes_per_sample) ≤ pos_part max_packet
      → length counts ≡ transfer_count * (geometry configured fmt).packets_per_transfer
      → all_leb room counts ≡ true
      → Cadence
          (follows_capture fmt c)
          (transfer_count * (geometry configured fmt).packets_per_transfer)
          fmt.sample_rate
          (geometry configured fmt).packets_per_second
          counts
          (sum counts)
      → Planned (IsPlan configured transfer_count max_packet quantum fmt c) (
          plan_prime
            (geometry configured fmt)
            (fmt.channels * fmt.bytes_per_sample)
            room
            quantum
            target
            counts
            c')
  unfolding plan_prime
  counts-Planned room counts c' wide carries covers fits cadence = record {
    carried =
        plan_prime-IsCarried (geometry configured fmt) _ _ room (pos_part max_packet) quantum target
          counts c' wide carries covers fits;
    cadence = lengths_keep_clock (follows_capture fmt c) _ _ _ _ counts wide cadence;
  }

  primed-Planned :
      (room : ℕ) (r : Capture × Option (List ℕ))
      → 0 < fmt.channels * fmt.bytes_per_sample
      → room * (fmt.channels * fmt.bytes_per_sample) ≤ pos_part max_packet
      → PrimedIf (transfer_count * (geometry configured fmt).packets_per_transfer) room r
      → follows_capture fmt c ≡ true
      → Planned (IsPlan configured transfer_count max_packet quantum fmt c) (
          plan_primed
            (geometry configured fmt)
            (fmt.channels * fmt.bytes_per_sample)
            room
            quantum
            target
            r)
  unfolding plan_primed
  primed-Planned room (c', none) wide carries v e = tt
  primed-Planned room (c', some counts) wide carries v e =
      counts-Planned room counts c' wide carries v.covers v.fits (rw e v.above)

  plan_iso_pump-Planned :
      fmt.sample_rate < u32_mod
      → Planned
          (IsPlan configured transfer_count max_packet quantum fmt c)
          (plan_iso_pump configured transfer_count max_packet quantum target fmt c)
  unfolding plan_iso_pump
  plan_iso_pump-Planned small =
      let P = Planned (IsPlan configured transfer_count max_packet quantum fmt c) in
      let stride = fmt.channels * fmt.bytes_per_sample in
      let g = geometry configured fmt in
      let physical = pos_part max_packet / stride in
      let room = min physical (nominal_max_frames g + 1) in
      let within : room ≤ physical = omega arith in
      let scaled : room * stride ≤ physical * stride = mul-le-mul_right stride within in
      let whole = div-mul-le_self (pos_part max_packet) stride in
      let carries : room * stride ≤ pos_part max_packet = omega arith in
      either P (stride == 0 || leb_ℤ max_packet (pos 0)) (λ t. tt)
        (λ f.
          let wide : 0 < stride = ground arith in
          either P (ltb physical (nominal_max_frames g)) (λ t. tt)
            (λ enough.
              either P (follows_capture fmt c)
                (λ t. primed-Planned room _ wide carries (prime_packets-PrimedIf _ room c) t)
                (λ h.
                  counts-Planned room _ c wide carries (length-nominal_counts _ _)
                    (nominal_fits configured _ room fmt small (ground arith))
                    (rw h (nominal_cadence configured _ fmt small)))))

-- A stream that startIsoPump accepts gets a plan for all packets of its transfers: the bytes of each
-- packet are whole frames and within the size that libusb gives for the endpoint; without implicit
-- feedback the `n` packets together carry exactly floor(n * rate / packetsPerSecond) frames, and with
-- it no packet is empty; and the startup prime covers all of them, as far as a ring of the default
-- 65536 bytes has room for them beside a quantum, whatever the size of the ring is. The rate is below 2 ^ 32.
pub plan_iso_pump_fits :
    (configured transfer_count : ℕ) (max_packet quantum target : ℤ) (fmt : StreamFormat)
    (c c' : Capture) (p : Plan)
    → fmt.sample_rate < u32_mod
    → plan_iso_pump configured transfer_count max_packet quantum target fmt c ≡ planned p c'
    → IsPlan configured transfer_count max_packet quantum fmt c p
plan_iso_pump_fits configured transfer_count max_packet quantum target fmt c c' p small e =
    subst (Planned (IsPlan configured transfer_count max_packet quantum fmt c)) e
      (plan_iso_pump-Planned configured transfer_count max_packet quantum target fmt c small)
