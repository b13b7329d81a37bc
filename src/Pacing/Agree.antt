-- ===== src/Pacing/Agree.antt =====
-- The two pumps of src/libusb_uac_driver.cpp plan alike.
use native.Mathlib.Nat.{div-add-mod, mod-lt, div-eq_of_lt-le}
use liballa.Base.{
  ℕ, ◌+◌, ◌-◌, ◌*◌, ◌/◌, ◌%◌, ◌^◌, ◌<◌, ◌≡◌, sym, subst, List, Bool, true, false, ◌||◌, min, max,
  Option, none, some, arith, ltb, ◌==◌, inl, inr, Bool-cases, if◌then◌else◌,
}
use liballa.Base.Int.{ℤ, pos, pos_part, ◌-ℤ◌, leb_ℤ, max_ℤ, clamp_ℤ}
use liballa.Descriptors.Playback.{StreamFormat}
use liballa.Capture.{Capture}
use liballa.Session.Held.{either}
use liballa.Pacing.Carried.{Planned}
use liballa.Scheduling.{packets_per_second_for_interval, packets_per_transfer_for_rate}
use liballa.Pacing.{
  Plan, planned, geometry, nominal_max_frames, plan_prime, plan_primed, follows_capture,
  plan_iso_pump, CapturePlan, plan_capture_pump,
}

exponent : (i : ℕ) → pos_part (clamp_ℤ (pos i -ℤ pos 1) (pos 0) (pos 15)) ≡ min 15 (i - 1)
unfolding ◌-ℤ◌
exponent i = ground arith

longest : (i : ℕ) → pos_part (max_ℤ (pos 1) (pos i)) ≡ max 1 i
longest i = ground arith

-- Both pumps find the same packets per second.
packets_per_second-geometry :
    (high_speed : Bool) (i : ℕ)
    → max 1
        ((if high_speed then 8000 else 1000) / (if high_speed then 2 ^ min 15 (i - 1) else max 1 i))
      ≡ packets_per_second_for_interval high_speed (pos i)
unfolding packets_per_second_for_interval
packets_per_second-geometry true i = rw (exponent i)
packets_per_second-geometry false i = rw (longest i)

-- Rounding up is the whole part, and one more for a rest.
ceil_split : (a d : ℕ) → 0 < d → a / d + (if ltb 0 (a % d) then 1 else 0) ≡ (a + d - 1) / d
ceil_split a d h =
    let split = div-add-mod a d in
    let rest = mod-lt a h in
    elim (Bool-cases (ltb 0 (a % d))) [
      | inl t ↦
          let some_rest : 0 < a % d = ground arith in
          rw t (sym (div-eq_of_lt-le d (ground arith) (ground arith)))
      | inr f ↦
          let no_rest : a % d ≡ 0 = ground arith in
          rw f (sym (div-eq_of_lt-le d (ground arith) (ground arith)))
    ]

-- What the capture pump computes is what the playback pump has computed.
nominal_max_frames-geometry :
    (configured : ℕ) (fmt : StreamFormat)
    → let rate = packets_per_second_for_interval fmt.is_high_speed (pos fmt.interval) in
      (fmt.sample_rate + rate - 1) / rate ≡ nominal_max_frames (geometry configured fmt)
unfolding geometry nominal_max_frames
nominal_max_frames-geometry configured fmt =
    rw (sym (packets_per_second-geometry fmt.is_high_speed fmt.interval))
      (sym (ceil_split fmt.sample_rate _ (omega arith)))

packets_per_transfer-geometry :
    (configured : ℕ) (fmt : StreamFormat)
    → let rate = packets_per_second_for_interval fmt.is_high_speed (pos fmt.interval) in
      (if configured == 0 then packets_per_transfer_for_rate (pos rate) else configured)
      ≡ (geometry configured fmt).packets_per_transfer
unfolding geometry
packets_per_transfer-geometry configured fmt =
    rw (packets_per_second-geometry fmt.is_high_speed fmt.interval)

-- The capture plan with the packets and the room of a playback plan.
abbrev pub plan_like : ℕ → ℕ → ℕ → CapturePlan
plan_like stride packets max_frames = record {
  frame_stride = stride;
  capture_packets = packets;
  capture_max_frames = max_frames;
  transfer_frames = max_frames * packets;
}

capture_planned :
    (configured : ℕ) (max_packet : ℤ) (fmt : StreamFormat)
    → let stride = fmt.channels * fmt.bytes_per_sample in
      let g = geometry configured fmt in
      (stride == 0 || leb_ℤ max_packet (pos 0)) ≡ false
      → ltb (pos_part max_packet / stride) (nominal_max_frames g) ≡ false
      → plan_capture_pump configured max_packet fmt
        ≡ some (
            plan_like stride g.packets_per_transfer
              (min (pos_part max_packet / stride) (nominal_max_frames g + 1)))
unfolding plan_capture_pump
capture_planned configured max_packet fmt usable enough =
    let some_packet : leb_ℤ max_packet (pos 0) ≡ false = ground arith in
    let some_stride : (fmt.channels * fmt.bytes_per_sample == 0) ≡ false = ground arith in
    rw (
      nominal_max_frames-geometry configured fmt,
      packets_per_transfer-geometry configured fmt,
      some_packet,
      some_stride,
      enough,
    )

abbrev Alike : ℕ → ℤ → StreamFormat → Plan → Type 0
Alike configured max_packet fmt p =
    plan_capture_pump configured max_packet fmt
    ≡ some (
        plan_like (fmt.channels * fmt.bytes_per_sample) p.shape.packets_per_transfer
          p.max_frames_per_packet)

module _ (configured : ℕ) (max_packet quantum target : ℤ) (fmt : StreamFormat) where
  primed-Alike :
      (stride max_frames : ℕ) (r : Capture × Option (List ℕ))
      → plan_capture_pump configured max_packet fmt
        ≡ some (
            plan_like
              (fmt.channels * fmt.bytes_per_sample)
              (geometry configured fmt).packets_per_transfer
              max_frames)
      → Planned
          (Alike configured max_packet fmt)
          (plan_primed (geometry configured fmt) stride max_frames quantum target r)
  unfolding plan_primed plan_prime
  primed-Alike stride max_frames (c, none) e = tt
  primed-Alike stride max_frames (c, some counts) e = e

  plan_iso_pump-Alike :
      (transfer_count : ℕ) (c : Capture)
      → Planned
          (Alike configured max_packet fmt)
          (plan_iso_pump configured transfer_count max_packet quantum target fmt c)
  unfolding plan_iso_pump plan_prime
  plan_iso_pump-Alike transfer_count c =
      let P = Planned (Alike configured max_packet fmt) in
      let stride = fmt.channels * fmt.bytes_per_sample in
      either P (stride == 0 || leb_ℤ max_packet (pos 0)) (λ t. tt)
        (λ usable.
          either P
            (ltb (pos_part max_packet / stride) (nominal_max_frames (geometry configured fmt)))
            (λ t. tt)
            (λ enough.
              let e = capture_planned configured max_packet fmt usable enough in
              either P (follows_capture fmt c) (λ t. primed-Alike stride _ _ e) (λ f. e)))

-- Where startIsoPump accepts a format and a packet size, startCapturePump accepts the same format and
-- packet size too, and plans the same packets per transfer and the same greatest number of frames in
-- a packet: the two pumps, which compute them in different ways, run at one pace.
pub pumps_plan_alike :
    (configured transfer_count : ℕ) (max_packet quantum target : ℤ) (fmt : StreamFormat)
    (c c' : Capture) (p : Plan)
    → plan_iso_pump configured transfer_count max_packet quantum target fmt c ≡ planned p c'
    → plan_capture_pump configured max_packet fmt
      ≡ some (
          plan_like
            (fmt.channels * fmt.bytes_per_sample)
            p.shape.packets_per_transfer
            p.max_frames_per_packet)
pumps_plan_alike configured transfer_count max_packet quantum target fmt c c' p e =
    subst (Planned (Alike configured max_packet fmt)) e
      (plan_iso_pump-Alike configured max_packet quantum target fmt transfer_count c)
