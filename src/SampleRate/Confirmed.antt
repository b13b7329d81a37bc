-- ===== src/SampleRate/Confirmed.antt =====
-- The rate that the clock of the stream has after setSampleRate of src/libusb_uac_driver.cpp.
use liballa.Base.{
  ℕ, ◌<◌, ◌≡◌, ◌≢◌, refl, sym, ap, ◌∙◌, ◌⊎◌, inl, inr, true, false, List, [], ◌∷◌, Option, none,
  some, arith, Bool-cases, leb, ◌==◌,
}
use liballa.Base.Int.{ℤ, pos, negsuc, eqb_ℤ}
use liballa.Base.Word.{u32_mod}
use liballa.Descriptors.Playback.{ClockRateRange, StreamFormat}
use liballa.SampleRate.{
  Transport, Outcome, set_cur, get_cur, get_range, le32, try_ids, rate_of, is_rate, is_nil,
  set_first, find_rate, capture_range_for_clock, verify_rate, set_clock_rate, set_sample_rate,
  note_ranges,
}

-- What the Audio Class says of the clocks behind the control interface `iface`, `rate d id` being the
-- rate of a clock: an accepted SET_CUR sets it, GET_CUR tells it, and RANGE leaves it alone.
pub record IsClockDevice {D : Type 0} (usb : Transport D) (rate : D → ℕ → ℕ) (iface : ℕ)
    : Type 0 where
  pub set_sets :
      (id hz : ℕ) (d : D)
      → hz < u32_mod
      → (usb.send (set_cur iface id) (le32 hz) d).1 ≡ pos 4
      → rate (usb.send (set_cur iface id) (le32 hz) d).0 id ≡ hz
  pub get_tells :
      (id hz : ℕ) (d : D)
      → rate_of (usb.receive (get_cur iface id) 4 d).1 ≡ some hz
      → rate (usb.receive (get_cur iface id) 4 d).0 id ≡ hz
  pub range_keeps :
      (id clock : ℕ) (d : D) → rate (usb.receive (get_range iface id) 256 d).0 clock ≡ rate d clock

eqb_pos : (z : ℤ) (n : ℕ) → eqb_ℤ z (pos n) ≡ true → z ≡ pos n
eqb_pos (pos m) n h = ap pos (ground arith)
eqb_pos (negsuc m) n h = absurd (ground arith)

module _ {D : Type 0} (usb : Transport D) (rate : D → ℕ → ℕ) (iface : ℕ)
    (laws : IsClockDevice usb rate iface) where
  set_first-rate :
      (hz : ℕ) (ids : List ℕ) (d : D) (id : ℕ)
      → hz < u32_mod
      → (set_first usb iface (le32 hz) ids d).1 ≡ some id
      → rate (set_first usb iface (le32 hz) ids d).0 id ≡ hz
  unfolding set_first
  set_first-rate hz [] d id h e = cc
  set_first-rate hz (i ∷ ids) d id h e =
      let answer = usb.send (set_cur iface i) (le32 hz) d in
      elim (Bool-cases (eqb_ℤ answer.1 (pos 4))) [
        | inl four ↦
            let same : i ≡ id = cc (rw four at e) in
            rw (four, sym same) (laws.set_sets i hz d h (eqb_pos answer.1 4 four))
        | inr other ↦ rw other (set_first-rate hz ids answer.0 id h (rw other at e))
      ]

  is_rate_lem : (hz : ℕ) (got : Option ℕ) → is_rate hz got ≡ true → got ≡ some hz
  is_rate_lem hz none h = cc
  is_rate_lem hz (some got) h = let same : got ≡ hz = ground arith in ap some same

  find_rate-rate :
      (hz : ℕ) (ids : List ℕ) (ranges : List ClockRateRange) (d : D) (id : ℕ)
      → (find_rate usb iface hz ids ranges d).2 ≡ some id
      → rate (find_rate usb iface hz ids ranges d).0 id ≡ hz
  unfolding find_rate
  find_rate-rate hz [] ranges d id e = cc
  find_rate-rate hz (i ∷ ids) ranges d id e =
      let (d', cur) = usb.receive (get_cur iface i) 4 d in
      let (d'', rng) = usb.receive (get_range iface i) 256 d' in
      elim (Bool-cases (is_rate hz (rate_of cur))) [
        | inl found ↦
            let same : i ≡ id = cc (rw found at e) in
            rw (found, sym same)
              (laws.range_keeps i i d' ∙ laws.get_tells i hz d (is_rate_lem hz (rate_of cur) found))
        | inr other ↦
            rw other (find_rate-rate hz ids (note_ranges i rng ranges) d'' id (rw other at e))
      ]

  capture_range_for_clock-rate :
      (id clock : ℕ) (ranges : List ClockRateRange) (d : D)
      → rate (capture_range_for_clock usb iface id ranges d).0 clock ≡ rate d clock
  unfolding capture_range_for_clock
  capture_range_for_clock-rate id clock ranges d = elim (Bool-cases (id == 0)) [
    | inl e ↦ rw e
    | inr e ↦ rw e (laws.range_keeps id clock d)
  ]

module _ {D : Type 0} (usb : Transport D) (rate : D → ℕ → ℕ) (format : StreamFormat)
    (laws : IsClockDevice usb rate format.control_interface_num) where
  -- A result that is refused, or whose clock runs at the rate.
  unfoldable Confirms : ℕ → Outcome usb → Type 0
  Confirms hz o = (o.accepted ≡ false) ⊎ (rate o.device o.format.clock_source_id ≡ hz)

  verify_rate-Confirms :
      (hz : ℕ) (ranges : List ClockRateRange) (d : D)
      → Confirms hz (verify_rate usb hz format ranges d)
  unfolding verify_rate Confirms
  verify_rate-Confirms hz ranges d =
      go (find_rate usb format.control_interface_num hz (try_ids format) ranges d)
        (find_rate-rate usb rate format.control_interface_num laws hz (try_ids format) ranges d)
    where
      go :
          (r : D × List ClockRateRange × Option ℕ)
          → ((id : ℕ) → r.2 ≡ some id → rate r.0 id ≡ hz)
          → Confirms hz (elim r.2 as (λ x. Outcome usb) [
            | none ↦ record { device = r.0; format = format; ranges = r.1; accepted = false }
            | some id ↦ record {
              device = r.0;
              format = record format { clock_source_id = id };
              ranges = r.1;
              accepted = true;
            }
          ])
      go (d', ranges', none) found = inl refl
      go (d', ranges', some id) found = inr (found id refl)

  set_clock_rate-Confirms :
      (hz : ℕ) (ranges : List ClockRateRange) (d : D)
      → hz < u32_mod
      → Confirms hz (set_clock_rate usb hz format ranges d)
  unfolding set_clock_rate Confirms
  set_clock_rate-Confirms hz ranges d h =
      go (set_first usb format.control_interface_num (le32 hz) (try_ids format) d)
        (λ id. set_first-rate usb rate format.control_interface_num laws hz (try_ids format) d id h)
    where
      go :
          (r : D × Option ℕ)
          → ((id : ℕ) → r.1 ≡ some id → rate r.0 id ≡ hz)
          → Confirms hz (elim r.1 as (λ x. Outcome usb) [
            | none ↦ verify_rate usb hz format ranges r.0
            | some id ↦
                let (d'', ranges') =
                  capture_range_for_clock usb format.control_interface_num id ranges r.0 in
                record {
                  device = d'';
                  format = record format { clock_source_id = id };
                  ranges = ranges';
                  accepted = true;
                }
          ])
      go (d', none) found = verify_rate-Confirms hz ranges d'
      go (d', some id) found = inr (
          capture_range_for_clock-rate usb rate format.control_interface_num laws id id ranges d'
          ∙ found id refl)

not_nil : (ids : List ℕ) → ids ≢ [] → is_nil ids ≡ false
not_nil [] h = absurd (h refl)
not_nil (x ∷ xs) h = refl

-- On a device that keeps to the Audio Class, `setSampleRate` of a UAC2 stream with a clock does not
-- report success unless the clock that the format then names runs at the requested rate.
pub set_sample_rate_confirms :
    {D : Type 0} (usb : Transport D) (rate : D → ℕ → ℕ) (format : StreamFormat)
    (ranges : List ClockRateRange) (hz : ℕ) (d : D)
    → IsClockDevice usb rate format.control_interface_num
    → leb 0x0200 format.uac_version ≡ true
    → try_ids format ≢ []
    → hz < u32_mod
    → let o = set_sample_rate usb hz format ranges d in
      (o.accepted ≡ false) ⊎ (rate o.device o.format.clock_source_id ≡ hz)
unfolding set_sample_rate Confirms
set_sample_rate_confirms usb rate format ranges hz d laws uac2 clocks h =
    let some_ids : is_nil (try_ids format) ≡ false = not_nil (try_ids format) clocks in
    rw (uac2, some_ids) (set_clock_rate-Confirms usb rate format laws hz ranges d h)
