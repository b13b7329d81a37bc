-- ===== src/SampleRate.antt =====
-- setSampleRate and captureRangeForClock of src/libusb_uac_driver.cpp. libusb_control_transfer is a
-- parameter on the state of the device: `send` answers with libusb's result, `receive` with the bytes
-- received, or `none` on an error. Clock and interface numbers are bytes.
pub mod Confirmed
pub mod Bytes
mod Tests
use liballa.Base.{
  ℕ, zero, suc, ◌+◌, ◌*◌, ◌/◌, ◌%◌, ◌^◌, Bool, true, false, ◌&&◌, ◌||◌, not, List, [], ◌∷◌, ◌++◌,
  Option, none, some, ltb, leb, ◌==◌, if◌then◌else◌, length,
}
use liballa.Base.Int.{ℤ, pos, eqb_ℤ}
use liballa.Descriptors.{byte, rd16}
use liballa.Descriptors.Playback.{ClockRateRange, StreamFormat}
use liballa.Descriptors.Enumerate.Range.{rd32, sub_ranges}

-- The setup fields of a control transfer.
pub record Setup : Type 0 where
  pub request_type : ℕ
  pub request : ℕ
  pub value : ℕ
  pub index : ℕ

abbrev pub sam_freq : ℕ
sam_freq = 0x0100

-- The requests for a clock: SET_CUR, GET_CUR and RANGE.
abbrev pub clock_index : ℕ → ℕ → ℕ
clock_index control_iface id = id * 2 ^ 8 + control_iface

abbrev pub set_cur : ℕ → ℕ → Setup
set_cur control_iface id = record {
  request_type = 0x21;
  request = 0x01;
  value = sam_freq;
  index = clock_index control_iface id;
}

abbrev pub get_cur : ℕ → ℕ → Setup
get_cur control_iface id = record {
  request_type = 0xA1;
  request = 0x01;
  value = sam_freq;
  index = clock_index control_iface id;
}

abbrev pub get_range : ℕ → ℕ → Setup
get_range control_iface id = record {
  request_type = 0xA1;
  request = 0x02;
  value = sam_freq;
  index = clock_index control_iface id;
}

-- SET_CUR for the endpoint of a UAC1 device.
abbrev pub set_endpoint : ℕ → Setup
set_endpoint address = record {
  request_type = 0x22;
  request = 0x01;
  value = sam_freq;
  index = address;
}

-- A rate in 24 and in 32 bits, little endian.
unfoldable pub le24 : ℕ → List ℕ
le24 hz = hz % 2 ^ 8 ∷ hz / 2 ^ 8 % 2 ^ 8 ∷ hz / 2 ^ 16 % 2 ^ 8 ∷ []

unfoldable pub le32 : ℕ → List ℕ
le32 hz = hz % 2 ^ 8 ∷ hz / 2 ^ 8 % 2 ^ 8 ∷ hz / 2 ^ 16 % 2 ^ 8 ∷ hz / 2 ^ 24 % 2 ^ 8 ∷ []

abbrev pub others : ℕ → List ℕ → List ℕ
others id [] = []
others id (c ∷ candidates) =
    if c == 0 || c == id then others id candidates else c ∷ others id candidates

-- `tryIds`
unfoldable pub try_ids : StreamFormat → List ℕ
try_ids format =
    if format.clock_source_id == 0
    then others format.clock_source_id format.candidate_clock_ids
    else format.clock_source_id ∷ others format.clock_source_id format.candidate_clock_ids

abbrev pub has_triple : ℕ → ℕ → ℕ → List ClockRateRange → Bool
has_triple mn mx res [] = false
has_triple mn mx res (e ∷ ranges) =
    (e.min_hz == mn && e.max_hz == mx && e.res_hz == res) || has_triple mn mx res ranges

-- The ranges of a clock, each one that is not there yet.
abbrev pub add_triples : ℕ → List (ℕ × ℕ × ℕ) → List ClockRateRange → List ClockRateRange
add_triples id [] ranges = ranges
add_triples id ((mn, mx, res) ∷ triples) ranges = add_triples id triples (
    if has_triple mn mx res ranges
    then ranges
    else ranges ++ record { clock_id = id; min_hz = mn; max_hz = mx; res_hz = res } ∷ [])

unfoldable pub note_ranges : ℕ → Option (List ℕ) → List ClockRateRange → List ClockRateRange
note_ranges id none ranges = ranges
note_ranges id (some rng) ranges =
    if ltb (length rng) 2
    then ranges
    else add_triples id (sub_ranges rng 0 (rd16 (byte rng 0) (byte rng 1))) ranges

-- `hzGot`, or `none` where GET_CUR did not deliver 4 bytes.
unfoldable pub rate_of : Option (List ℕ) → Option ℕ
rate_of none = none
rate_of (some cur) = if length cur == 4 then some (rd32 cur 0) else none

abbrev pub is_rate : ℕ → Option ℕ → Bool
is_rate hz none = false
is_rate hz (some got) = got == hz

abbrev pub is_nil : List ℕ → Bool
is_nil [] = true
is_nil (x ∷ xs) = false

-- libusb_control_transfer on a device with the states `D`.
pub record Transport (D : Type 0) : Type 0 where
  pub send : Setup → List ℕ → D → D × ℤ
  pub receive : Setup → ℕ → D → D × Option (List ℕ)

module _ {D : Type 0} (usb : Transport D) where
  -- The loop over `tryIds` that sends SET_CUR, to the winning clock.
  unfoldable pub set_first : ℕ → List ℕ → List ℕ → D → D × Option ℕ
  set_first iface bytes [] d = (d, none)
  set_first iface bytes (id ∷ ids) d =
      let (d', r) = usb.send (set_cur iface id) bytes d in
      let later = set_first iface bytes ids d' in if eqb_ℤ r (pos 4) then (d', some id) else later

  -- The loop that looks for a clock which runs at the rate already.
  unfoldable pub find_rate :
      ℕ → ℕ → List ℕ → List ClockRateRange → D → D × List ClockRateRange × Option ℕ
  find_rate iface hz [] ranges d = (d, ranges, none)
  find_rate iface hz (id ∷ ids) ranges d =
      let (d', cur) = usb.receive (get_cur iface id) 4 d in
      let (d'', rng) = usb.receive (get_range iface id) 256 d' in
      let ranges' = note_ranges id rng ranges in
      let later = find_rate iface hz ids ranges' d'' in
      if is_rate hz (rate_of cur) then (d'', ranges', some id) else later

  -- LibusbUacDriver::captureRangeForClock, on an open device
  unfoldable pub capture_range_for_clock : ℕ → ℕ → List ClockRateRange → D → D × List ClockRateRange
  capture_range_for_clock iface id ranges d =
      let (d', rng) = usb.receive (get_range iface id) 256 d in
      if id == 0 then (d, ranges) else (d', note_ranges id rng ranges)

  -- What setSampleRate leaves: the device, the format, the ranges and the result.
  pub record Outcome : Type 0 where
    pub device : D
    pub format : StreamFormat
    pub ranges : List ClockRateRange
    pub accepted : Bool

  unfoldable pub verify_rate : ℕ → StreamFormat → List ClockRateRange → D → Outcome
  verify_rate hz format ranges d =
      let (d', ranges', found) =
        find_rate format.control_interface_num hz (try_ids format) ranges d in
      elim found [
        | none ↦ record { device = d'; format = format; ranges = ranges'; accepted = false }
        | some id ↦ record {
          device = d';
          format = record format { clock_source_id = id };
          ranges = ranges';
          accepted = true;
        }
      ]

  -- The branch of a UAC2 device.
  unfoldable pub set_clock_rate : ℕ → StreamFormat → List ClockRateRange → D → Outcome
  set_clock_rate hz format ranges d =
      let iface = format.control_interface_num in
      let (d', winner) = set_first iface (le32 hz) (try_ids format) d in
      elim winner [
        | none ↦ verify_rate hz format ranges d'
        | some id ↦
            let (d'', ranges') = capture_range_for_clock iface id ranges d' in
            record {
              device = d'';
              format = record format { clock_source_id = id };
              ranges = ranges';
              accepted = true;
            }
      ]

  -- The branch of a UAC1 device: three bytes, and then four.
  unfoldable pub set_endpoint_rate : ℕ → StreamFormat → List ClockRateRange → D → Outcome
  set_endpoint_rate hz format ranges d =
      let setup = set_endpoint format.endpoint_address in
      let (d', r) = usb.send setup (le24 hz) d in
      let (d'', r') = usb.send setup (le24 hz ++ 0 ∷ []) d' in
      if eqb_ℤ r (pos 3)
      then record { device = d'; format = format; ranges = ranges; accepted = true }
      else record { device = d''; format = format; ranges = ranges; accepted = eqb_ℤ r' (pos 4) }

  -- LibusbUacDriver::setSampleRate
  unfoldable pub set_sample_rate : ℕ → StreamFormat → List ClockRateRange → D → Outcome
  set_sample_rate hz format ranges d =
      if leb 0x0200 format.uac_version
      then if is_nil (try_ids format)
        then record { device = d; format = format; ranges = ranges; accepted = true }
        else set_clock_rate hz format ranges d
      else set_endpoint_rate hz format ranges d
