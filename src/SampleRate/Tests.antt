-- ===== src/SampleRate/Tests.antt =====
-- setSampleRate of src/libusb_uac_driver.cpp on a device whose clocks take every rate.
use liballa.Base.{
  ℕ, ◌+◌, ◌*◌, ◌<◌, ◌/◌, ◌%◌, ◌^◌, ◌≡◌, ◌≢◌, refl, ap, ◌⊎◌, true, false, List, [], ◌∷◌, Option,
  none, some, arith, ◌==◌, if◌then◌else◌,
}
use liballa.Base.Int.{pos}
use liballa.Base.Word.{u32_mod}
use liballa.Descriptors.Playback.{StreamFormat}
use liballa.SampleRate.{
  Setup, Transport, le32, rate_of, try_ids, set_first, note_ranges, capture_range_for_clock,
  set_clock_rate, set_sample_rate,
}
use liballa.SampleRate.Confirmed.{IsClockDevice, set_sample_rate_confirms}

-- The rates of the clocks.
abbrev Clocks : Type 0
Clocks = ℕ → ℕ

abbrev clock_of : Setup → ℕ
clock_of setup = setup.index / 2 ^ 8

abbrev number_of : List ℕ → ℕ
number_of [] = 0
number_of (b ∷ bytes) = b + number_of bytes * 2 ^ 8

abbrev device : Transport Clocks
device = record {
  send = λ setup bytes clocks.
      (λ id. if id == clock_of setup then number_of bytes else clocks id, pos 4);
  receive = λ setup size clocks.
      (clocks, if setup.request == 1 then some (le32 (clocks (clock_of setup))) else none);
}

abbrev rate : Clocks → ℕ → ℕ
rate clocks id = clocks id % u32_mod

clock_id : (id : ℕ) → (id * 2 ^ 8 + 3) / 2 ^ 8 ≡ id
clock_id id = omega arith

stored : (hz : ℕ) → hz < u32_mod → number_of (le32 hz) % u32_mod ≡ hz
unfolding le32
stored hz h = omega arith

abbrev value : Option ℕ → ℕ
value none = 0
value (some n) = n

told : (n hz : ℕ) → rate_of (some (le32 n)) ≡ some hz → n % u32_mod ≡ hz
unfolding le32 rate_of
told n hz e = omega (arith, ap value e)

device_laws : IsClockDevice device rate 3
device_laws = record {
  set_sets = λ id hz d h e.
      let same : (id == id) ≡ true = ground arith in rw (clock_id id) (rw same (stored hz h));
  get_tells = λ id hz d e. told (d id) hz (rw (clock_id id) at e);
  range_keeps = λ id clock d. refl;
}

abbrev format : StreamFormat
format = record {
  sample_rate = 48000;
  bits_per_sample = 16;
  bytes_per_sample = 2;
  channels = 2;
  interface_number = 1;
  alt_setting = 1;
  endpoint_address = 1;
  sync_endpoint_address = 0;
  terminal_link = 1;
  max_packet_size = 200;
  clock_source_id = 9;
  control_interface_num = 3;
  is_high_speed = true;
  interval = 4;
  uac_version = 0x0200;
  feedback_endpoint_address = 0;
  feedback_max_packet_size = 0;
  feedback_interval = 0;
  implicit_feedback = false;
  candidate_clock_ids = 9 ∷ 8 ∷ [];
}

some_ids : try_ids format ≢ []
unfolding try_ids
some_ids e = cc

accepts : (set_sample_rate device 48000 format [] (λ id. 44100)).accepted ≡ true
unfolding try_ids set_first note_ranges capture_range_for_clock set_clock_rate set_sample_rate
accepts = refl

set_sample_rate_confirms_example :
    let o = set_sample_rate device 48000 format [] (λ id. 44100) in
    (o.accepted ≡ false) ⊎ (rate o.device o.format.clock_source_id ≡ 48000)
set_sample_rate_confirms_example =
    set_sample_rate_confirms device rate format [] 48000 (λ id. 44100) device_laws refl some_ids
      (omega arith)
