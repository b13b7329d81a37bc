-- ===== src/Descriptors/Enumerate.antt =====
-- enumerateFormats of src/libusb_uac_driver.cpp. `get_range` has the bytes that the RANGE request for
-- a clock delivers, at most 256, and none on an error.
pub mod OfferList
pub mod Offers
pub mod Range
use liballa.Base.{
  ℕ, zero, suc, ◌+◌, ◌-◌, ◌*◌, ◌/◌, ◌^◌, Bool, true, false, ◌&&◌, ◌||◌, not, List, [], ◌∷◌, ◌++◌,
  Option, none, some, ltb, leb, ◌==◌, if◌then◌else◌, length,
}
use liballa.Base.Int.{ℤ, pos, ltb_ℤ, eqb_ℤ}
use liballa.Base.Word.{to_int}
use liballa.Descriptors.{
  Endpoint, AltSetting, Config, alt_settings, byte, rd16, is_cs, is_control, is_streaming,
  ac_header, ac_clock_source, as_general, as_format_type, format_type_i, walk_extra,
}
use liballa.Descriptors.Playback.{rd24, table, is_data_out}
use liballa.Descriptors.Capture.{any_endpoint}
use liballa.Descriptors.Enumerate.Range.{range_rates, sub_ranges}

-- UsbFormatCandidate
pub record UsbFormatCandidate : Type 0 where
  pub sample_rate : ℤ
  pub bits_per_sample : ℕ
  pub bytes_per_sample : ℕ
  pub channels : ℕ

-- Uac2Depth
pub record Uac2Depth : Type 0 where
  pub bits : ℕ
  pub bytes : ℕ
  pub channels : ℕ

abbrev pub is_depth : ℕ → Bool
is_depth bits = bits == 16 || bits == 24 || bits == 32

abbrev pub same_candidate : UsbFormatCandidate → UsbFormatCandidate → Bool
same_candidate f g =
    eqb_ℤ f.sample_rate g.sample_rate
    && f.bits_per_sample == g.bits_per_sample
    && f.bytes_per_sample == g.bytes_per_sample
    && f.channels == g.channels

abbrev pub listed : UsbFormatCandidate → List UsbFormatCandidate → Bool
listed f [] = false
listed f (g ∷ result) = same_candidate g f || listed f result

abbrev pub acceptable : UsbFormatCandidate → Bool
acceptable f =
    ltb_ℤ (pos 0) f.sample_rate
    && is_depth f.bits_per_sample
    && (f.bytes_per_sample == 2 || f.bytes_per_sample == 3 || f.bytes_per_sample == 4)
    && leb 2 f.channels

-- `add` of enumerateFormats
unfoldable pub add : UsbFormatCandidate → List UsbFormatCandidate → List UsbFormatCandidate
add f result = if acceptable f && not (listed f result) then result ++ f ∷ [] else result

-- One rate at each of some depths, and each of some rates at each depth.
unfoldable pub add_depths : ℤ → List Uac2Depth → List UsbFormatCandidate → List UsbFormatCandidate
add_depths rate [] result = result
add_depths rate (d ∷ depths) result = add_depths rate depths (
    add
      (record {
        sample_rate = rate;
        bits_per_sample = d.bits;
        bytes_per_sample = d.bytes;
        channels = d.channels;
      })
      result)

unfoldable pub add_rates :
    List ℤ → List Uac2Depth → List UsbFormatCandidate → List UsbFormatCandidate
add_rates [] depths result = result
add_rates (rate ∷ rates) depths result = add_rates rates depths (add_depths rate depths result)

-- What the AudioControl pass collects.
pub record Clocks : Type 0 where
  pub control_iface : ℕ
  pub uac_version : ℕ
  pub clocks : List ℕ

unfoldable pub note_clock : List ℕ → ℕ → Clocks → Clocks × Bool
note_clock p len c = (
  if is_cs p len ac_header && leb 5 len
      then record c { uac_version = rd16 (byte p 3) (byte p 4) }
      else if is_cs p len ac_clock_source && leb 4 len
      then record c { clocks = c.clocks ++ byte p 3 ∷ [] }
      else c,
  false,
)

unfoldable pub read_clocks : List AltSetting → Clocks → Clocks
read_clocks [] c = c
read_clocks (alt ∷ alts) c = read_clocks alts (
    if is_control alt
    then walk_extra note_clock alt.extra (record c { control_iface = alt.interface_number })
    else c)

-- What the AudioStreaming callback finds out; `fmt` has the bytes from the format descriptor on and
-- the descriptor's length.
pub record OutAlt : Type 0 where
  pub channels : ℕ
  pub bits : ℕ
  pub bytes : ℕ
  pub fmt : Option (List ℕ × ℕ)

unfoldable pub note_out : ℕ → List ℕ → ℕ → OutAlt → OutAlt × Bool
note_out version p len s =
    let s' =
      if is_cs p len as_general && leb 0x0200 version && leb 16 len
      then record s { channels = byte p 10 }
      else s in
    (
      if is_cs p len as_format_type && leb 6 len && byte p 3 == format_type_i
          then if leb 0x0200 version
            then record s' { fmt = some (p, len); bytes = byte p 4; bits = byte p 5 }
            else if leb 8 len
            then record s' {
              fmt = some (p, len);
              channels = byte p 4;
              bytes = byte p 5;
              bits = byte p 6;
            }
            else record s' { fmt = some (p, len) }
          else s',
      false,
    )

-- The rates of a UAC1 format.
unfoldable pub uac1_rates : List ℕ → ℕ → List ℤ
uac1_rates p len =
    let kind = byte p 7 in
    if kind == 0 && leb 14 len
    then pos (rd24 p 8) ∷ (if rd24 p 11 == rd24 p 8 then [] else pos (rd24 p 11) ∷ [])
    else positives (table p len 8 kind)
  where
    positives : List ℕ → List ℤ
    positives [] = []
    positives (hz ∷ rates) = pos hz ∷ positives rates

-- The tests of a setting, after which its depth counts; with the format descriptor.
abbrev pub has_depth : AltSetting → OutAlt → Bool
has_depth alt s =
    is_streaming alt
    && leb 2 s.channels
    && is_depth s.bits
    && leb ((s.bits + 7) / 8) s.bytes
    && leb s.bytes 4
    && any_endpoint is_data_out alt.endpoints

unfoldable pub keep_out :
    AltSetting → OutAlt → Option (List ℕ × ℕ) → Option (Uac2Depth × List ℕ × ℕ)
keep_out alt s none = none
keep_out alt s (some (p, len)) =
    if has_depth alt s
    then some (record { bits = s.bits; bytes = s.bytes; channels = s.channels }, p, len)
    else none

unfoldable pub read_out : ℕ → AltSetting → Option (Uac2Depth × List ℕ × ℕ)
read_out version alt =
    let s =
      walk_extra (note_out version) alt.extra
        (record { channels = 0; bits = 0; bytes = 0; fmt = none }) in
    keep_out alt s s.fmt

-- The AudioStreaming pass: the depths of a UAC2 device, the candidates of a UAC1 device.
unfoldable pub read_streams :
    ℕ
    → List AltSetting
    → List Uac2Depth
    → List UsbFormatCandidate
    → List Uac2Depth × List UsbFormatCandidate
read_streams version [] depths result = (depths, result)
read_streams version (alt ∷ alts) depths result = elim (read_out version alt) [
  | none ↦ read_streams version alts depths result
  | some (depth, p, len) ↦
      if leb 0x0200 version
      then read_streams version alts (depths ++ depth ∷ []) result
      else read_streams version alts depths (add_rates (uac1_rates p len) (depth ∷ []) result)
]

abbrev pub to_ints : List ℕ → List ℤ
to_ints [] = []
to_ints (r ∷ rates) = to_int r ∷ to_ints rates

unfoldable pub add_ranges :
    List (ℕ × ℕ × ℕ) → List Uac2Depth → List UsbFormatCandidate → List UsbFormatCandidate
add_ranges [] depths result = result
add_ranges ((lo, hi, step) ∷ ranges) depths result =
    add_ranges ranges depths (add_rates (to_ints (range_rates lo hi step)) depths result)

-- The loop over the clocks.
unfoldable pub add_clocks :
    (ℕ → List ℕ) → List ℕ → List Uac2Depth → List UsbFormatCandidate → List UsbFormatCandidate
add_clocks get_range [] depths result = result
add_clocks get_range (id ∷ ids) depths result =
    let rng = get_range id in
    let ranges =
      if ltb (length rng) 2 then [] else sub_ranges rng 0 (rd16 (byte rng 0) (byte rng 1)) in
    add_clocks get_range ids depths (add_ranges ranges depths result)

abbrev pub common_rates : List ℤ
common_rates = pos 44100 ∷ pos 48000 ∷ pos 88200 ∷ pos 96000 ∷ pos 176400 ∷ pos 192000 ∷ []

abbrev pub is_empty : {A : Type 0} → List A → Bool
is_empty [] = true
is_empty (x ∷ xs) = false

-- Both passes, the clocks and the fallback.
unfoldable pub enumerate_config : (ℕ → List ℕ) → Config → List UsbFormatCandidate
enumerate_config get_range config =
    let c =
      read_clocks (alt_settings config)
        (record { control_iface = 0xFF; uac_version = 0x0200; clocks = [] }) in
    let uac2 = leb 0x0200 c.uac_version in
    let (depths, result) = read_streams c.uac_version (alt_settings config) [] [] in
    let asked =
      if uac2 && not (c.control_iface == 0xFF)
      then add_clocks get_range c.clocks depths result
      else result in
    if uac2 && is_empty asked && not (is_empty depths)
    then add_rates common_rates depths asked
    else asked

-- LibusbUacDriver::enumerateFormats: whether a device is open, whether it is a Line6 UX1, and the
-- configuration.
unfoldable pub enumerate_formats :
    (ℕ → List ℕ) → Bool → Bool → Option Config → List UsbFormatCandidate
enumerate_formats get_range false line6 config = []
enumerate_formats get_range true true config =
    record { sample_rate = pos 44100; bits_per_sample = 16; bytes_per_sample = 2; channels = 2 }
    ∷ []
enumerate_formats get_range true false none = []
enumerate_formats get_range true false (some config) = enumerate_config get_range config
