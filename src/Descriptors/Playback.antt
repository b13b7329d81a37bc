-- ===== src/Descriptors/Playback.antt =====
-- selectAltSetting of src/libusb_uac_driver.cpp: the playback setting for a request. The counts of
-- the request are not negative. A speed of LIBUSB_SPEED_HIGH or above is `high_speed`.
pub mod Choice
pub mod PacketRate
use liballa.Base.{
  ℕ, zero, suc, ◌+◌, ◌-◌, ◌*◌, ◌/◌, ◌^◌, Bool, true, false, ◌&&◌, ◌||◌, not, List, [], ◌∷◌, ◌++◌,
  Option, none, some, ltb, leb, ◌==◌, if◌then◌else◌, bit_and,
}
use liballa.Base.Int.{ℤ, pos, negsuc, pos_part, ltb_ℤ}
use liballa.Base.Bits.{two_pow}
use liballa.Descriptors.{
  Endpoint, AltSetting, Config, Control, alt_settings, byte, is_cs, is_in, is_iso, usage,
  is_streaming, as_general, as_format_type, format_type_i, walk_extra, locate_control,
}
use liballa.Descriptors.Clock.{resolve_clock, candidate_clock_ids}

-- ClockRateRange
pub record ClockRateRange : Type 0 where
  pub clock_id : ℕ
  pub min_hz : ℕ
  pub max_hz : ℕ
  pub res_hz : ℕ

pub record StreamFormat : Type 0 where
  pub sample_rate : ℕ
  pub bits_per_sample : ℕ
  pub bytes_per_sample : ℕ
  pub channels : ℕ
  pub interface_number : ℕ
  pub alt_setting : ℕ
  pub endpoint_address : ℕ
  pub sync_endpoint_address : ℕ
  pub terminal_link : ℕ
  pub max_packet_size : ℕ
  pub clock_source_id : ℕ
  pub control_interface_num : ℕ
  pub is_high_speed : Bool
  pub interval : ℕ
  pub uac_version : ℕ
  pub feedback_endpoint_address : ℕ
  pub feedback_max_packet_size : ℕ
  pub feedback_interval : ℕ
  pub implicit_feedback : Bool
  pub candidate_clock_ids : List ℕ

-- The arguments of selectAltSetting.
pub record Request : Type 0 where
  pub sample_rate : ℕ
  pub bits_per_sample : ℕ
  pub channels : ℕ
  pub bytes_per_sample : ℕ

-- What the callback finds out about a setting; the ranges are `supportedRates_`.
pub record AltFormat : Type 0 where
  pub alt_channels : ℕ
  pub alt_bits : ℕ
  pub alt_subslot : ℕ
  pub alt_terminal_link : ℕ
  pub rate_supported : Bool
  pub supported_rates : List ClockRateRange

-- rd24
abbrev pub rd24 : List ℕ → ℕ → ℕ
rd24 p i = byte p i + byte p (i + 1) * 2 ^ 8 + byte p (i + 2) * 2 ^ 16

-- The discrete rates of a UAC1 table with `count` entries, as far as the descriptor has them.
unfoldable pub table : List ℕ → ℕ → ℕ → ℕ → List ℕ
table p len off zero = []
table p len off (suc count) =
    let rest = table p len (off + 3) count in if ltb len (off + 3) then [] else rd24 p off ∷ rest

abbrev pub any_eq : ℕ → List ℕ → Bool
any_eq rate [] = false
any_eq rate (hz ∷ rates) = hz == rate || any_eq rate rates

abbrev pub has_range : ℕ → ℕ → List ClockRateRange → Bool
has_range lo hi [] = false
has_range lo hi (e ∷ ranges) = (e.min_hz == lo && e.max_hz == hi) || has_range lo hi ranges

-- A range of a UAC1 device, unless it is there.
abbrev pub add_range : ℕ → ℕ → List ClockRateRange → List ClockRateRange
add_range lo hi ranges =
    if has_range lo hi ranges
    then ranges
    else ranges ++ record { clock_id = 0; min_hz = lo; max_hz = hi; res_hz = 0 } ∷ []

abbrev pub add_rates : List ℕ → List ClockRateRange → List ClockRateRange
add_rates [] ranges = ranges
add_rates (hz ∷ rates) ranges = add_rates rates (add_range hz hz ranges)

-- The sample-frequency table of a UAC1 format. Only a setting with the requested channels and bits
-- adds to the ranges.
unfoldable pub note_table : Request → List ℕ → ℕ → AltFormat → AltFormat
note_table req p len f =
    let kind = byte p 7 in
    let matches = f.alt_channels == req.channels && f.alt_bits == req.bits_per_sample in
    let rates = table p len 8 kind in
    if ltb len 8
    then f
    else if kind == 0
    then if leb 14 len
      then record f {
        rate_supported = leb (rd24 p 8) req.sample_rate && leb req.sample_rate (rd24 p 11);
        supported_rates =
            if matches
            then add_range (rd24 p 8) (rd24 p 11) f.supported_rates
            else f.supported_rates;
      }
      else f
    else record f {
      rate_supported = any_eq req.sample_rate rates;
      supported_rates = if matches then add_rates rates f.supported_rates else f.supported_rates;
    }

-- The callback of the AudioStreaming pass.
unfoldable pub note_format : Request → ℕ → List ℕ → ℕ → AltFormat → AltFormat × Bool
note_format req version p len f = (
  if is_cs p len as_general
      then if leb 0x0200 version && leb 16 len
        then record f { alt_terminal_link = byte p 3; alt_channels = byte p 10 }
        else f
      else if is_cs p len as_format_type && leb 4 len && byte p 3 == format_type_i
      then if leb 0x0200 version
        then if leb 6 len then record f { alt_subslot = byte p 4; alt_bits = byte p 5 } else f
        else if leb 7 len
        then note_table req p len
            (record f { alt_channels = byte p 4; alt_subslot = byte p 5; alt_bits = byte p 6 })
        else f
      else f,
  false,
)

unfoldable pub read_format : Request → ℕ → AltSetting → List ClockRateRange → AltFormat
read_format req version alt ranges = walk_extra (note_format req version) alt.extra (record {
  alt_channels = 0;
  alt_bits = 0;
  alt_subslot = 0;
  alt_terminal_link = 0;
  rate_supported = leb 0x0200 version;
  supported_rates = ranges;
})

-- The first endpoint that passes a test.
abbrev pub first_endpoint : (Endpoint → Bool) → List Endpoint → Option Endpoint
first_endpoint test [] = none
first_endpoint test (ep ∷ endpoints) = if test ep then some ep else first_endpoint test endpoints

abbrev pub is_data_out : Endpoint → Bool
is_data_out ep = is_iso ep && not (is_in ep) && usage ep == 0

abbrev pub is_feedback_in : Endpoint → Bool
is_feedback_in ep = is_iso ep && is_in ep && usage ep == 1

-- `microframesPerInterval`: the int `1 << 31` is negative, and a shift by more is undefined, `none`.
unfoldable pub microframes_per_interval : Bool → ℕ → Option ℤ
microframes_per_interval false interval = some (pos interval)
microframes_per_interval true interval =
    if ltb (interval - 1) 31
    then some (pos (two_pow (interval - 1)))
    else if interval - 1 == 31
    then some (negsuc (2 ^ 31 - 1))
    else none

-- `packetsPerSec`
unfoldable pub packets_per_sec : Bool → ℕ → Option ℕ
packets_per_sec high_speed interval =
    let per_second : ℕ = if high_speed then 8000 else 1000 in
    elim (microframes_per_interval high_speed interval) [
      | none ↦ none
      | some m ↦ some (if ltb_ℤ (pos 0) m then per_second / pos_part m else per_second)
    ]

-- The bytes of a sample, and of a frame.
abbrev pub sample_bytes : Request → AltFormat → ℕ
sample_bytes req f = if f.alt_subslot == 0 then req.bits_per_sample / 8 else f.alt_subslot

-- `reqBytesPerPacket`, where `packetsPerSec` is not 0.
unfoldable pub req_bytes_per_packet : Request → AltFormat → ℕ → ℕ
req_bytes_per_packet req f packets =
    (req.sample_rate + packets - 1) / packets * (sample_bytes req f * req.channels)

-- `realMps`
unfoldable pub real_mps : Endpoint → ℕ
real_mps ep = bit_and ep.max_packet_size 0x07FF * (bit_and (ep.max_packet_size / 2048) 3 + 1)

-- The stores to `out_fmt`.
abbrev pub set_feedback : Option Endpoint → StreamFormat → StreamFormat
set_feedback none out = out
set_feedback (some ep) out = record out {
  feedback_endpoint_address = ep.address;
  feedback_max_packet_size = ep.max_packet_size;
  feedback_interval = ep.interval;
}

unfoldable pub fill_format :
    Request → Control → Bool → AltSetting → AltFormat → Endpoint → StreamFormat → StreamFormat
fill_format req c high_speed alt f iso out =
    set_feedback (first_endpoint is_feedback_in alt.endpoints) (record out {
      sample_rate = req.sample_rate;
      bits_per_sample = req.bits_per_sample;
      bytes_per_sample = sample_bytes req f;
      channels = req.channels;
      interface_number = alt.interface_number;
      alt_setting = alt.alternate_setting;
      terminal_link = f.alt_terminal_link;
      endpoint_address = iso.address;
      sync_endpoint_address = iso.synch_address;
      max_packet_size = iso.max_packet_size;
      clock_source_id = resolve_clock c.terminals c.clock_entities f.alt_terminal_link;
      control_interface_num = c.control_iface;
      candidate_clock_ids = candidate_clock_ids c.clock_entities;
      is_high_speed = high_speed;
      interval = iso.interval;
      uac_version = c.uac_version;
    })

-- What the search comes to: the last cases are the division by a `packetsPerSec` of 0, which stops the
-- program, and the undefined shift.
pub data Selection : Type 0 where
  no_match : Selection
  chosen : StreamFormat → Selection
  divided_by_zero : Selection
  undefined_shift : Selection

-- The body of the loop on a streaming setting; `no_match` continues the loop.
unfoldable pub judge : Request → Control → Bool → AltSetting → AltFormat → StreamFormat → Selection
judge req c high_speed alt f out =
    if (ltb 0 req.bytes_per_sample && not (f.alt_subslot == req.bytes_per_sample))
      || not (f.alt_channels == req.channels && f.alt_bits == req.bits_per_sample)
      || not f.rate_supported
    then no_match
    else elim (first_endpoint is_data_out alt.endpoints) [
      | none ↦ no_match
      | some iso ↦ elim (packets_per_sec high_speed iso.interval) [
        | none ↦ undefined_shift
        | some packets ↦
            if packets == 0
            then divided_by_zero
            else if ltb (real_mps iso) (req_bytes_per_packet req f packets)
            then no_match
            else chosen (fill_format req c high_speed alt f iso out)
      ]
    ]

-- The loop over the settings.
unfoldable pub select_from :
    Request
    → Control
    → Bool
    → StreamFormat
    → List ClockRateRange
    → List AltSetting
    → List ClockRateRange × Selection
select_from req c high_speed out ranges [] = (ranges, no_match)
select_from req c high_speed out ranges (alt ∷ alts) =
    let f = read_format req c.uac_version alt ranges in
    let ranges' = if is_streaming alt then f.supported_rates else ranges in
    let later = select_from req c high_speed out ranges' alts in
    if is_streaming alt
    then elim (judge req c high_speed alt f out) [
      | no_match ↦ later
      | chosen out' ↦ (ranges', chosen out')
      | divided_by_zero ↦ (ranges', divided_by_zero)
      | undefined_shift ↦ (ranges', undefined_shift)
    ]
    else later

-- LibusbUacDriver::selectAltSetting
unfoldable pub select_alt_setting :
    Option Config
    → Bool
    → Request
    → StreamFormat
    → List ClockRateRange
    → List ClockRateRange × Selection
select_alt_setting none high_speed req out ranges = (ranges, no_match)
select_alt_setting (some config) high_speed req out ranges =
    elim (locate_control (alt_settings config)) [
      | none ↦ (ranges, no_match)
      | some c ↦ select_from req c high_speed out ranges (alt_settings config)
    ]
