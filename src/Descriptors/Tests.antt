-- ===== src/Descriptors/Tests.antt =====
-- The descriptors of a UAC2 interface with stereo playback and mono capture on one clock, and runs of
-- the operations of src/libusb_uac_driver.cpp on them.
use mathlib.Core.List.{Memᴰ}
use liballa.Base.{
  ℕ, ◌+◌, ◌≤◌, ◌≡◌, ◌↔◌, refl, ap, inr, true, false, ◌||◌, not, List, [], ◌∷◌, ◌++◌, some, arith,
  get_elem?, min, ◌-◌, ◌/◌, ◌==◌, if◌then◌else◌, length,
}
use liballa.Base.Int.{pos}
use liballa.Descriptors.{
  Control, Endpoint, AltSetting, Config, ClockEntity, TermClock, alt_settings, usage,
  is_class_descriptor, walk_loop, walk_extra, note_control, locate_control, ac_clock_source,
  ac_clock_selector,
}
use liballa.Descriptors.Walk.{
  IsDescriptor, IsEnd, AllDescriptors, none_left, one_more, concat, collect, Split, visit,
  walk_extra_descriptors, walk_extra_total,
}
use liballa.Descriptors.Clock.{
  Leads, arrived, through, terminal_clock, follow, resolve_clock, candidate_clock_ids,
  resolve_clock_lem,
}
use liballa.Descriptors.Playback.{
  ClockRateRange, Request, StreamFormat, Selection, chosen, table, note_table, note_format,
  read_format, microframes_per_interval, packets_per_sec, req_bytes_per_packet, real_mps,
  fill_format, judge, select_from, select_alt_setting,
}
use liballa.Descriptors.Playback.Choice.{IsMatch, select_alt_setting_sound}
use liballa.Descriptors.Playback.PacketRate.{packets_per_sec_zero}
use liballa.Descriptors.Capture.{
  note_inputs, input_channels, capture_channel_count, note_topology, topology, read_topology,
  note_capture, read_capture, admits, can_capture, consider, consider_all,
  select_capture_alt_setting,
}
use liballa.Descriptors.Capture.Selected.{select_capture_alt_setting_prefers}
use liballa.Descriptors.Capture.Sound.{IsCapture, select_capture_alt_setting_sound}
use liballa.Descriptors.Enumerate.{
  UsbFormatCandidate, add, add_depths, add_rates, note_clock, read_clocks, note_out, uac1_rates,
  keep_out, read_out, read_streams, add_ranges, add_clocks, enumerate_config, enumerate_formats,
}
use liballa.Descriptors.Enumerate.OfferList.{IsOffer}
use liballa.Descriptors.Enumerate.Offers.{enumerate_formats_offers}
use liballa.Descriptors.Enumerate.Range.{
  progression, range_loop, range_rates, sub_ranges, range_rates-progression,
}

-- Header, clock source 9, clock selector 8 to it, input terminal 1 and output terminal 4 on 8.
abbrev ac_descriptors : List (List ℕ)
ac_descriptors =
    (9 ∷ 0x24 ∷ 1 ∷ 0 ∷ 2 ∷ 0 ∷ 0 ∷ 0 ∷ 0 ∷ [])
    ∷ (8 ∷ 0x24 ∷ 0x0A ∷ 9 ∷ 0 ∷ 0 ∷ 0 ∷ 0 ∷ [])
    ∷ (8 ∷ 0x24 ∷ 0x0B ∷ 8 ∷ 1 ∷ 9 ∷ 0 ∷ 0 ∷ [])
    ∷ (8 ∷ 0x24 ∷ 2 ∷ 1 ∷ 0 ∷ 0 ∷ 0 ∷ 8 ∷ [])
    ∷ (9 ∷ 0x24 ∷ 3 ∷ 4 ∷ 0 ∷ 0 ∷ 0 ∷ 0 ∷ 8 ∷ [])
    ∷ []

-- AS_GENERAL of a terminal with some channels, and FORMAT_TYPE_I of 16 bits.
abbrev as_descriptors : ℕ → ℕ → List (List ℕ)
as_descriptors terminal channels =
    (16 ∷ 0x24 ∷ 1 ∷ terminal ∷ 0 ∷ 1 ∷ 1 ∷ 0 ∷ 0 ∷ 0 ∷ channels ∷ 0 ∷ 0 ∷ 0 ∷ 0 ∷ 0 ∷ [])
    ∷ (6 ∷ 0x24 ∷ 2 ∷ 1 ∷ 2 ∷ 16 ∷ [])
    ∷ []

abbrev control : AltSetting
control = record {
  interface_number = 0;
  alternate_setting = 0;
  interface_class = 1;
  interface_subclass = 1;
  endpoints = [];
  extra = concat ac_descriptors;
}

abbrev out_endpoint : Endpoint
out_endpoint = record {
  address = 1;
  attributes = 5;
  max_packet_size = 200;
  interval = 4;
  synch_address = 0;
}

abbrev in_endpoint : Endpoint
in_endpoint = record {
  address = 0x82;
  attributes = 0x25;
  max_packet_size = 100;
  interval = 4;
  synch_address = 0;
}

abbrev playing : AltSetting
playing = record {
  interface_number = 1;
  alternate_setting = 1;
  interface_class = 1;
  interface_subclass = 2;
  endpoints = out_endpoint ∷ [];
  extra = concat (as_descriptors 1 2);
}

abbrev recording : AltSetting
recording = record {
  interface_number = 2;
  alternate_setting = 1;
  interface_class = 1;
  interface_subclass = 2;
  endpoints = in_endpoint ∷ [];
  extra = concat (as_descriptors 4 1);
}

abbrev interface : Config
interface = (control ∷ []) ∷ (playing ∷ []) ∷ (recording ∷ []) ∷ []

abbrev request : Request
request = record { sample_rate = 48000; bits_per_sample = 16; channels = 2; bytes_per_sample = 0 }

abbrev empty_format : StreamFormat
empty_format = record {
  sample_rate = 0;
  bits_per_sample = 0;
  bytes_per_sample = 0;
  channels = 0;
  interface_number = 0;
  alt_setting = 0;
  endpoint_address = 0;
  sync_endpoint_address = 0;
  terminal_link = 0;
  max_packet_size = 0;
  clock_source_id = 0;
  control_interface_num = 0;
  is_high_speed = true;
  interval = 1;
  uac_version = 0x0200;
  feedback_endpoint_address = 0;
  feedback_max_packet_size = 0;
  feedback_interval = 0;
  implicit_feedback = false;
  candidate_clock_ids = [];
}

abbrev play_format : StreamFormat
play_format = record empty_format {
  sample_rate = 48000;
  bits_per_sample = 16;
  bytes_per_sample = 2;
  channels = 2;
  interface_number = 1;
  alt_setting = 1;
  endpoint_address = 1;
  terminal_link = 1;
  max_packet_size = 200;
  clock_source_id = 9;
  interval = 4;
  candidate_clock_ids = 9 ∷ 8 ∷ [];
}

abbrev record_format : StreamFormat
record_format = record play_format {
  channels = 1;
  interface_number = 2;
  endpoint_address = 0x82;
  max_packet_size = 100;
  implicit_feedback = true;
}

plays : select_alt_setting (some interface) true request empty_format [] ≡ ([], chosen play_format)
unfolding is_class_descriptor walk_loop walk_extra note_control locate_control follow resolve_clock
    candidate_clock_ids table note_table note_format read_format microframes_per_interval
    packets_per_sec req_bytes_per_packet real_mps fill_format judge select_from select_alt_setting
plays = refl

records : select_capture_alt_setting (some interface) play_format ≡ some record_format
unfolding is_class_descriptor walk_loop walk_extra note_topology topology read_topology follow
    note_capture read_capture admits can_capture consider consider_all select_capture_alt_setting
records = refl

one_input : capture_channel_count (some interface) ≡ 1
unfolding is_class_descriptor walk_loop walk_extra note_inputs input_channels capture_channel_count
one_input = refl

ac_all : AllDescriptors ac_descriptors
unfolding IsDescriptor
ac_all =
    one_more (omega arith, refl)
      (one_more (omega arith, refl)
        (one_more (omega arith, refl)
          (one_more (omega arith, refl) (one_more (omega arith, refl) none_left))))

cut_off : IsEnd (7 ∷ 0x24 ∷ [])
unfolding IsEnd
cut_off = inr (inr (omega arith))

walk_extra_descriptors_example :
    walk_extra collect (concat ac_descriptors ++ (7 ∷ 0x24 ∷ [])) [] ≡ ac_descriptors
walk_extra_descriptors_example =
    walk_extra_descriptors ac_descriptors (7 ∷ 0x24 ∷ []) ac_all cut_off

walk_extra_total_example :
    (split : Split control.extra) × (walk_extra collect control.extra []
      ≡ visit collect split.descriptors split.end [])
    × (walk_loop collect (length control.extra + 3) control.extra []
        ≡ walk_extra collect control.extra [])
walk_extra_total_example = walk_extra_total collect control.extra 3 []

abbrev source_entity : ClockEntity
source_entity = record { id = 9; subtype = ac_clock_source; base_id = 0 }

abbrev selector_entity : ClockEntity
selector_entity = record { id = 8; subtype = ac_clock_selector; base_id = 9 }

abbrev entities : List ClockEntity
entities = source_entity ∷ selector_entity ∷ []

abbrev links : List TermClock
links = record { term_id = 1; clock_id = 8 } ∷ []

leads_to_source : Leads entities 1 (terminal_clock links 1) 9
leads_to_source =
    through selector_entity refl refl (λ e. absurd (omega (arith, e)))
      (arrived source_entity refl refl (λ e. absurd (omega (arith, e))))

resolve_clock_lem_example : resolve_clock links entities 1 ≡ 9
resolve_clock_lem_example = resolve_clock_lem links entities 1 1 9 leads_to_source (omega arith)

plays_1 : (select_alt_setting (some interface) true request empty_format []).1 ≡ chosen play_format
plays_1 = ap (λ (r : List ClockRateRange × Selection). r.1) plays

select_alt_setting_sound_example :
    (c : Control) × (locate_control (alt_settings interface) ≡ some c)
    × (alt : AltSetting) × Memᴰ alt (alt_settings interface)
    × (iso : Endpoint) × IsMatch request true c.uac_version alt iso play_format
select_alt_setting_sound_example =
    select_alt_setting_sound interface true request empty_format play_format [] plays_1

packets_per_sec_zero_example :
    (packets_per_sec true 14 ≡ some 0) ↔ ((true ≡ true) × (14 ≤ 14) × (14 ≤ 31))
packets_per_sec_zero_example = packets_per_sec_zero true 14 (omega arith)

select_capture_alt_setting_sound_example :
    (alt : AltSetting) × Memᴰ alt (alt_settings interface)
    × (ep : Endpoint) × IsCapture play_format alt ep record_format
select_capture_alt_setting_sound_example =
    select_capture_alt_setting_sound interface play_format record_format records

recording_admitted :
    admits play_format (read_topology 0x0200 (alt_settings interface)) recording ≡ true
unfolding is_class_descriptor walk_loop walk_extra note_topology topology read_topology follow
    note_capture read_capture admits
recording_admitted = refl

recording_captures : can_capture play_format in_endpoint ≡ true
unfolding can_capture
recording_captures = refl

select_capture_alt_setting_prefers_example :
    (fmt : StreamFormat) × (select_capture_alt_setting (some interface) play_format ≡ some fmt)
    × ((fmt.implicit_feedback || not (usage in_endpoint == 2)) ≡ true)
select_capture_alt_setting_prefers_example =
    select_capture_alt_setting_prefers interface play_format recording in_endpoint
      (Memᴰ.tail (Memᴰ.tail (Memᴰ.head refl))) recording_admitted (Memᴰ.head refl)
      recording_captures

-- A clock that answers one range, 44.1 kHz to 48 kHz in steps of 3.9 kHz.
abbrev two_rates : ℕ → List ℕ
two_rates id = 1 ∷ 0 ∷ 0x44 ∷ 0xAC ∷ 0 ∷ 0 ∷ 0x80 ∷ 0xBB ∷ 0 ∷ 0 ∷ 0x3C ∷ 0x0F ∷ 0 ∷ 0 ∷ []

abbrev offer : ℕ → UsbFormatCandidate
offer rate = record {
  sample_rate = pos rate;
  bits_per_sample = 16;
  bytes_per_sample = 2;
  channels = 2;
}

enumerates :
    enumerate_formats two_rates true false (some interface) ≡ offer 44100 ∷ offer 48000 ∷ []
unfolding is_class_descriptor walk_loop walk_extra add add_depths add_rates note_clock read_clocks
    note_out uac1_rates table keep_out read_out read_streams range_loop range_rates sub_ranges
    add_ranges add_clocks enumerate_config enumerate_formats
enumerates = refl

enumerate_formats_offers_example : let one : ℕ = 1 in IsOffer (offer 48000) × (one ≡ one)
enumerate_formats_offers_example =
    enumerate_formats_offers two_rates true false (some interface) 1 1 (offer 48000)
      (ap (λ (l : List UsbFormatCandidate). get_elem? l 1) enumerates)
      (ap (λ (l : List UsbFormatCandidate). get_elem? l 1) enumerates)

range_rates-progression_example :
    range_rates 44100 48000 1000
    ≡ progression (if 1000 == 0 then 1 else min 256 ((48000 - 44100) / 1000) + 1) 44100 1000
range_rates-progression_example =
    range_rates-progression 44100 48000 1000 (omega arith) (omega arith) (omega arith)
