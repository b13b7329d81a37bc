-- ===== src/Descriptors.antt =====
-- The USB descriptors that src/libusb_uac_driver.cpp reads: the configuration as libusb parses it,
-- isClassDescriptor and walkExtra, and the AudioControl pass of selectAltSetting. A configuration
-- that libusb cannot deliver is `none` to the operations that ask for it. Bytes are numbers below
-- 256. A byte beyond the end of an `extra` blob, which the source would read out of bounds, is 0.
pub mod Walk
pub mod Clock
pub mod Playback
pub mod Enumerate
pub mod Capture
mod Tests
use liballa.Base.{
  ℕ, zero, suc, ◌+◌, ◌*◌, ◌/◌, ◌^◌, Bool, true, false, ◌&&◌, ◌||◌, not, List, [], ◌∷◌, ◌++◌, Option,
  none, some, ltb, leb, ◌==◌, if◌then◌else◌, length, bit_and, get_or, drop,
}

-- libusb_endpoint_descriptor
pub record Endpoint : Type 0 where
  pub address : ℕ
  pub attributes : ℕ
  pub max_packet_size : ℕ
  pub interval : ℕ
  pub synch_address : ℕ

-- libusb_interface_descriptor: an alternate setting of an interface.
pub record AltSetting : Type 0 where
  pub interface_number : ℕ
  pub alternate_setting : ℕ
  pub interface_class : ℕ
  pub interface_subclass : ℕ
  pub endpoints : List Endpoint
  pub extra : List ℕ

-- libusb_config_descriptor: each interface with its alternate settings.
abbrev pub Config : Type 0
Config = List (List AltSetting)

-- The alternate settings in the order in which the two nested loops visit them.
abbrev pub alt_settings : Config → List AltSetting
alt_settings [] = []
alt_settings (interface ∷ config) = interface ++ alt_settings config

abbrev pub cs_interface : ℕ
cs_interface = 0x24

-- The subtypes of AudioControl descriptors, and those of AudioStreaming ones.
abbrev pub ac_header : ℕ
ac_header = 0x01

abbrev pub ac_input_terminal : ℕ
ac_input_terminal = 0x02

abbrev pub ac_output_terminal : ℕ
ac_output_terminal = 0x03

abbrev pub ac_clock_source : ℕ
ac_clock_source = 0x0A

abbrev pub ac_clock_selector : ℕ
ac_clock_selector = 0x0B

abbrev pub ac_clock_multiplier : ℕ
ac_clock_multiplier = 0x0C

abbrev pub as_general : ℕ
as_general = 0x01

abbrev pub as_format_type : ℕ
as_format_type = 0x02

abbrev pub format_type_i : ℕ
format_type_i = 0x01

-- The byte p[i].
abbrev pub byte : List ℕ → ℕ → ℕ
byte p i = get_or p i 0

abbrev pub is_control : AltSetting → Bool
is_control alt = alt.interface_class == 1 && alt.interface_subclass == 1

-- An AudioStreaming setting other than the idle one.
abbrev pub is_streaming : AltSetting → Bool
is_streaming alt =
    alt.interface_class == 1 && alt.interface_subclass == 2 && not (alt.alternate_setting == 0)

-- The endpoint tests: isochronous, IN, and the usage type.
abbrev pub is_iso : Endpoint → Bool
is_iso ep = bit_and ep.attributes 3 == 1

abbrev pub is_in : Endpoint → Bool
is_in ep = not (bit_and ep.address 0x80 == 0)

abbrev pub usage : Endpoint → ℕ
usage ep = bit_and (ep.attributes / 16) 3

-- isClassDescriptor
unfoldable pub is_class_descriptor : List ℕ → ℕ → ℕ → ℕ → Bool
is_class_descriptor p remaining desc_type subtype =
    if ltb remaining 3 then false else byte p 1 == desc_type && byte p 2 == subtype

-- The tests that the callbacks share.
abbrev pub is_cs : List ℕ → ℕ → ℕ → Bool
is_cs p len subtype = is_class_descriptor p len cs_interface subtype

-- The loop of walkExtra on the bytes that are left, with fuel: the callback takes extra + i and the
-- length of the descriptor there, and tells whether to stop.
unfoldable pub walk_loop : {S : Type 0} → (List ℕ → ℕ → S → S × Bool) → ℕ → List ℕ → S → S
walk_loop cb zero p s = s
walk_loop cb (suc fuel) p s =
    let len = byte p 0 in
    let (s', stop) = cb p len s in
    let rest = walk_loop cb fuel (drop len p) s' in
    if ltb (length p) 2
    then s
    else if ltb len 2 || ltb (length p) len
    then s
    else if stop
    then s'
    else rest

-- walkExtra; a round takes at least two bytes.
unfoldable pub walk_extra : {S : Type 0} → (List ℕ → ℕ → S → S × Bool) → List ℕ → S → S
walk_extra cb extra s = walk_loop cb (length extra) extra s

-- ClockEntity and TermClock
pub record ClockEntity : Type 0 where
  pub id : ℕ
  pub subtype : ℕ
  pub base_id : ℕ

pub record TermClock : Type 0 where
  pub term_id : ℕ
  pub clock_id : ℕ

-- What the AudioControl pass collects.
pub record Control : Type 0 where
  pub control_iface : ℕ
  pub uac_version : ℕ
  pub clock_entities : List ClockEntity
  pub terminals : List TermClock

-- The byte pair of bcdADC.
abbrev pub rd16 : ℕ → ℕ → ℕ
rd16 low high = low + high * 2 ^ 8

abbrev pub add_clock : List ℕ → ℕ → ℕ → Control → Control
add_clock p subtype base c = record c {
  clock_entities =
      c.clock_entities ++ record { id = byte p 3; subtype = subtype; base_id = base } ∷ [];
}

abbrev pub add_terminal : List ℕ → ℕ → Control → Control
add_terminal p clock c = record c {
  terminals = c.terminals ++ record { term_id = byte p 3; clock_id = clock } ∷ [];
}

-- The callback of the AudioControl pass of selectAltSetting.
unfoldable pub note_control : List ℕ → ℕ → Control → Control × Bool
note_control p len c = (
  if is_cs p len ac_header && leb 5 len
      then record c { uac_version = rd16 (byte p 3) (byte p 4) }
      else if is_cs p len ac_clock_source && leb 4 len
      then add_clock p ac_clock_source 0 c
      else if is_cs p len ac_clock_selector && leb 6 len
      then add_clock p ac_clock_selector (byte p 5) c
      else if is_cs p len ac_clock_multiplier && leb 5 len
      then add_clock p ac_clock_multiplier (byte p 4) c
      else if is_cs p len ac_input_terminal && leb 8 len
      then add_terminal p (byte p 7) c
      else if is_cs p len ac_output_terminal && leb 9 len
      then add_terminal p (byte p 8) c
      else c,
  false,
)

abbrev pub no_control : Control
no_control = record {
  control_iface = 0xFF;
  uac_version = 0x0200;
  clock_entities = [];
  terminals = [];
}

-- The first pass of selectAltSetting: it stops at the first AudioControl setting.
unfoldable pub locate_control : List AltSetting → Option Control
locate_control [] = none
locate_control (alt ∷ alts) =
    let later = locate_control alts in
    if is_control alt
    then some (
        walk_extra note_control alt.extra
          (record no_control { control_iface = alt.interface_number }))
    else later
