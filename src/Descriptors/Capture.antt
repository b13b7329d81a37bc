-- ===== src/Descriptors/Capture.antt =====
-- captureChannelCount and selectCaptureAltSetting of src/libusb_uac_driver.cpp, on an open device that
-- is no Line6 UX1.
pub mod Selected
pub mod Sound
use liballa.Base.{
  ℕ, ◌/◌, Bool, true, false, ◌&&◌, ◌||◌, not, max, List, [], ◌∷◌, Option, none, some, ltb, leb,
  ◌==◌, if◌then◌else◌,
}
use liballa.Descriptors.{
  Endpoint, AltSetting, Config, Control, alt_settings, byte, is_cs, is_in, is_iso, usage,
  is_control, is_streaming, as_general, as_format_type, format_type_i, walk_extra, ac_clock_source,
  ac_clock_selector, ac_clock_multiplier, ac_input_terminal, ac_output_terminal, add_clock,
  add_terminal, no_control,
}
use liballa.Descriptors.Clock.{follow, terminal_clock}
use liballa.Descriptors.Playback.{StreamFormat}

-- The channels of a setting, whether it is PCM, and whether AS_GENERAL gave the channels.
pub record Inputs : Type 0 where
  pub channels : ℕ
  pub pcm : Bool
  pub has_uac2_general : Bool

unfoldable pub note_inputs : List ℕ → ℕ → Inputs → Inputs × Bool
note_inputs p len s =
    let s' =
      if is_cs p len as_general && leb 11 len
      then record s { channels = byte p 10; has_uac2_general = true }
      else s in
    (
      if is_cs p len as_format_type && leb 6 len && byte p 3 == format_type_i
          then record s' {
            pcm = true;
            channels =
                if not s'.has_uac2_general && leb 7 len && ltb 0 (byte p 4)
                then byte p 4
                else s'.channels;
          }
          else s',
      false,
    )

abbrev pub any_endpoint : (Endpoint → Bool) → List Endpoint → Bool
any_endpoint test [] = false
any_endpoint test (ep ∷ endpoints) = test ep || any_endpoint test endpoints

abbrev pub is_input : Endpoint → Bool
is_input ep = is_iso ep && is_in ep

-- The channels that a setting offers to capture.
unfoldable pub input_channels : AltSetting → ℕ
input_channels alt =
    let s =
      walk_extra note_inputs alt.extra
        (record { channels = 0; pcm = false; has_uac2_general = false }) in
    if is_streaming alt && any_endpoint is_input alt.endpoints && s.pcm then s.channels else 0

abbrev pub max_channels : List AltSetting → ℕ → ℕ
max_channels [] maximum = maximum
max_channels (alt ∷ alts) maximum = max_channels alts (max maximum (input_channels alt))

-- LibusbUacDriver::captureChannelCount
unfoldable pub capture_channel_count : Option Config → ℕ
capture_channel_count none = 0
capture_channel_count (some config) = max_channels (alt_settings config) 0

-- The AudioControl callback of selectCaptureAltSetting.
unfoldable pub note_topology : List ℕ → ℕ → Control → Control × Bool
note_topology p len c = (
  if is_cs p len ac_clock_source && leb 4 len
      then add_clock p ac_clock_source 0 c
      else if is_cs p len ac_clock_selector && leb 6 len
      then add_clock p ac_clock_selector (byte p 5) c
      else if is_cs p len ac_clock_multiplier && leb 5 len
      then add_clock p ac_clock_multiplier (byte p 4) c
      else if is_cs p len ac_input_terminal && leb 8 len
      then add_terminal p (byte p 7) c
      else if is_cs p len ac_output_terminal && leb 9 len
      then add_terminal p (byte p 8) c
      else c,
  false,
)

-- Every AudioControl setting adds to the topology; a UAC1 device has none.
unfoldable pub topology : List AltSetting → Control → Control
topology [] c = c
topology (alt ∷ alts) c =
    topology alts (if is_control alt then walk_extra note_topology alt.extra c else c)

unfoldable pub read_topology : ℕ → List AltSetting → Control
read_topology version alts = if leb 0x0200 version then topology alts no_control else no_control

-- What the AudioStreaming callback finds out.
pub record CaptureAlt : Type 0 where
  pub channels : ℕ
  pub bits : ℕ
  pub bytes : ℕ
  pub terminal_link : ℕ

unfoldable pub note_capture : ℕ → List ℕ → ℕ → CaptureAlt → CaptureAlt × Bool
note_capture version p len s =
    let s' =
      if is_cs p len as_general && leb 0x0200 version && leb 11 len
      then record s { terminal_link = if leb 16 len then byte p 3 else 0; channels = byte p 10 }
      else s in
    (
      if is_cs p len as_format_type && leb 6 len && byte p 3 == format_type_i
          then if leb 0x0200 version
            then record s' { bytes = byte p 4; bits = byte p 5 }
            else if leb 7 len
            then record s' { channels = byte p 4; bytes = byte p 5; bits = byte p 6 }
            else s'
          else s',
      false,
    )

unfoldable pub read_capture : ℕ → AltSetting → CaptureAlt
read_capture version alt =
    walk_extra (note_capture version) alt.extra
      (record { channels = 0; bits = 0; bytes = 0; terminal_link = 0 })

-- `resolveClock` of selectCaptureAltSetting
abbrev pub capture_clock : Control → ℕ → ℕ
capture_clock c link = follow c.clock_entities 4 (terminal_clock c.terminals link)

-- The tests that a setting passes before its endpoints are looked at.
unfoldable pub admits : StreamFormat → Control → AltSetting → Bool
admits playback c alt =
    let s = read_capture playback.uac_version alt in
    let candidate = capture_clock c s.terminal_link in
    is_streaming alt
    && not (not (playback.terminal_link == 0) && s.terminal_link == playback.terminal_link)
    && not (
        not (playback.clock_source_id == 0)
        && not (candidate == 0)
        && not (candidate == playback.clock_source_id))
    && ltb 0 s.channels
    && s.bits == playback.bits_per_sample
    && s.bytes == playback.bytes_per_sample

-- The tests of an endpoint.
unfoldable pub can_capture : StreamFormat → Endpoint → Bool
can_capture playback ep =
    is_iso ep
    && is_in ep
    && not (
        playback.feedback_endpoint_address == 0
        && not (playback.sync_endpoint_address == 0)
        && not (ep.address == playback.sync_endpoint_address))
    && (usage ep == 0 || usage ep == 2)

-- `chosen`, `chosenEp`, `chosenImplicitFeedback`, `chosenChannels` and `chosenClock`.
pub record Choice : Type 0 where
  pub alt : AltSetting
  pub endpoint : Endpoint
  pub implicit_feedback : Bool
  pub channels : ℕ
  pub clock : ℕ

abbrev pub replaces : Endpoint → Option Choice → Bool
replaces ep none = true
replaces ep (some choice) = usage ep == 2 && not choice.implicit_feedback

unfoldable pub consider :
    StreamFormat → Control → AltSetting → List Endpoint → Option Choice → Option Choice
consider playback c alt [] choice = choice
consider playback c alt (ep ∷ endpoints) choice =
    let s = read_capture playback.uac_version alt in
    consider playback c alt endpoints (
      if can_capture playback ep && replaces ep choice
      then some (record {
        alt = alt;
        endpoint = ep;
        implicit_feedback = usage ep == 2;
        channels = s.channels;
        clock = capture_clock c s.terminal_link;
      })
      else choice)

unfoldable pub consider_all :
    StreamFormat → Control → List AltSetting → Option Choice → Option Choice
consider_all playback c [] choice = choice
consider_all playback c (alt ∷ alts) choice =
    consider_all playback c alts
      (if admits playback c alt then consider playback c alt alt.endpoints choice else choice)

abbrev pub capture_format : StreamFormat → Choice → StreamFormat
capture_format playback choice = record playback {
  channels = choice.channels;
  interface_number = choice.alt.interface_number;
  alt_setting = choice.alt.alternate_setting;
  endpoint_address = choice.endpoint.address;
  max_packet_size = choice.endpoint.max_packet_size;
  clock_source_id = choice.clock;
  interval = choice.endpoint.interval;
  feedback_endpoint_address = 0;
  implicit_feedback = choice.implicit_feedback;
}

-- LibusbUacDriver::selectCaptureAltSetting; `none` is the result false.
unfoldable pub select_capture_alt_setting : Option Config → StreamFormat → Option StreamFormat
select_capture_alt_setting none playback = none
select_capture_alt_setting (some config) playback =
    let c = read_topology playback.uac_version (alt_settings config) in
    elim (consider_all playback c (alt_settings config) none) [
      | none ↦ none
      | some choice ↦ some (capture_format playback choice)
    ]
