-- ===== src/Descriptors/Capture/Sound.antt =====
-- The format of selectCaptureAltSetting in src/libusb_uac_driver.cpp against the setting and endpoint
-- that it is for.
use mathlib.Core.List.{Memᴰ}
use liballa.Base.{
  ◌<◌, ◌≡◌, ◌≢◌, refl, ◌⊎◌, inl, inr, true, ◌&&◌, List, [], ◌∷◌, Option, none, some, arith,
  Bool-cases, subst, ◌==◌,
}
use liballa.Descriptors.{
  Endpoint, AltSetting, Config, Control, alt_settings, is_in, is_iso, usage, is_streaming,
}
use liballa.Descriptors.Playback.{StreamFormat}
use liballa.Descriptors.Capture.{
  Choice, read_topology, read_capture, capture_clock, admits, can_capture, replaces, consider,
  consider_all, capture_format, select_capture_alt_setting,
}

-- The format `fmt` records from the isochronous IN endpoint `ep` of the streaming setting `alt`, at
-- the playback's depth, not through its terminal, not on another known clock, and, where playback
-- names a synchronisation endpoint and no feedback endpoint, from that endpoint.
pub record IsCapture (playback : StreamFormat) (alt : AltSetting) (ep : Endpoint)
    (fmt : StreamFormat) : Type 0 where
  pub streaming : is_streaming alt ≡ true
  pub member : Memᴰ ep alt.endpoints
  pub input : (is_iso ep && is_in ep) ≡ true
  pub usage_type : (usage ep ≡ 0) ⊎ (usage ep ≡ 2)
  pub implicit : fmt.implicit_feedback ≡ (usage ep == 2)
  pub same_depth :
      ((read_capture playback.uac_version alt).bits ≡ playback.bits_per_sample)
      × ((read_capture playback.uac_version alt).bytes ≡ playback.bytes_per_sample)
  pub some_channels :
      (0 < fmt.channels) × (fmt.channels ≡ (read_capture playback.uac_version alt).channels)
  pub other_terminal :
      (playback.terminal_link ≡ 0)
      ⊎ ((read_capture playback.uac_version alt).terminal_link ≢ playback.terminal_link)
  pub same_clock :
      (playback.clock_source_id ≡ 0)
      ⊎ ((fmt.clock_source_id ≡ 0) ⊎ (fmt.clock_source_id ≡ playback.clock_source_id))
  pub synchronised :
      (playback.feedback_endpoint_address ≢ 0)
      ⊎ ((playback.sync_endpoint_address ≡ 0) ⊎ (ep.address ≡ playback.sync_endpoint_address))
  pub same_endpoint :
      (fmt.interface_number ≡ alt.interface_number)
      × (fmt.alt_setting ≡ alt.alternate_setting)
      × (fmt.endpoint_address ≡ ep.address)
      × (fmt.max_packet_size ≡ ep.max_packet_size)
      × (fmt.interval ≡ ep.interval)

module _ (playback : StreamFormat) (c : Control) where
  data IsSound (alts : List AltSetting) : Option Choice → Type 0 where
    no_choice : IsSound alts none
    a_choice :
        (choice : Choice)
        → Memᴰ choice.alt alts
        → IsCapture playback choice.alt choice.endpoint (capture_format playback choice)
        → IsSound alts (some choice)

  candidate_captures :
      (alt : AltSetting) (ep : Endpoint)
      → admits playback c alt ≡ true
      → can_capture playback ep ≡ true
      → Memᴰ ep alt.endpoints
      → let s = read_capture playback.uac_version alt in
        IsCapture playback alt ep (
          capture_format playback (record {
            alt = alt;
            endpoint = ep;
            implicit_feedback = usage ep == 2;
            channels = s.channels;
            clock = capture_clock c s.terminal_link;
          }))
  unfolding admits can_capture
  candidate_captures alt ep a h m = record {
    streaming = ground arith;
    member = m;
    input = ground arith;
    usage_type = ground arith;
    implicit = refl;
    same_depth = ground arith;
    some_channels = ground arith;
    other_terminal = ground arith;
    same_clock = ground arith;
    synchronised = ground arith;
    same_endpoint = (refl, refl, refl, refl, refl);
  }

  consider-IsSound :
      (alts : List AltSetting) (alt : AltSetting) (endpoints : List Endpoint)
      (choice : Option Choice)
      → Memᴰ alt alts
      → admits playback c alt ≡ true
      → ((ep : Endpoint) → Memᴰ ep endpoints → Memᴰ ep alt.endpoints)
      → IsSound alts choice
      → IsSound alts (consider playback c alt endpoints choice)
  unfolding consider
  consider-IsSound alts alt [] choice m a inside sound = sound
  consider-IsSound alts alt (ep ∷ endpoints) choice m a inside sound =
      consider-IsSound alts alt endpoints _ m a (λ e n. inside e (Memᴰ.tail n))
        (elim (Bool-cases (can_capture playback ep && replaces ep choice)) [
          | inl t ↦
              let h : can_capture playback ep ≡ true = ground arith in
              let captures = candidate_captures alt ep a h (inside ep (Memᴰ.head refl)) in
              rw t (a_choice _ m captures)
          | inr f ↦ rw f sound
        ])

  consider_all-IsSound :
      (whole alts : List AltSetting) (choice : Option Choice)
      → ((alt : AltSetting) → Memᴰ alt alts → Memᴰ alt whole)
      → IsSound whole choice
      → IsSound whole (consider_all playback c alts choice)
  unfolding consider_all
  consider_all-IsSound whole [] choice inside sound = sound
  consider_all-IsSound whole (alt ∷ alts) choice inside sound =
      consider_all-IsSound whole alts _ (λ b n. inside b (Memᴰ.tail n))
        (elim (Bool-cases (admits playback c alt)) [
          | inl t ↦ rw t (
              consider-IsSound whole alt alt.endpoints choice (inside alt (Memᴰ.head refl)) t
                (λ e n. n) sound)
          | inr f ↦ rw f sound
        ])

-- A format that `selectCaptureAltSetting` returns is that of a streaming setting of the configuration
-- and one of its isochronous IN endpoints with the usage data or implicit feedback: the setting has
-- the playback's depth, at least one channel, another terminal and no other known clock, and the
-- endpoint is the one that playback synchronises with, if it names one and has no feedback endpoint.
pub select_capture_alt_setting_sound :
    (config : Config) (playback fmt : StreamFormat)
    → select_capture_alt_setting (some config) playback ≡ some fmt
    → (alt : AltSetting) × Memᴰ alt (alt_settings config)
      × (ep : Endpoint) × IsCapture playback alt ep fmt
unfolding select_capture_alt_setting
select_capture_alt_setting_sound config playback fmt h =
    let c = read_topology playback.uac_version (alt_settings config) in
    found (consider_all playback c (alt_settings config) none)
      (consider_all-IsSound playback c (alt_settings config) (alt_settings config) none (λ b n. n)
        no_choice)
      h
  where
    found :
        (result : Option Choice)
        → IsSound playback
            (read_topology playback.uac_version (alt_settings config))
            (alt_settings config)
            result
        → (elim result as (λ x. Option StreamFormat) [
          | none ↦ none
          | some choice ↦ some (capture_format playback choice)
        ])
          ≡ some fmt
        → (alt : AltSetting) × Memᴰ alt (alt_settings config)
          × (ep : Endpoint) × IsCapture playback alt ep fmt
    found none sound e = cc
    found (some choice) (a_choice _ m captures) e =
        let same : capture_format playback choice ≡ fmt = cc e in
        (
          choice.alt,
          m,
          choice.endpoint,
          subst (IsCapture playback choice.alt choice.endpoint) same captures,
        )
