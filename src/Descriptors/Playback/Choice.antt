-- ===== src/Descriptors/Playback/Choice.antt =====
-- What selectAltSetting of src/libusb_uac_driver.cpp chooses.
use mathlib.Core.List.{Memᴰ}
use liballa.Base.{
  ℕ, ◌+◌, ◌-◌, ◌*◌, ◌/◌, ◌≤◌, ◌<◌, ◌≡◌, refl, sym, ap, ◌∙◌, ◌⊎◌, inl, inr, Bool, true, false, List,
  [], ◌∷◌, Option, none, some, arith, Bool-cases, Option-cases, subst, if◌then◌else◌,
}
use native.Mathlib.Nat.{mul-le-mul_right}
use liballa.Scheduling.Packets.{ceil_covers}
use liballa.Descriptors.{
  Endpoint, AltSetting, Config, Control, alt_settings, is_streaming, locate_control,
}
use liballa.Descriptors.Playback.{
  Request, StreamFormat, AltFormat, ClockRateRange, Selection, no_match, chosen, divided_by_zero,
  undefined_shift, sample_bytes, read_format, first_endpoint, is_data_out, packets_per_sec,
  req_bytes_per_packet, real_mps, set_feedback, fill_format, judge, select_from, select_alt_setting,
}

chosen_needs :
    (bad zero_packets too_big : Bool) (out fmt : StreamFormat)
    → (if bad
        then no_match
        else if zero_packets
        then divided_by_zero
        else if too_big
        then no_match
        else chosen out)
      ≡ chosen fmt
    → (bad ≡ false) × (zero_packets ≡ false) × (too_big ≡ false) × (out ≡ fmt)
chosen_needs true zero_packets too_big out fmt h = cc
chosen_needs false true too_big out fmt h = cc
chosen_needs false false true out fmt h = cc
chosen_needs false false false out fmt h = (refl, refl, refl, cc)

chosen_needs_endpoint :
    (bad : Bool) (sel : Selection) (fmt : StreamFormat)
    → ((out : StreamFormat) → sel ≡ chosen out → ⊥)
    → (if bad then no_match else sel) ≡ chosen fmt
    → ⊥
chosen_needs_endpoint true sel fmt never h = cc
chosen_needs_endpoint false sel fmt never h = never fmt h

ceil_fits :
    (rate packets stride room : ℕ)
    → 0 < packets
    → (rate + packets - 1) / packets * stride ≤ room
    → rate * stride ≤ room * packets
ceil_fits rate packets stride room h fits =
    let q = (rate + packets - 1) / packets in
    let one : rate * stride ≤ q * packets * stride =
      mul-le-mul_right stride (ceil_covers rate packets h) in
    let two : q * stride * packets ≤ room * packets = mul-le-mul_right packets fits in
    omega (arith, one, two)

-- The setting `alt` and its endpoint `iso` carry the format `out` that was requested: `iso` is an
-- isochronous OUT data endpoint, the setting's descriptors, read for the UAC version, have the
-- requested channels, bits and rate, and a second of audio fits in a second of its packets. The ranges
-- are those found in earlier settings.
pub record IsMatch (req : Request) (high_speed : Bool) (version : ℕ) (alt : AltSetting)
    (iso : Endpoint) (out : StreamFormat) : Type 0 where
  pub ranges : List ClockRateRange
  pub described :
      let f = read_format req version alt ranges in
      (f.alt_channels ≡ req.channels)
      × (f.alt_bits ≡ req.bits_per_sample)
      × (f.rate_supported ≡ true)
      × (out.bytes_per_sample ≡ sample_bytes req f)
      × (out.terminal_link ≡ f.alt_terminal_link)
  pub streaming : is_streaming alt ≡ true
  pub member : Memᴰ iso alt.endpoints
  pub data_out : is_data_out iso ≡ true
  pub same_request :
      (out.sample_rate ≡ req.sample_rate)
      × (out.bits_per_sample ≡ req.bits_per_sample)
      × (out.channels ≡ req.channels)
  pub same_bytes : (req.bytes_per_sample ≡ 0) ⊎ (out.bytes_per_sample ≡ req.bytes_per_sample)
  pub same_setting :
      (out.interface_number ≡ alt.interface_number) × (out.alt_setting ≡ alt.alternate_setting)
  pub same_endpoint :
      (out.endpoint_address ≡ iso.address)
      × (out.max_packet_size ≡ iso.max_packet_size)
      × (out.interval ≡ iso.interval)
  pub fits :
      (packets : ℕ) × (packets_per_sec high_speed iso.interval ≡ some packets)
      × (0 < packets)
      × (out.sample_rate * (out.bytes_per_sample * out.channels) ≤ real_mps iso * packets)

judge_endpoint :
    (req : Request) (c : Control) (high_speed : Bool) (alt : AltSetting) (f : AltFormat)
    (out fmt : StreamFormat) (found : Option Endpoint)
    → first_endpoint is_data_out alt.endpoints ≡ found
    → judge req c high_speed alt f out ≡ chosen fmt
    → (iso : Endpoint) × (first_endpoint is_data_out alt.endpoints ≡ some iso)
      × (packets : ℕ) × (packets_per_sec high_speed iso.interval ≡ some packets)
      × (0 < packets)
      × (req_bytes_per_packet req f packets ≤ real_mps iso)
      × ((req.bytes_per_sample ≡ 0) ⊎ (f.alt_subslot ≡ req.bytes_per_sample))
      × (f.alt_channels ≡ req.channels)
      × (f.alt_bits ≡ req.bits_per_sample)
      × (f.rate_supported ≡ true)
      × (fill_format req c high_speed alt f iso out ≡ fmt)
unfolding judge
judge_endpoint req c high_speed alt f out fmt none e h =
    absurd (chosen_needs_endpoint _ no_match fmt (λ o n. cc) (rw e at h))
judge_endpoint req c high_speed alt f out fmt (some iso) e h =
    elim (Option-cases (packets_per_sec high_speed iso.interval)) [
      | inl n ↦ absurd (chosen_needs_endpoint _ undefined_shift fmt (λ o m. cc) (rw (e, n) at h))
      | inr (packets, s) ↦
          let (good, some_packets, room, same) = chosen_needs _ _ _ _ fmt (rw (e, s) at h) in
          (
            iso,
            e,
            packets,
            s,
            ground arith,
            ground arith,
            ground arith,
            ground arith,
            ground arith,
            ground arith,
            same,
          )
    ]

first_endpoint_passes :
    (test : Endpoint → Bool) (endpoints : List Endpoint) (ep : Endpoint)
    → first_endpoint test endpoints ≡ some ep
    → Memᴰ ep endpoints × (test ep ≡ true)
first_endpoint_passes test [] ep h = cc
first_endpoint_passes test (e ∷ endpoints) ep h = elim (Bool-cases (test e)) [
  | inl t ↦ let same : e ≡ ep = cc (rw t at h) in (Memᴰ.head (sym same), ap test (sym same) ∙ t)
  | inr t ↦ let (m, t') = first_endpoint_passes test endpoints ep (rw t at h) in (Memᴰ.tail m, t')
]

set_feedback-IsMatch :
    {req : Request} {high_speed : Bool} {version : ℕ} {alt : AltSetting} {iso : Endpoint}
    {out : StreamFormat}
    → (feedback : Option Endpoint) → IsMatch req high_speed version alt iso out
    → IsMatch req high_speed version alt iso (set_feedback feedback out)
set_feedback-IsMatch none m = m
set_feedback-IsMatch (some ep) m = record {
  ranges = m.ranges;
  described = m.described;
  streaming = m.streaming;
  member = m.member;
  data_out = m.data_out;
  same_request = m.same_request;
  same_bytes = m.same_bytes;
  same_setting = m.same_setting;
  same_endpoint = m.same_endpoint;
  fits = m.fits;
}

judge-IsMatch :
    (req : Request) (c : Control) (high_speed : Bool) (alt : AltSetting)
    (ranges : List ClockRateRange) (out fmt : StreamFormat)
    → is_streaming alt ≡ true
    → judge req c high_speed alt (read_format req c.uac_version alt ranges) out ≡ chosen fmt
    → (iso : Endpoint) × IsMatch req high_speed c.uac_version alt iso fmt
unfolding fill_format req_bytes_per_packet
judge-IsMatch req c high_speed alt ranges out fmt streaming h =
    let f = read_format req c.uac_version alt ranges in
    let (
      iso, found, packets, rate_of_packets, some_packets, room, bytes, channels, bits, rate, same,
    ) =
      judge_endpoint req c high_speed alt f out fmt _ refl h in
    let (member, data_out) = first_endpoint_passes is_data_out alt.endpoints iso found in
    (
      iso,
      subst (IsMatch req high_speed c.uac_version alt iso) same (
          set_feedback-IsMatch _ (record {
            ranges = ranges;
            described = (channels, bits, rate, refl, refl);
            streaming = streaming;
            member = member;
            data_out = data_out;
            same_request = (refl, refl, refl);
            same_bytes = ground arith;
            same_setting = (refl, refl);
            same_endpoint = (refl, refl, refl);
            fits = (
              packets,
              rate_of_packets,
              some_packets,
              ceil_fits req.sample_rate _ _ _ some_packets room,
            );
          })),
    )

kept :
    (streaming : Bool) (sel : Selection) (ranges : List ClockRateRange)
    (later : List ClockRateRange × Selection) (fmt : StreamFormat)
    → (if streaming
        then elim sel as (λ x. List ClockRateRange × Selection) [
          | no_match ↦ later
          | chosen out' ↦ (ranges, chosen out')
          | divided_by_zero ↦ (ranges, divided_by_zero)
          | undefined_shift ↦ (ranges, undefined_shift)
        ]
        else later).1
      ≡ chosen fmt
    → ((streaming ≡ true) × (sel ≡ chosen fmt)) ⊎ (later.1 ≡ chosen fmt)
kept true no_match ranges later fmt h = inr h
kept true (chosen out) ranges later fmt h = inl (refl, h)
kept true divided_by_zero ranges later fmt h = cc
kept true undefined_shift ranges later fmt h = cc
kept false sel ranges later fmt h = inr h

select_from-IsMatch :
    (req : Request) (c : Control) (high_speed : Bool) (out : StreamFormat)
    (ranges : List ClockRateRange) (alts : List AltSetting) (fmt : StreamFormat)
    → (select_from req c high_speed out ranges alts).1 ≡ chosen fmt
    → (alt : AltSetting) × Memᴰ alt alts
      × (iso : Endpoint) × IsMatch req high_speed c.uac_version alt iso fmt
unfolding select_from
select_from-IsMatch req c high_speed out ranges [] fmt h = cc
select_from-IsMatch req c high_speed out ranges (alt ∷ alts) fmt h =
    let f = read_format req c.uac_version alt ranges in
    let ranges' = if is_streaming alt then f.supported_rates else ranges in
    elim (kept (is_streaming alt) (judge req c high_speed alt f out) ranges'
      (select_from req c high_speed out ranges' alts) fmt h) [
        | inl (streaming, judged) ↦
            let (iso, found) = judge-IsMatch req c high_speed alt ranges out fmt streaming judged in
            (alt, Memᴰ.head refl, iso, found)
        | inr later ↦
            let (alt', member, iso, found) =
              select_from-IsMatch req c high_speed out ranges' alts fmt later in
            (alt', Memᴰ.tail member, iso, found)
      ]

-- A format that `selectAltSetting` chooses is that of a streaming setting of the configuration and
-- one of its isochronous OUT data endpoints: the setting's descriptors, read for the UAC version of
-- the AudioControl interface, have the requested channels and bits and support the requested rate;
-- the format has the setting's numbers, terminal and bytes per sample, which are the requested ones
-- unless those are 0, the endpoint's address, packet size and interval, and a second of it fits in the
-- packets that the endpoint takes in a second, of which there is one at least.
pub select_alt_setting_sound :
    (config : Config) (high_speed : Bool) (req : Request) (out fmt : StreamFormat)
    (ranges : List ClockRateRange)
    → (select_alt_setting (some config) high_speed req out ranges).1 ≡ chosen fmt
    → (c : Control) × (locate_control (alt_settings config) ≡ some c)
      × (alt : AltSetting) × Memᴰ alt (alt_settings config)
      × (iso : Endpoint) × IsMatch req high_speed c.uac_version alt iso fmt
unfolding select_alt_setting
select_alt_setting_sound config high_speed req out fmt ranges h =
    elim (Option-cases (locate_control (alt_settings config))) [
      | inl n ↦ cc (rw (select_alt_setting, n) at h)
      | inr (c, e) ↦
          let (alt, member, iso, match) =
            select_from-IsMatch req c high_speed out ranges (alt_settings config) fmt
              (rw (select_alt_setting, e) at h) in
          (c, e, alt, member, iso, match)
    ]
