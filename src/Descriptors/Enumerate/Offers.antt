-- ===== src/Descriptors/Enumerate/Offers.antt =====
-- The list of enumerateFormats in src/libusb_uac_driver.cpp.
use liballa.Base.{
  ℕ, ◌*◌, ◌≤◌, ◌≡◌, refl, inl, inr, Bool, true, false, List, [], ◌∷◌, ◌++◌, Option, none, some,
  arith, Bool-cases, leb, if◌then◌else◌, get_elem?,
}
use liballa.Descriptors.{Config, AltSetting, alt_settings}
use liballa.Descriptors.Enumerate.{
  UsbFormatCandidate, Uac2Depth, add_rates, read_out, read_streams, has_depth, keep_out, uac1_rates,
  read_clocks, common_rates, enumerate_config, enumerate_formats, OutAlt,
}
use liballa.Descriptors.Enumerate.OfferList.{
  IsOffer, IsOfferList, IsFit, AllFit, no_depths, one_depth, acceptable-IsOffer, push-IsOfferList,
  add_rates-IsOfferList, add_clocks-IsOfferList,
}

AllFit-append : (ds : List Uac2Depth) (d : Uac2Depth) → AllFit ds → IsFit d → AllFit (ds ++ d ∷ [])
AllFit-append [] d no_depths fit = one_depth fit no_depths
AllFit-append (e ∷ ds) d (one_depth h hs) fit = one_depth h (AllFit-append ds d hs fit)

abbrev fits_in : Option (Uac2Depth × List ℕ × ℕ) → Bool
fits_in none = true
fits_in (some (d, p, len)) = leb d.bits (8 * d.bytes)

fits_in-keep_out :
    (alt : AltSetting) (s : OutAlt) (fmt : Option (List ℕ × ℕ))
    → fits_in (keep_out alt s fmt) ≡ true
unfolding keep_out
fits_in-keep_out alt s none = refl
fits_in-keep_out alt s (some (p, len)) = elim (Bool-cases (has_depth alt s)) [
  | inl e ↦ let fit : leb s.bits (8 * s.bytes) ≡ true = ground arith in rw e fit
  | inr e ↦ rw e
]

-- One setting, with what is known of those that follow.
stream_step :
    (version : ℕ) (alts : List AltSetting) (depths : List Uac2Depth)
    (result : List UsbFormatCandidate) (out : Option (Uac2Depth × List ℕ × ℕ))
    → fits_in out ≡ true
    → ((ds : List Uac2Depth) (fs : List UsbFormatCandidate)
        → AllFit ds
        → IsOfferList fs
        → AllFit (read_streams version alts ds fs).0
          × IsOfferList (read_streams version alts ds fs).1)
    → AllFit depths
    → IsOfferList result
    → let (depths', result') = elim out as (λ x. List Uac2Depth × List UsbFormatCandidate) [
      | none ↦ read_streams version alts depths result
      | some (depth, p, len) ↦
          if leb 0x0200 version
          then read_streams version alts (depths ++ depth ∷ []) result
          else read_streams version alts depths (add_rates (uac1_rates p len) (depth ∷ []) result)
    ] in
      AllFit depths' × IsOfferList result'
unfolding IsFit
stream_step version alts depths result none h later fits v = later depths result fits v
stream_step version alts depths result (some (d, p, len)) h later fits v =
    let fit : d.bits ≤ 8 * d.bytes = ground arith in
    elim (Bool-cases (leb 0x0200 version)) [
      | inl e ↦ rw e (later _ _ (AllFit-append depths d fits fit) v)
      | inr e ↦ rw e (
          later _ _ fits
            (add_rates-IsOfferList (uac1_rates p len) (d ∷ []) result (one_depth fit no_depths) v))
    ]

read_streams-IsOfferList :
    (version : ℕ) (alts : List AltSetting) (depths : List Uac2Depth)
    (result : List UsbFormatCandidate)
    → AllFit depths
    → IsOfferList result
    → AllFit (read_streams version alts depths result).0
      × IsOfferList (read_streams version alts depths result).1
unfolding read_streams read_out
read_streams-IsOfferList version [] depths result fits v = (fits, v)
read_streams-IsOfferList version (alt ∷ alts) depths result fits v =
    stream_step version alts depths result _ (fits_in-keep_out alt _ _)
      (λ ds fs a b. read_streams-IsOfferList version alts ds fs a b) fits v

nothing-IsOfferList : IsOfferList []
nothing-IsOfferList = record { offers = λ i f h. cc; distinct = λ i j f h k. cc }

either-IsOfferList :
    (b : Bool) {x y : List UsbFormatCandidate}
    → IsOfferList x
    → IsOfferList y
    → IsOfferList (if b then x else y)
either-IsOfferList true vx vy = vx
either-IsOfferList false vx vy = vy

enumerate_config-IsOfferList :
    (get_range : ℕ → List ℕ) (config : Config) → IsOfferList (enumerate_config get_range config)
unfolding enumerate_config
enumerate_config-IsOfferList get_range config =
    let c =
      read_clocks (alt_settings config)
        (record { control_iface = 0xFF; uac_version = 0x0200; clocks = [] }) in
    let (fits, v) =
      read_streams-IsOfferList c.uac_version (alt_settings config) [] [] no_depths
        nothing-IsOfferList in
    let asked = either-IsOfferList _ (add_clocks-IsOfferList get_range c.clocks _ _ fits v) v in
    either-IsOfferList _ (add_rates-IsOfferList common_rates _ _ fits asked) asked

enumerate_formats-IsOfferList :
    (get_range : ℕ → List ℕ) (is_open line6 : Bool) (config : Option Config)
    → IsOfferList (enumerate_formats get_range is_open line6 config)
unfolding enumerate_formats
enumerate_formats-IsOfferList get_range false line6 config = nothing-IsOfferList
enumerate_formats-IsOfferList get_range true true config =
    push-IsOfferList _ [] (acceptable-IsOffer _ refl (omega arith)) refl nothing-IsOfferList
enumerate_formats-IsOfferList get_range true false none = nothing-IsOfferList
enumerate_formats-IsOfferList get_range true false (some config) =
    enumerate_config-IsOfferList get_range config

-- Each candidate that `enumerateFormats` lists, whatever the descriptors and the answers of the
-- clocks hold, has a rate above 0, 16, 24 or 32 bits that fit in at most 4 bytes, and at least two
-- channels, and it is listed once.
pub enumerate_formats_offers :
    (get_range : ℕ → List ℕ) (is_open line6 : Bool) (config : Option Config) (i j : ℕ)
    (f : UsbFormatCandidate)
    → get_elem? (enumerate_formats get_range is_open line6 config) i ≡ some f
    → get_elem? (enumerate_formats get_range is_open line6 config) j ≡ some f
    → IsOffer f × (i ≡ j)
enumerate_formats_offers get_range is_open line6 config i j f h k =
    let v = enumerate_formats-IsOfferList get_range is_open line6 config in
    (v.offers i f h, v.distinct i j f h k)
