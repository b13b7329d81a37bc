-- ===== src/Descriptors/Capture/Selected.antt =====
-- What selectCaptureAltSetting of src/libusb_uac_driver.cpp chooses.
use mathlib.Core.List.{Memᴰ}
use liballa.Base.{
  ℕ, ◌≤◌, ◌<◌, ◌≡◌, refl, sym, ap, ◌∙◌, ◌⊎◌, inl, inr, Bool, true, false, ◌&&◌, ◌||◌, not, List, [],
  ◌∷◌, Option, none, some, arith, Bool-cases, subst, ◌==◌, if◌then◌else◌,
}
use liballa.Descriptors.{Endpoint, AltSetting, Config, Control, alt_settings, usage}
use liballa.Descriptors.Playback.{StreamFormat}
use liballa.Descriptors.Capture.{
  Choice, read_topology, read_capture, capture_clock, admits, can_capture, replaces, consider,
  consider_all, capture_format, select_capture_alt_setting,
}

-- Implicit feedback is worth more than a plain endpoint, and that more than none.
abbrev worth : Bool → ℕ
worth implicit = if implicit then 2 else 1

abbrev rank : Option Choice → ℕ
rank none = 0
rank (some choice) = worth choice.implicit_feedback

some_worth : (b : Bool) → 0 < worth b
some_worth true = omega arith
some_worth false = omega arith

worth_implicit : (a b : Bool) → worth b ≤ worth a → (a || not b) ≡ true
worth_implicit true b h = refl
worth_implicit false true h = absurd (omega arith)
worth_implicit false false h = refl

module _ (playback : StreamFormat) (c : Control) where
  abbrev taken : AltSetting → Endpoint → Choice
  taken alt ep =
      let s = read_capture playback.uac_version alt in
      record {
        alt = alt;
        endpoint = ep;
        implicit_feedback = usage ep == 2;
        channels = s.channels;
        clock = capture_clock c s.terminal_link;
      }

  -- The choice after an endpoint.
  abbrev next : AltSetting → Endpoint → Option Choice → Option Choice
  next alt ep choice =
      if can_capture playback ep && replaces ep choice then some (taken alt ep) else choice

  -- One endpoint: the rank never falls, and reaches the endpoint's own.
  rank_cases :
      (alt : AltSetting) (ep : Endpoint) (choice : Option Choice) (able : Bool)
      → let next = if able && replaces ep choice then some (taken alt ep) else choice in
        (rank choice ≤ rank next) × ((able ≡ false) ⊎ (worth (usage ep == 2) ≤ rank next))
  rank_cases alt ep none true = (omega arith, inr (omega arith))
  rank_cases alt ep (some choice) true = elim (Bool-cases (usage ep == 2)) [
    | inl e ↦ rw e (ground arith)
    | inr e ↦ rw e (ground arith)
  ]
  rank_cases alt ep choice false = (omega arith, inl refl)

  rank-consider :
      (alt : AltSetting) (endpoints : List Endpoint) (choice : Option Choice)
      → rank choice ≤ rank (consider playback c alt endpoints choice)
  unfolding consider
  rank-consider alt [] choice = omega arith
  rank-consider alt (ep ∷ endpoints) choice =
      let (grows, _) = rank_cases alt ep choice (can_capture playback ep) in
      let rest = rank-consider alt endpoints (next alt ep choice) in omega (arith, grows, rest)

  consider_reaches :
      (alt : AltSetting) (endpoints : List Endpoint) (choice : Option Choice) (ep : Endpoint)
      → Memᴰ ep endpoints
      → can_capture playback ep ≡ true
      → worth (usage ep == 2) ≤ rank (consider playback c alt endpoints choice)
  unfolding consider
  consider_reaches alt [] choice ep m h = elim m [ ]
  consider_reaches alt (e ∷ endpoints) choice ep (Memᴰ.head same) h =
      let here : can_capture playback e ≡ true = ap (can_capture playback) (sym same) ∙ h in
      let value : worth (usage ep == 2) ≡ worth (usage e == 2) =
        ap (λ (x : Endpoint). worth (usage x == 2)) same in
      let rest = rank-consider alt endpoints (next alt e choice) in
      elim (rank_cases alt e choice (can_capture playback e)).1 [
        | inl unable ↦ cc
        | inr reached ↦ omega (arith, value, reached, rest)
      ]
  consider_reaches alt (e ∷ endpoints) choice ep (Memᴰ.tail m) h =
      consider_reaches alt endpoints (next alt e choice) ep m h

  abbrev next_alt : AltSetting → Option Choice → Option Choice
  next_alt alt choice =
      if admits playback c alt then consider playback c alt alt.endpoints choice else choice

  rank-next_alt :
      (alt : AltSetting) (choice : Option Choice) → rank choice ≤ rank (next_alt alt choice)
  rank-next_alt alt choice =
      let grows = rank-consider alt alt.endpoints choice in
      elim (Bool-cases (admits playback c alt)) [ inl e ↦ rw e grows | inr e ↦ rw e (omega arith) ]

  rank-consider_all :
      (alts : List AltSetting) (choice : Option Choice)
      → rank choice ≤ rank (consider_all playback c alts choice)
  unfolding consider_all
  rank-consider_all [] choice = omega arith
  rank-consider_all (alt ∷ alts) choice =
      let first = rank-next_alt alt choice in
      let rest = rank-consider_all alts (next_alt alt choice) in omega (arith, first, rest)

  consider_all_reaches :
      (alts : List AltSetting) (choice : Option Choice) (alt : AltSetting) (ep : Endpoint)
      → Memᴰ alt alts
      → admits playback c alt ≡ true
      → Memᴰ ep alt.endpoints
      → can_capture playback ep ≡ true
      → worth (usage ep == 2) ≤ rank (consider_all playback c alts choice)
  unfolding consider_all
  consider_all_reaches [] choice alt ep m a n h = elim m [ ]
  consider_all_reaches (b ∷ alts) choice alt ep (Memᴰ.tail m) a n h =
      consider_all_reaches alts (next_alt b choice) alt ep m a n h
  consider_all_reaches (b ∷ alts) choice alt ep (Memᴰ.head same) a n h =
      let here : admits playback c b ≡ true = ap (admits playback c) (sym same) ∙ a in
      let inside = subst (λ (x : AltSetting). Memᴰ ep x.endpoints) same n in
      let reached = consider_reaches b b.endpoints choice ep inside h in
      let chosen : worth (usage ep == 2) ≤ rank (next_alt b choice) = rw here reached in
      let rest = rank-consider_all alts (next_alt b choice) in omega (arith, chosen, rest)

-- If some endpoint of a setting passes the tests, then `selectCaptureAltSetting` finds a format, and
-- it has implicit feedback if that endpoint gives implicit feedback.
pub select_capture_alt_setting_prefers :
    (config : Config) (playback : StreamFormat) (alt : AltSetting) (ep : Endpoint)
    → Memᴰ alt (alt_settings config)
    → admits playback (read_topology playback.uac_version (alt_settings config)) alt ≡ true
    → Memᴰ ep alt.endpoints
    → can_capture playback ep ≡ true
    → (fmt : StreamFormat) × (select_capture_alt_setting (some config) playback ≡ some fmt)
      × ((fmt.implicit_feedback || not (usage ep == 2)) ≡ true)
unfolding select_capture_alt_setting
select_capture_alt_setting_prefers config playback alt ep m a n h =
    let c = read_topology playback.uac_version (alt_settings config) in
    found (consider_all playback c (alt_settings config) none)
      (consider_all_reaches playback c (alt_settings config) none alt ep m a n h)
  where
    found :
        (result : Option Choice)
        → worth (usage ep == 2) ≤ rank result
        → (fmt : StreamFormat) × ((elim result as (λ x. Option StreamFormat) [
          | none ↦ none
          | some choice ↦ some (capture_format playback choice)
        ])
            ≡ some fmt)
          × ((fmt.implicit_feedback || not (usage ep == 2)) ≡ true)
    found none reached = absurd (omega (arith, some_worth (usage ep == 2), reached))
    found (some choice) reached =
        (_, refl, worth_implicit choice.implicit_feedback (usage ep == 2) reached)
