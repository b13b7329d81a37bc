-- ===== src/Descriptors/Enumerate/OfferList.antt =====
-- How `add` of enumerateFormats keeps the list in src/libusb_uac_driver.cpp.
use liballa.Base.{
  ℕ, zero, suc, ◌*◌, ◌≤◌, ◌≡◌, refl, sym, ap, ◌∙◌, ◌⊎◌, inl, inr, true, false, ◌&&◌, not, List, [],
  ◌∷◌, ◌++◌, some, arith, Bool-cases, subst, length, get_elem?,
}
use liballa.Base.Int.{ℤ, pos, ◌<ℤ◌}
use liballa.Descriptors.Enumerate.{
  UsbFormatCandidate, Uac2Depth, same_candidate, listed, acceptable, add, add_depths, add_rates,
  add_ranges, add_clocks,
}

-- A format that can be played: a sample fits in its bytes.
pub record IsOffer (f : UsbFormatCandidate) : Type 0 where
  pub rate : pos 0 <ℤ f.sample_rate
  pub bits : (f.bits_per_sample ≡ 16) ⊎ ((f.bits_per_sample ≡ 24) ⊎ (f.bits_per_sample ≡ 32))
  pub bytes : (f.bits_per_sample ≤ 8 * f.bytes_per_sample) × (f.bytes_per_sample ≤ 4)
  pub channels : 2 ≤ f.channels

pub record IsOfferList (result : List UsbFormatCandidate) : Type 0 where
  pub offers : (i : ℕ) (f : UsbFormatCandidate) → get_elem? result i ≡ some f → IsOffer f
  pub distinct :
      (i j : ℕ) (f : UsbFormatCandidate)
      → get_elem? result i ≡ some f
      → get_elem? result j ≡ some f
      → i ≡ j

unfoldable pub IsFit : Uac2Depth → Type 0
IsFit d = d.bits ≤ 8 * d.bytes

pub data AllFit : List Uac2Depth → Type 0 where
  no_depths : AllFit []
  one_depth : {d : Uac2Depth} {ds : List Uac2Depth} → IsFit d → AllFit ds → AllFit (d ∷ ds)

same_candidate_refl : (f : UsbFormatCandidate) → same_candidate f f ≡ true
same_candidate_refl f = ground arith

listed_lem :
    (f : UsbFormatCandidate) (result : List UsbFormatCandidate) (i : ℕ)
    → get_elem? result i ≡ some f
    → listed f result ≡ true
listed_lem f [] i h = cc
listed_lem f (g ∷ result) zero h = let same : g ≡ f = cc h in rw same (rw (same_candidate_refl f))
listed_lem f (g ∷ result) (suc i) h = elim (Bool-cases (same_candidate g f)) [
  | inl e ↦ rw e
  | inr e ↦ rw e (listed_lem f result i h)
]

append_cases :
    (xs : List UsbFormatCandidate) (y : UsbFormatCandidate) (i : ℕ) (f : UsbFormatCandidate)
    → get_elem? (xs ++ y ∷ []) i ≡ some f
    → (get_elem? xs i ≡ some f) ⊎ ((i ≡ length xs) × (y ≡ f))
append_cases [] y zero f h = inr (refl, cc h)
append_cases [] y (suc i) f h = cc
append_cases (x ∷ xs) y zero f h = inl h
append_cases (x ∷ xs) y (suc i) f h = elim (append_cases xs y i f h) [
  | inl e ↦ inl e
  | inr (e, same) ↦ inr (ap suc e, same)
]

pub acceptable-IsOffer :
    (f : UsbFormatCandidate)
    → acceptable f ≡ true
    → f.bits_per_sample ≤ 8 * f.bytes_per_sample
    → IsOffer f
acceptable-IsOffer f h fit = record {
  rate = ground arith;
  bits = ground arith;
  bytes = (fit, ground arith);
  channels = ground arith;
}

pub push-IsOfferList :
    (f : UsbFormatCandidate) (result : List UsbFormatCandidate)
    → IsOffer f
    → listed f result ≡ false
    → IsOfferList result
    → IsOfferList (result ++ f ∷ [])
push-IsOfferList f result offer fresh v = record {
  offers = λ i g h. elim (append_cases result f i g h) [
    | inl e ↦ v.offers i g e
    | inr (_, same) ↦ subst IsOffer same offer
  ];
  distinct = λ i j g h k. elim (append_cases result f i g h) [
    | inl e ↦ elim (append_cases result f j g k) [
      | inl e' ↦ v.distinct i j g e e'
      | inr (_, same) ↦ absurd (clash g i same e)
    ]
    | inr (at_end, same) ↦ elim (append_cases result f j g k) [
      | inl e' ↦ absurd (clash g j same e')
      | inr (at_end', _) ↦ at_end ∙ sym at_end'
    ]
  ];
}
  where
    clash : (g : UsbFormatCandidate) (i : ℕ) → f ≡ g → get_elem? result i ≡ some g → ⊥
    clash g i same e = let there = listed_lem f result i (e ∙ ap some (sym same)) in cc

add-IsOfferList :
    (f : UsbFormatCandidate) (result : List UsbFormatCandidate)
    → f.bits_per_sample ≤ 8 * f.bytes_per_sample
    → IsOfferList result
    → IsOfferList (add f result)
unfolding add
add-IsOfferList f result fit v = elim (Bool-cases (acceptable f && not (listed f result))) [
  | inr e ↦ rw e v
  | inl e ↦
      let able : acceptable f ≡ true = ground arith in
      let fresh : listed f result ≡ false = ground arith in
      rw e (push-IsOfferList f result (acceptable-IsOffer f able fit) fresh v)
]

add_depths-IsOfferList :
    (rate : ℤ) (depths : List Uac2Depth) (result : List UsbFormatCandidate)
    → AllFit depths
    → IsOfferList result
    → IsOfferList (add_depths rate depths result)
unfolding add_depths IsFit
add_depths-IsOfferList rate [] result no_depths v = v
add_depths-IsOfferList rate (d ∷ ds) result (one_depth fit fits) v =
    add_depths-IsOfferList rate ds _ fits (add-IsOfferList _ result fit v)

pub add_rates-IsOfferList :
    (rates : List ℤ) (depths : List Uac2Depth) (result : List UsbFormatCandidate)
    → AllFit depths
    → IsOfferList result
    → IsOfferList (add_rates rates depths result)
unfolding add_rates
add_rates-IsOfferList [] depths result fits v = v
add_rates-IsOfferList (rate ∷ rates) depths result fits v =
    add_rates-IsOfferList rates depths _ fits (add_depths-IsOfferList rate depths result fits v)

add_ranges-IsOfferList :
    (ranges : List (ℕ × ℕ × ℕ)) (depths : List Uac2Depth) (result : List UsbFormatCandidate)
    → AllFit depths
    → IsOfferList result
    → IsOfferList (add_ranges ranges depths result)
unfolding add_ranges
add_ranges-IsOfferList [] depths result fits v = v
add_ranges-IsOfferList ((lo, hi, step) ∷ ranges) depths result fits v =
    add_ranges-IsOfferList ranges depths _ fits (add_rates-IsOfferList _ depths result fits v)

pub add_clocks-IsOfferList :
    (get_range : ℕ → List ℕ) (ids : List ℕ) (depths : List Uac2Depth)
    (result : List UsbFormatCandidate)
    → AllFit depths
    → IsOfferList result
    → IsOfferList (add_clocks get_range ids depths result)
unfolding add_clocks
add_clocks-IsOfferList get_range [] depths result fits v = v
add_clocks-IsOfferList get_range (id ∷ ids) depths result fits v =
    add_clocks-IsOfferList get_range ids depths _ fits
      (add_ranges-IsOfferList _ depths result fits v)
