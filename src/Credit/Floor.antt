-- ===== src/Credit/Floor.antt =====
-- takePlaybackCredit of include/liblowlatencyaudio/libusb_uac_driver.h and its floor.
use liballa.Base.{◌≡◌, refl, ◌∙◌, List, [], ◌∷◌, arith}
use liballa.Base.Int.{ℤ, ◌≤ℤ◌, min_ℤ, -ℤ_parts}
use liballa.Credit.{Credit, floor, take_playback_credit}

-- The takes of several quanta in a row, refused ones included.
unfoldable pub take_all : List ℤ → Credit → Credit
take_all [] c = c
take_all (frames ∷ rest) c = take_all rest (take_playback_credit frames c).0

take_keeps :
    (frames : ℤ) (c : Credit)
    → let c' = (take_playback_credit frames c).0 in
      (floor c' ≡ floor c) × (min_ℤ c.credit (floor c) ≤ℤ c'.credit) × (c'.credit ≤ℤ c.credit)
unfolding take_playback_credit
take_keeps frames c = ground (arith, -ℤ_parts c.credit frames)

-- However many quanta ask for credit, the ledger never gets below its floor: it ends at the floor or
-- above, or where it was if it was below the floor before; and taking never raises it.
pub take_all-floor :
    (requests : List ℤ) (c : Credit)
    → let c' = take_all requests c in
      (floor c' ≡ floor c) × (min_ℤ c.credit (floor c) ≤ℤ c'.credit) × (c'.credit ≤ℤ c.credit)
unfolding take_all
take_all-floor [] c = (refl, ground arith, ground arith)
take_all-floor (frames ∷ rest) c =
    let (same, low, high) = take_keeps frames c in
    let (same', low', high') = take_all-floor rest (take_playback_credit frames c).0 in
    (same' ∙ same, ground (arith, same), ground arith)
