-- ===== src/Credit/Tests.antt =====
-- A ledger 24 frames above its floor, and three quanta of 16 frames.
use liballa.Base.{◌≡◌, refl, true, List, [], ◌∷◌}
use liballa.Base.Int.{ℤ, pos, negsuc, ◌-ℤ◌, ◌≤ℤ◌, min_ℤ}
use liballa.Credit.{Credit, floor, take_playback_credit}
use liballa.Credit.Floor.{take_all, take_all-floor}

abbrev ledger : Credit
ledger = record {
  started = true;
  target_frames = pos 96;
  queued_out_frames = 48;
  reserve = pos 32;
  credit = negsuc 151;
}

abbrev quanta : List ℤ
quanta = pos 16 ∷ pos 16 ∷ pos 16 ∷ []

-- The first quantum is granted, and the others are refused.
one_is_granted : (take_all quanta ledger).credit ≡ negsuc 167
unfolding take_all take_playback_credit ◌-ℤ◌
one_is_granted = refl

take_all-floor_example :
    let c' = take_all quanta ledger in
    (floor c' ≡ floor ledger)
    × (min_ℤ (negsuc 151) (floor ledger) ≤ℤ c'.credit)
    × (c'.credit ≤ℤ negsuc 151)
take_all-floor_example = take_all-floor quanta ledger
