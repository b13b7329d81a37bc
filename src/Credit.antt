-- ===== src/Credit.antt =====
-- The playback credit of include/liblowlatencyaudio/libusb_uac_driver.h: completions grant it, and a
-- published quantum spends it, down to a floor below which the producer waits.
pub mod Floor
mod Tests
use liballa.Base.{ℕ, Bool, true, false, not, ◌||◌, if◌then◌else◌}
use liballa.Base.Int.{ℤ, pos, ◌-ℤ◌, ltb_ℤ, leb_ℤ}

pub record Credit : Type 0 where
  pub started : Bool
  pub target_frames : ℤ
  pub queued_out_frames : ℕ
  pub reserve : ℤ
  pub credit : ℤ

-- The floor: the intended depth, the frames at USB and the reserve, below zero.
abbrev pub floor : Credit → ℤ
floor c = pos 0 -ℤ c.target_frames -ℤ pos c.queued_out_frames -ℤ c.reserve

-- LibusbUacDriver::setPlaybackCreditReserve
unfoldable pub set_playback_credit_reserve : ℤ → Credit → Credit
set_playback_credit_reserve frames c = record c {
  reserve = if ltb_ℤ frames (pos 0) then pos 0 else frames;
}

-- LibusbUacDriver::chargePlaybackCredit
unfoldable pub charge_playback_credit : ℤ → Credit → Credit
charge_playback_credit frames c =
    if leb_ℤ frames (pos 0)
    then c
    else if not c.started
    then c
    else record c { credit = c.credit -ℤ frames }

-- LibusbUacDriver::takePlaybackCredit
unfoldable pub take_playback_credit : ℤ → Credit → Credit × Bool
take_playback_credit frames c =
    if leb_ℤ frames (pos 0)
    then (c, true)
    else if not c.started
    then (c, true)
    else if leb_ℤ (floor c) (c.credit -ℤ frames)
    then (record c { credit = c.credit -ℤ frames }, true)
    else (c, false)
