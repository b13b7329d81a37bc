-- ===== src/Waits.antt =====
-- The wait loops of src/libusb_uac_driver.cpp on the wake channels: the driver's state is what other
-- threads make of it, as each round sees it, and the clock is what the round reads. A wake channel is
-- an eventfd: its counter makes poll return at once while it is above 0, and drain sets it to 0. The
-- channels are open. `none`: the rounds ran out, or the wait has no deadline and no signal comes, so
-- the call still waits.
pub mod Ends
mod Tests
use liballa.Base.{
  ℕ, ◌+◌, Bool, true, false, ◌&&◌, not, List, [], ◌∷◌, Option, none, some, ◌==◌, if◌then◌else◌,
}
use liballa.Base.Int.{ℤ, pos, ◌-ℤ◌, ltb_ℤ, leb_ℤ}
use liballa.Playback.{Playback, writable_frames, writable_to_target_frames}
use liballa.Capture.{Capture, capture_available_frames}
use liballa.Credit.{Credit, floor}

-- A round: the state at the loop's test, whether streaming_ holds and, for playback, no transport has
-- failed, the milliseconds that remain, the signals until poll returns, and the state at the return,
-- if the loop is left in this round.
pub record Round (A : Type 0) : Type 0 where
  pub seen : A
  pub running : Bool
  pub remaining : ℤ
  pub signals : ℕ
  pub seen_after : A

-- The loop that the five waits share; `short` is its test on the state. The result is the state at
-- the return.
unfoldable pub wait_loop : {A : Type 0} → (A → Bool) → Bool → Bool → ℕ → List (Round A) → Option A
wait_loop short bounded drained pending [] = none
wait_loop short bounded drained pending (r ∷ rounds) =
    let rest =
      wait_loop short bounded drained (if drained then 0 else pending + r.signals) rounds in
    if short r.seen && r.running
    then if bounded && leb_ℤ r.remaining (pos 0)
      then some r.seen_after
      else if pending + r.signals == 0
      then if bounded then some r.seen_after else none
      else rest
    else some r.seen_after

abbrev pub answer : {A : Type 0} → (A → Bool) → Option A → Option Bool
answer test none = none
answer test (some a) = some (test a)

-- LibusbUacDriver::waitForCaptureFrames
unfoldable pub wait_for_capture_frames : ℤ → ℤ → ℕ → List (Round Capture) → Option Bool
wait_for_capture_frames frames timeout pending rounds =
    if leb_ℤ frames (pos 0)
    then some true
    else answer (λ c. leb_ℤ frames (capture_available_frames c))
        (wait_loop (λ c. ltb_ℤ (capture_available_frames c) frames) (ltb_ℤ (pos 0) timeout) true
          pending rounds)

-- LibusbUacDriver::waitForCaptureFramesUntil
unfoldable pub wait_for_capture_frames_until : ℤ → ℕ → List (Round Capture) → Option Bool
wait_for_capture_frames_until frames pending rounds =
    if leb_ℤ frames (pos 0)
    then some true
    else answer (λ c. leb_ℤ frames (capture_available_frames c))
        (wait_loop (λ c. ltb_ℤ (capture_available_frames c) frames) true true pending rounds)

-- LibusbUacDriver::waitForWritableFrames
unfoldable pub wait_for_writable_frames : ℤ → ℤ → ℕ → List (Round Playback) → Option Bool
wait_for_writable_frames frames timeout pending rounds =
    if leb_ℤ frames (pos 0)
    then some true
    else answer (λ p. leb_ℤ frames (writable_frames p))
        (wait_loop (λ p. ltb_ℤ (writable_frames p) frames) (ltb_ℤ (pos 0) timeout) true pending
          rounds)

-- LibusbUacDriver::waitForWritableFramesUntil, which does not drain the channel
unfoldable pub wait_for_writable_frames_until : ℤ → ℕ → List (Round Playback) → Option Bool
wait_for_writable_frames_until frames pending rounds =
    if leb_ℤ frames (pos 0)
    then some true
    else answer (λ p. leb_ℤ frames (writable_frames p))
        (wait_loop (λ p. ltb_ℤ (writable_to_target_frames p) frames) true false pending rounds)

-- LibusbUacDriver::waitForPlaybackCreditUntil, which does not drain it either; the floor is that of
-- the state `start` at the call.
unfoldable pub wait_for_playback_credit_until : ℤ → Credit → ℕ → List (Round Credit) → Option Bool
wait_for_playback_credit_until frames start pending rounds =
    if leb_ℤ frames (pos 0)
    then some true
    else if not start.started
    then some true
    else answer (λ c. leb_ℤ (floor start) (c.credit -ℤ frames))
        (wait_loop (λ c. ltb_ℤ (c.credit -ℤ frames) (floor start)) true false pending rounds)
