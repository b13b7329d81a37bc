-- ===== src/Session.antt =====
-- The session of src/libusb_uac_driver.cpp: open, close, start, startDuplex, startPlayback and stop,
-- with the pumps that allocate and submit the transfers, for a device that is no Line6 UX1. What
-- libusb and the system answer in one call is the record `World`. Telemetry, which the source resets
-- here and there, is left out; of the ring only the number of its frames counts here.
pub mod Start
pub mod Held
pub mod Pumps
pub mod Idle
pub mod Resumed
pub mod Claims
pub mod Prepared
pub mod Starting
pub mod Duplex
pub mod Reached
pub mod Closing
pub mod Unwind
pub mod Errors
pub mod Prime
mod Tests
use liballa.Base.{
  ℕ, zero, suc, ◌+◌, ◌-◌, Bool, true, false, ◌&&◌, ◌||◌, not, Option, none, some, ltb, ◌==◌,
  if◌then◌else◌,
}
use liballa.Base.Int.{ℤ, pos, negsuc, ltb_ℤ, leb_ℤ, eqb_ℤ}
use liballa.Descriptors.Playback.{StreamFormat}

pub data StartError : Type 0 where
  ok no_device no_matching_alt claim_interface_failed set_alt_failed set_sample_rate_failed :
      StartError
  iso_pump_alloc_failed iso_pump_submit_failed transport_stopped_unexpectedly unknown : StartError

-- The driver; `held` counts how often libusb has an interface claimed for it.
pub record Session : Type 0 where
  pub is_open : Bool
  pub fd : ℤ
  pub driver_code : ℤ
  pub transfers : ℕ
  pub feedback_transfers : ℕ
  pub capture_transfers : ℕ
  pub inflight : ℕ
  pub capture_inflight : ℕ
  pub pending : ℕ
  pub event_thread : Bool
  pub streaming : Bool
  pub stop_requested : Bool
  pub transport_failed : Bool
  pub playback_started : Bool
  pub capture_active : Bool
  pub interface_claimed : Bool
  pub control_claimed : Bool
  pub capture_claimed : Bool
  pub claimed_control : ℕ
  pub claimed_capture : ℕ
  pub format : StreamFormat
  pub capture_format : StreamFormat
  pub startup_prime : ℤ
  pub buffered : ℤ
  pub transfer_count : ℕ
  pub lifecycle_failures : ℕ
  pub last_error : StartError
  pub held : ℕ → ℕ

-- The answers in one call: how many of some transfers are still in flight after half a second of
-- events; the selected formats; whether claims, alternate settings and the rate are accepted; for
-- each pump whether its endpoint is usable, how many transfers can be allocated, and how many are
-- accepted; whether capture primes the packet sizes in time
-- and its metadata lasts for all initial packets, the frames to prime, and those that the
-- first packets take.
pub record World : Type 0 where
  pub left : ℕ → ℕ
  pub left_capture : ℕ → ℕ
  pub context : Bool
  pub wrapped : Bool
  pub wakes : Bool
  pub selected : Option StreamFormat
  pub claims : Bool
  pub claims_control : Bool
  pub sets_alt : Bool
  pub sets_rate : Option ℕ
  pub capture_selected : Option StreamFormat
  pub claims_capture : Bool
  pub sets_capture_alt : Bool
  pub capture_usable : Bool
  pub capture_allocates : ℕ
  pub capture_accepts : ℕ
  pub primes : Bool
  pub metadata_lasts : Bool
  pub usable : Bool
  pub allocates : ℕ
  pub allocates_feedback : ℕ
  pub accepts : ℕ
  pub prime : ℤ
  pub initial_frames : ℤ

-- libusb_claim_interface, where it succeeds, and libusb_release_interface
abbrev pub claim : ℕ → (ℕ → ℕ) → ℕ → ℕ
claim i held n = if n == i then held n + 1 else held n

abbrev pub release : ℕ → (ℕ → ℕ) → ℕ → ℕ
release i held n = if n == i then held n - 1 else held n

-- A failed step: the error, and the result false.
abbrev pub fail : StartError → Session → Session × Bool
fail e s = (record s { last_error = e }, false)

-- LibusbUacDriver::stopIsoPump
unfoldable pub stop_iso_pump : World → Session → Session × Bool
stop_iso_pump w s =
    let n = w.left s.inflight in
    if n == 0
    then (
      record s {
        stop_requested = true;
        inflight = 0;
        event_thread = false;
        pending = 0;
        transfers = 0;
        feedback_transfers = 0;
        playback_started = false;
      },
      true,
    )
    else (
      record s {
        stop_requested = true;
        inflight = n;
        lifecycle_failures = s.lifecycle_failures + 1;
      },
      false,
    )

-- LibusbUacDriver::stopCapturePump
unfoldable pub stop_capture_pump : World → Session → Session × Bool
stop_capture_pump w s =
    let n = w.left_capture s.capture_inflight in
    if n == 0
    then (record s { capture_inflight = 0; capture_transfers = 0 }, true)
    else (record s { capture_inflight = n; lifecycle_failures = s.lifecycle_failures + 1 }, false)

-- The two pumps, which start and stop halt one after the other.
unfoldable pub stop_pumps : World → Session → Session × Bool
stop_pumps w s =
    let (s', playback_stopped) = stop_iso_pump w s in
    let (s'', capture_stopped) = stop_capture_pump w s' in
    (s'', playback_stopped && capture_stopped)

-- LibusbUacDriver::requestStop
unfoldable pub request_stop : Session → Session
request_stop s = record s { stop_requested = true; capture_active = false; streaming = false }

-- The releases that give an interface back.
unfoldable pub release_stream : Session → Session
release_stream s =
    if s.is_open && s.interface_claimed
    then record s { interface_claimed = false; held = release s.format.interface_number s.held }
    else s

unfoldable pub release_control : Session → Session
release_control s =
    if s.is_open && s.control_claimed
    then record s { control_claimed = false; held = release s.claimed_control s.held }
    else s

unfoldable pub release_capture : Session → Session
release_capture s =
    if s.is_open && s.capture_claimed
    then record s {
      capture_claimed = false;
      claimed_capture = 0xFF;
      held = release s.claimed_capture s.held;
    }
    else s

-- LibusbUacDriver::stop
unfoldable pub stop : World → Session → Session
stop w s =
    let s1 = request_stop s in
    let (s2, stopped) = stop_pumps w s1 in
    if s.transfers == 0
      && s.capture_transfers == 0
      && not s.interface_claimed
      && not s.control_claimed
      && not s.capture_claimed
    then s1
    else if not stopped
    then s2
    else release_capture (release_control (release_stream s2))

-- The test of open and close for transfers that still live.
unfoldable pub live : Session → Bool
live s =
    not (s.transfers == 0)
    || not (s.feedback_transfers == 0)
    || not (s.capture_transfers == 0)
    || not (s.inflight == 0)
    || not (s.capture_inflight == 0)

abbrev pub no_fd : ℤ
no_fd = negsuc 0

-- LibusbUacDriver::open, with its descriptor and driver code, which is not that of the Line6 UX1
unfoldable pub open_device : World → ℤ → ℤ → Session → Session × Bool
open_device w fd code s =
    let s1 = stop w s in
    let closed = record s1 { is_open = false; fd = if s1.is_open then no_fd else s1.fd } in
    if not w.context
    then (s, false)
    else if live s1
    then (record s1 { lifecycle_failures = s1.lifecycle_failures + 1 }, false)
    else if s1.is_open && eqb_ℤ s1.fd fd && eqb_ℤ s1.driver_code code
    then (s1, true)
    else if not w.wrapped
    then (closed, false)
    else if not (eqb_ℤ code (pos 0))
    then (record closed { fd = no_fd }, false)
    else (record s1 { is_open = true; fd = fd; driver_code = code; transfer_count = 4 }, true)

-- LibusbUacDriver::close; `empty` is the format of an idle driver.
unfoldable pub close_device : World → StreamFormat → Session → Session
close_device w empty s =
    let s1 = stop w s in
    if live s1
    then s1
    else if s1.is_open
    then record s1 { is_open = false; fd = no_fd; format = empty }
    else s1
