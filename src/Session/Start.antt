-- ===== src/Session/Start.antt =====
-- The pumps and starts of src/libusb_uac_driver.cpp.
use liballa.Base.{
  ℕ, ◌+◌, Bool, true, false, ◌&&◌, ◌||◌, not, Option, none, some, ltb, ◌==◌, if◌then◌else◌,
}
use liballa.Base.Int.{pos, ◌-ℤ◌, ltb_ℤ}
use liballa.Descriptors.Playback.{StreamFormat}
use liballa.Session.{
  Session, World, StartError, ok, no_device, no_matching_alt, claim_interface_failed,
  set_alt_failed, set_sample_rate_failed, iso_pump_alloc_failed, iso_pump_submit_failed, claim,
  fail, stop_iso_pump, stop_capture_pump, stop_pumps, release_stream, release_control,
  release_capture, stop, live,
}

-- A failure after which a pump is stopped.
abbrev pub fail_playback : World → StartError → Session → Session × Bool
fail_playback w e s = ((stop_iso_pump w (record s { last_error = e })).0, false)

abbrev pub fail_capture : World → StartError → Session → Session × Bool
fail_capture w e s = ((stop_capture_pump w (record s { last_error = e })).0, false)

-- LibusbUacDriver::startCapturePump
unfoldable pub start_capture_pump : World → Session → Session × Bool
start_capture_pump w s =
    let s1 = record s { capture_transfers = s.capture_transfers + s.transfer_count } in
    if not w.capture_usable
    then fail iso_pump_alloc_failed s
    else if ltb w.capture_allocates s.transfer_count
    then fail_capture w iso_pump_alloc_failed
        (record s { capture_transfers = s.capture_transfers + w.capture_allocates })
    else if ltb w.capture_accepts s1.capture_transfers
    then fail_capture w iso_pump_submit_failed (record s1 {
      capture_inflight = s.capture_inflight + w.capture_accepts;
      capture_active = false;
      stop_requested = true;
    })
    else (
      record s1 {
        capture_inflight = s.capture_inflight + s1.capture_transfers;
        capture_active = true;
      },
      true,
    )

-- LibusbUacDriver::submitIsoPump: the feedback transfers go first, and what the ring holds for the
-- packets is drained before.
unfoldable pub submit_iso_pump : World → Session → Session × Bool
submit_iso_pump w s =
    let all = s.feedback_transfers + s.transfers in
    let drained = record s { buffered = s.buffered -ℤ w.initial_frames } in
    if s.stop_requested
    then (s, false)
    else if s.format.channels == 0
        || s.format.bytes_per_sample == 0
        || ltb_ℤ s.buffered s.startup_prime
    then fail iso_pump_submit_failed s
    else if ltb w.accepts all
    then fail_playback w iso_pump_submit_failed
        (record drained { inflight = s.inflight + w.accepts })
    else (
      record drained { inflight = s.inflight + all; playback_started = true; streaming = true },
      true,
    )

-- The capture endpoint is the clock of the output.
abbrev pub needs_metadata : Session → Bool
needs_metadata s =
    s.capture_active
    && s.capture_format.implicit_feedback
    && s.format.feedback_endpoint_address == 0

-- LibusbUacDriver::startIsoPump, with its argument `submit`
unfoldable pub start_iso_pump : World → Bool → Session → Session × Bool
start_iso_pump w submit s =
    let feedback = if s.format.feedback_endpoint_address == 0 then 0 else 2 in
    let s1 = record s { pending = 0; transfers = s.transfers + s.transfer_count } in
    let s2 = record s1 {
      startup_prime = w.prime;
      feedback_transfers = s.feedback_transfers + feedback;
      event_thread = true;
    } in
    if not w.usable
    then fail iso_pump_alloc_failed (record s { pending = 0 })
    else if ltb w.allocates s.transfer_count
    then fail_playback w iso_pump_alloc_failed
        (record s { pending = 0; transfers = s.transfers + w.allocates })
    else if needs_metadata s && not w.metadata_lasts
    then fail_playback w iso_pump_submit_failed s1
    else if ltb w.allocates_feedback feedback
    then fail_playback w iso_pump_alloc_failed (record s1 {
      startup_prime = w.prime;
      feedback_transfers = s.feedback_transfers + w.allocates_feedback;
    })
    else if not submit
    then (s2, true)
    else submit_iso_pump w s2

-- LibusbUacDriver::startPlayback
unfoldable pub start_playback : World → Session → Session × Bool
start_playback w s =
    let (s', submitted) = submit_iso_pump w (record s { playback_started = true }) in
    if s.playback_started
    then (s, false)
    else if submitted
    then (s', true)
    else (record s' { playback_started = false }, false)

-- The first part of start: what runs is halted, and capture gives its interface back.
unfoldable pub is_busy : Session → Bool
is_busy s = s.streaming || live s || s.event_thread || s.capture_claimed

unfoldable pub reconfigure : World → Session → Session × Bool
reconfigure w s =
    let (s', stopped) = stop_pumps w (record s { capture_active = false }) in
    if not (is_busy s)
    then (s, true)
    else if not stopped
    then fail iso_pump_submit_failed s'
    else (record (release_capture s') { streaming = false }, true)

-- The claim of the streaming interface of `fmt`, where it is needed.
unfoldable pub claim_stream : World → StreamFormat → Session → Session × Bool
claim_stream w fmt s =
    let s' = release_stream s in
    if s.interface_claimed && s.format.interface_number == fmt.interface_number
    then (s, true)
    else if not w.claims
    then fail claim_interface_failed s'
    else (record s' { interface_claimed = true; held = claim fmt.interface_number s'.held }, true)

-- The claim of the AudioControl interface, which may fail.
unfoldable pub claim_control : World → StreamFormat → Session → Session
claim_control w fmt s =
    let i = fmt.control_interface_num in
    let s' = release_control s in
    if i == 0xFF || (s.control_claimed && s.claimed_control == i)
    then s
    else if not w.claims_control
    then s'
    else record s' { control_claimed = true; claimed_control = i; held = claim i s'.held }

-- The result of setSampleRate, and the clock that the format names after it.
abbrev pub is_refused : Option ℕ → Bool
is_refused none = true
is_refused (some id) = false

abbrev pub clock_after : World → StreamFormat → ℕ
clock_after w fmt = elim w.sets_rate [ none ↦ fmt.clock_source_id | some id ↦ id ]

-- The error of a pump that failed without one.
abbrev pub unless_ok : StartError → StartError
unless_ok ok = iso_pump_alloc_failed
unless_ok e = e

-- The rest of start: the alternate setting, the rate, the reset, and the pump unless output waits.
unfoldable pub start_format : World → Bool → StreamFormat → Session → Session × Bool
start_format w deferred fmt s =
    let s1 = record s { format = fmt } in
    let s2 = record s1 {
      format = record fmt { clock_source_id = clock_after w fmt };
      buffered = pos 0;
      playback_started = false;
      stop_requested = false;
      transport_failed = false;
    } in
    let (s3, started) = start_iso_pump w true s2 in
    if not w.sets_alt
    then fail set_alt_failed s1
    else if is_refused w.sets_rate
    then fail set_sample_rate_failed s1
    else if deferred
    then (record s2 { streaming = false }, true)
    else if not started
    then (record s3 { last_error = unless_ok s3.last_error }, false)
    else (record s3 { streaming = true }, true)

-- start after the reconfiguration
unfoldable pub start_selected : World → Bool → Session → Session × Bool
start_selected w deferred s = elim w.selected [
  | none ↦ fail no_matching_alt s
  | some fmt ↦
      let (s', claimed) = claim_stream w fmt s in
      if not claimed then (s', false) else start_format w deferred fmt (claim_control w fmt s')
]

-- LibusbUacDriver::start, with deferOutputStart_
unfoldable pub start : World → Bool → Session → Session × Bool
start w deferred s =
    let s1 = record s { last_error = ok } in
    let (s2, halted) = reconfigure w s1 in
    if not s.is_open
    then fail no_device s1
    else if not w.wakes
    then fail iso_pump_alloc_failed s1
    else if not halted
    then (s2, false)
    else start_selected w deferred s2

-- The capture half of startDuplex.
unfoldable pub start_capture : World → Session → Session × Bool
start_capture w s = elim w.capture_selected [
  | none ↦ fail no_matching_alt s
  | some capture ↦
      let s1 = record s {
        capture_claimed = true;
        claimed_capture = capture.interface_number;
        capture_format = capture;
        held = claim capture.interface_number s.held;
      } in
      if capture.interface_number == s.format.interface_number
      then fail claim_interface_failed s
      else if not w.claims_capture
      then fail claim_interface_failed s
      else if not w.sets_capture_alt
      then fail set_alt_failed s1
      else start_capture_pump w s1
]

-- The rest of startDuplex once capture runs: with implicit feedback, capture primes the packet sizes.
unfoldable pub finish_duplex : World → Session → Session × Bool
finish_duplex w s =
    let primed =
      s.capture_active
      && s.capture_format.implicit_feedback
      && s.format.feedback_endpoint_address == 0 in
    let s1 = if primed then record s { event_thread = true } else s in
    let (s2, started) = start_iso_pump w false s1 in
    if primed && not w.primes
    then (stop w (record s1 { last_error = iso_pump_submit_failed }), false)
    else if not started
    then (stop w s2, false)
    else (record s2 { streaming = true }, true)

-- startDuplex once start has prepared the output
unfoldable pub start_both : World → Session → Session × Bool
start_both w s =
    let (s', capturing) = start_capture w s in
    if capturing then finish_duplex w s' else (stop w s', false)

-- LibusbUacDriver::startDuplex
unfoldable pub start_duplex : World → Session → Session × Bool
start_duplex w s =
    let (s', prepared) = start w true s in if prepared then start_both w s' else (s', false)
