-- ===== src/Session/Tests.antt =====
-- Sessions of src/libusb_uac_driver.cpp: a duplex start on a device that takes everything, one whose
-- capture fails, and what close leaves.
use liballa.Base.{◌+◌, ◌≤◌, ◌≡◌, refl, true, false, some, [], arith}
use liballa.Base.Int.{pos, negsuc, ◌-ℤ◌}
use liballa.Descriptors.Playback.{StreamFormat}
use liballa.Session.{
  Session, World, ok, stop_iso_pump, stop_capture_pump, stop_pumps, request_stop, release_stream,
  release_control, release_capture, stop, live, open_device,
}
use liballa.Session.Start.{
  start_capture_pump, submit_iso_pump, start_iso_pump, is_busy, reconfigure, claim_stream,
  claim_control, start_format, start_selected, start, start_capture, finish_duplex, start_both,
  start_duplex,
}
use liballa.Session.Held.{owed, IsWorld}
use liballa.Session.Reached.{IsNew, Reached, at_start, after, opens, starts_duplex, Reached-claims}
use liballa.Session.Errors.{is_ok, start_tells}
use liballa.Session.Prime.{start_refused}

abbrev empty_format : StreamFormat
empty_format = record {
  sample_rate = 0;
  bits_per_sample = 0;
  bytes_per_sample = 0;
  channels = 0;
  interface_number = 0;
  alt_setting = 0;
  endpoint_address = 0;
  sync_endpoint_address = 0;
  terminal_link = 0;
  max_packet_size = 0;
  clock_source_id = 0;
  control_interface_num = 0;
  is_high_speed = true;
  interval = 1;
  uac_version = 0x0200;
  feedback_endpoint_address = 0;
  feedback_max_packet_size = 0;
  feedback_interval = 0;
  implicit_feedback = false;
  candidate_clock_ids = [];
}

abbrev play_format : StreamFormat
play_format = record empty_format {
  bytes_per_sample = 2;
  channels = 2;
  interface_number = 1;
  alt_setting = 1;
}

abbrev record_format : StreamFormat
record_format = record play_format { interface_number = 2; implicit_feedback = true }

abbrev new_session : Session
new_session = record {
  is_open = false;
  fd = negsuc 0;
  driver_code = pos 0;
  transfers = 0;
  feedback_transfers = 0;
  capture_transfers = 0;
  inflight = 0;
  capture_inflight = 0;
  pending = 0;
  event_thread = false;
  streaming = false;
  stop_requested = false;
  transport_failed = false;
  playback_started = false;
  capture_active = false;
  interface_claimed = false;
  control_claimed = false;
  capture_claimed = false;
  claimed_control = 0xFF;
  claimed_capture = 0xFF;
  format = empty_format;
  capture_format = empty_format;
  startup_prime = pos 0;
  buffered = pos 0;
  transfer_count = 4;
  lifecycle_failures = 0;
  last_error = ok;
  held = λ n. 0;
}

-- Everything is accepted, and all transfers complete in time.
abbrev willing : World
willing = record {
  left = λ n. 0;
  left_capture = λ n. 0;
  context = true;
  wrapped = true;
  wakes = true;
  selected = some play_format;
  claims = true;
  claims_control = true;
  sets_alt = true;
  sets_rate = some 9;
  capture_selected = some record_format;
  claims_capture = true;
  sets_capture_alt = true;
  capture_usable = true;
  capture_allocates = 4;
  capture_accepts = 4;
  primes = true;
  metadata_lasts = true;
  usable = true;
  allocates = 4;
  allocates_feedback = 2;
  accepts = 4;
  prime = pos 192;
  initial_frames = pos 192;
}

-- The same, but capture does not prime the packet sizes.
abbrev unprimed : World
unprimed = record willing { primes = false }

willing-IsWorld : IsWorld willing
willing-IsWorld = record { left_less = λ n. omega arith; left_capture_less = λ n. omega arith }

new_session-IsNew : IsNew new_session
new_session-IsNew = record {
  nothing_held = λ n. refl;
  no_claims = (refl, refl, refl);
  nothing_flies = (refl, refl, refl);
}

abbrev opened : Session
opened = (open_device willing (pos 7) (pos 0) new_session).0

abbrev duplex : Session
duplex = (start_duplex willing opened).0

opened-Reached : Reached new_session opened
opened-Reached = after at_start (opens willing (pos 7) (pos 0) willing-IsWorld)

duplex-Reached : Reached new_session duplex
duplex-Reached = after opened-Reached (starts_duplex willing willing-IsWorld)

duplex_holds :
    ((start_duplex willing opened).1 ≡ true)
    × (duplex.held 1 ≡ 1)
    × (duplex.held 2 ≡ 1)
    × (duplex.capture_inflight ≡ 4)
    × (duplex.inflight ≡ 0)
unfolding stop_iso_pump stop_capture_pump stop_pumps request_stop release_stream release_control
    release_capture stop live open_device start_capture_pump submit_iso_pump start_iso_pump is_busy
    reconfigure claim_stream claim_control start_format start_selected start start_capture
    finish_duplex start_both start_duplex ◌-ℤ◌
duplex_holds = (refl, refl, refl, refl, refl)

Reached-claims_example :
    (duplex.held 1 ≡ owed duplex 1)
    × (duplex.inflight + duplex.pending ≤ duplex.transfers + duplex.feedback_transfers)
    × (duplex.capture_inflight ≤ duplex.capture_transfers)
Reached-claims_example = Reached-claims new_session duplex 1 new_session-IsNew duplex-Reached

start_tells_example :
    let (t, accepted) = start willing false opened in accepted ≡ is_ok t.last_error
start_tells_example = start_tells willing false opened

start_refused_example : (start willing false opened).1 ≡ false
start_refused_example = start_refused willing opened refl
