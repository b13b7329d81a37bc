-- ===== src/Transfers/Completion.antt =====
-- LibusbUacDriver::onIso of src/libusb_uac_driver.cpp: a playback transfer has completed, is filled
-- again and goes back to libusb, or waits for the capture clock.
use liballa.Base.{
  ℕ, suc, ◌+◌, ◌-◌, ◌/◌, ◌%◌, Bool, true, false, ◌&&◌, not, min, max, List, [], ◌∷◌, ◌++◌, Option,
  none, some, ltb, ◌==◌, if◌then◌else◌, length,
}
use liballa.Base.Word.{u16_mod, u32, u64, int_to_u32}
use liballa.FlightRecorder.Events.{transfer_deferred, playback_complete}
use liballa.Scheduling.Rational.{next}
use liballa.Playback.{Playback, stride, buffered_frames}
use liballa.Transfers.{
  Engine, Transfer, Status, cancelled, no_device, is_completed, playback_signal_if_waiting,
  subtract_queued, fail_submission, note_event, drain_packet, prepare_implicit_transfer,
  transfer_frames,
}
use liballa.Transfers.Service.{Service, note_service}

-- How many packets of a completed transfer are not COMPLETED themselves.
unfoldable pub packet_errors : List Bool → ℕ
packet_errors [] = 0
packet_errors (done ∷ rest) = if done then packet_errors rest else suc (packet_errors rest)

-- The frames that the scheduler or the explicit feedback gives the next packet.
unfoldable pub scheduled_frames : ℕ → ℕ → Service → Service × ℕ
scheduled_frames rate max_frames s =
    let (scheduler, nominal) = next s.nominal_scheduler in
    let sum = u32 (s.frac_q16 + rate) in
    let s' =
      if s.has_feedback
      then record s { frac_q16 = sum % u16_mod }
      else record s { nominal_scheduler = scheduler } in
    let frames = if s.has_feedback then sum / u16_mod else nominal in
    (s', min (if frames == 0 then rate / u16_mod else frames) max_frames)

-- The packet loop without implicit feedback, over as many packets as the transfer has.
unfoldable pub fill_scheduled :
    ℕ → ℕ → ℕ → List (List ℕ) → Service → Playback → (Service × Playback) × List (List ℕ)
fill_scheduled now rate max_frames [] s p = ((s, p), [])
fill_scheduled now rate max_frames (_ ∷ rest) s p =
    let (s', frames) = scheduled_frames rate max_frames s in
    let (p', packet) = drain_packet now frames p in
    let (state, packets) = fill_scheduled now rate max_frames rest s' p' in
    (state, packet ∷ packets)

-- A transfer that cannot be filled yet joins the end of the FIFO of eight.
unfoldable pub defer : ℕ → Transfer → Service × Engine → Service × Engine
defer now xfr (s, e) =
    let dry = e.playback.queued_out_frames == 0 && not e.zero_runway_active in
    let waiting = length e.pending + 1 in
    if ltb (length e.pending) 8
    then (
      record s {
        zero_runway_events = if dry then u64 (s.zero_runway_events + 1) else s.zero_runway_events;
        deferred_transfers = u64 (s.deferred_transfers + 1);
        pending_high_water = max s.pending_high_water waiting;
      },
      note_event transfer_deferred now waiting 0 (int_to_u32 (buffered_frames e.playback))
          (record e {
            zero_runway_active =
                if e.playback.queued_out_frames == 0 then true else e.zero_runway_active;
            playback = record e.playback {
              underruns = if dry then u64 (e.playback.underruns + 1) else e.playback.underruns;
            };
            inflight = e.inflight - 1;
            pending = e.pending ++ (xfr, now) ∷ [];
          }),
    )
    else (s, fail_submission e)

-- The end of onIso for a filled transfer.
unfoldable pub resubmit : ℕ → ℕ → Bool → Bool → Transfer → Service × Engine → Service × Engine
resubmit now completed_frames implicit accepted xfr (s, e) =
    let noted =
      note_event playback_complete now completed_frames 0 (int_to_u32 (buffered_frames e.playback))
        e in
    let woken = record noted { wakes = noted.wakes ++ playback_signal_if_waiting ∷ [] } in
    let frames =
      if stride e.playback == 0 then 0 else transfer_frames (stride e.playback) xfr.packets in
    (
      s,
      if accepted
          then record woken {
            playback = record woken.playback {
              queued_out_frames = u64 (woken.playback.queued_out_frames + frames);
            };
            zero_runway_active =
                if implicit && ltb 0 frames then false else woken.zero_runway_active;
          }
          else fail_submission woken,
    )

-- What follows prepareImplicitTransfer: the filled transfer goes back, the other one waits.
unfoldable pub filled_or_deferred :
    ℕ → ℕ → Bool → Transfer → Service → Option Transfer → Engine → Service × Engine
filled_or_deferred now completed_frames accepted xfr s none e = defer now xfr (s, e)
filled_or_deferred now completed_frames accepted xfr s (some filled) e =
    resubmit now completed_frames true accepted filled (s, e)

-- The implicit branch: behind the transfers that wait, or filled now.
unfoldable pub complete_implicit : ℕ → ℕ → Bool → Transfer → Service × Engine → Service × Engine
complete_implicit now completed_frames accepted xfr (s, e) =
    let (e', outcome) = prepare_implicit_transfer now xfr e in
    if ltb 0 (length e.pending)
    then defer now xfr (s, e)
    else filled_or_deferred now completed_frames accepted xfr s outcome e'

-- The other branch.
unfoldable pub complete_scheduled : ℕ → ℕ → Bool → Transfer → Service × Engine → Service × Engine
complete_scheduled now completed_frames accepted xfr (s, e) =
    let ((s', p), packets) =
      fill_scheduled now e.rate_q16 e.max_frames_per_packet xfr.packets s e.playback in
    resubmit now completed_frames false accepted (record xfr { packets = packets })
      (s', record e { playback = p })

-- The early returns of onIso on the transfer's status.
unfoldable pub by_status :
    Status → Service × Engine → Service × Engine → Service × Engine → Service × Engine
by_status cancelled retired gone going = retired
by_status no_device retired gone going = gone
by_status _ retired gone going = going

-- LibusbUacDriver::onIso: the transfer's status, which of its packets are COMPLETED, and whether
-- libusb takes it again.
unfoldable pub on_iso :
    ℕ → Status → List Bool → Bool → Transfer → Service × Engine → Service × Engine
on_iso now status done accepted xfr (s, e) =
    let frames =
      if stride e.playback == 0 then 0 else transfer_frames (stride e.playback) xfr.packets in
    let settled = record e {
      playback = record e.playback {
        queued_out_frames = subtract_queued e.playback.queued_out_frames frames;
      };
    } in
    let errors = if is_completed status then packet_errors done else 1 in
    let counted = record settled { playback_errors = u64 (e.playback_errors + errors) } in
    let s' = if e.playback.started then note_service now frames counted s else s in
    let retired : Service × Engine = (s, record settled { inflight = e.inflight - 1 }) in
    let going =
      if e.capture.active && e.capture.implicit
      then complete_implicit now frames accepted xfr (s', counted)
      else complete_scheduled now frames accepted xfr (s', counted) in
    let gone : Service × Engine = (s, fail_submission settled) in
    if e.stop_requested then retired else by_status status retired gone going
