-- ===== src/Transfers/Submit.antt =====
-- submitPendingImplicitTransfers and onCapture of src/libusb_uac_driver.cpp; `accepts` is the answer
-- of libusb_submit_transfer for a playback transfer.
use liballa.Base.{
  ℕ, ◌+◌, ◌-◌, Bool, false, not, max, List, [], ◌∷◌, ◌++◌, Option, none, some, ltb, ◌==◌,
  if◌then◌else◌,
}
use liballa.Base.Word.{u64, sub_u64, int_to_u32}
use liballa.FlightRecorder.Events.{capture_complete}
use liballa.Playback.{stride, buffered_frames}
use liballa.Capture.Packets.{IsoPacket, receive_packets}
use liballa.Transfers.{
  Status, cancelled, no_device, is_completed, Transfer, capture_signal_if_waiting, Engine,
  mark_transport_failed, fail_submission, note_event, prepare_implicit_transfer, transfer_frames,
}

-- What submitPendingImplicitTransfers notes of a transfer that libusb took.
unfoldable pub note_submitted : ℕ → ℕ → Transfer → Engine → Engine
note_submitted now since xfr e =
    let frames =
      if stride e.playback == 0 then 0 else transfer_frames (stride e.playback) xfr.packets in
    record e {
      inflight = e.inflight + 1;
      max_pending_age = max e.max_pending_age (sub_u64 now since);
      playback = record e.playback {
        queued_out_frames = u64 (e.playback.queued_out_frames + frames);
      };
      zero_runway_active = if ltb 0 frames then false else e.zero_runway_active;
    }

-- The outcome of the loop: the transfers that libusb took, in order, and those that still wait.
pub record Submitted : Type 0 where
  pub engine : Engine
  pub taken : List Transfer
  pub waiting : List (Transfer × ℕ)

module _ (accepts : Transfer → Bool) where
  -- One round, with what the rounds after it make of the state.
  unfoldable pub submit_round :
      ℕ
      → Transfer
      → ℕ
      → List (Transfer × ℕ)
      → Engine
      → Option Transfer
      → (Engine → Submitted)
      → Submitted
  submit_round now xfr since rest e none next = record {
    engine = e;
    taken = [];
    waiting = (xfr, since) ∷ rest;
  }
  submit_round now xfr since rest e (some filled) next =
      let later = next (note_submitted now since filled e) in
      if accepts filled then record later { taken = filled ∷ later.taken } else record {
        engine = fail_submission (record e { inflight = e.inflight + 1 });
        taken = [];
        waiting = (filled, since) ∷ rest;
      }

  -- The loop of submitPendingImplicitTransfers.
  unfoldable pub submit_loop : ℕ → List (Transfer × ℕ) → Engine → Submitted
  submit_loop now [] e = record { engine = e; taken = []; waiting = [] }
  submit_loop now ((xfr, since) ∷ rest) e =
      let (e', filled) = prepare_implicit_transfer now xfr e in
      submit_round now xfr since rest e' filled (submit_loop now rest)

  -- LibusbUacDriver::submitPendingImplicitTransfers
  unfoldable pub submit_pending_implicit_transfers : ℕ → Engine → Engine
  submit_pending_implicit_transfers now e =
      let result = submit_loop now e.pending e in record result.engine { pending = result.waiting }

  -- The end of LibusbUacDriver::onCapture, behind the packet loop: `frames` is `totalFrames`.
  unfoldable pub finish_capture : ℕ → ℕ → Bool → Engine → Engine
  finish_capture now frames accepted e =
      let counted = record e {
        capture_sequence =
            if ltb 0 frames then u64 (e.capture_sequence + frames) else e.capture_sequence;
      } in
      let noted =
        note_event capture_complete now frames 0 (int_to_u32 (buffered_frames e.playback))
          counted in
      let submitted = submit_pending_implicit_transfers now noted in
      let woken = record submitted { wakes = submitted.wakes ++ capture_signal_if_waiting ∷ [] } in
      if woken.transport_failed
      then record woken { capture_inflight = woken.capture_inflight - 1 }
      else if accepted
      then woken
      else mark_transport_failed (record woken {
        capture_inflight = woken.capture_inflight - 1;
        capture_errors = u64 (woken.capture_errors + 1);
      })

  -- LibusbUacDriver::onCapture, with whether libusb takes the transfer again
  unfoldable pub on_capture : ℕ → Status → List IsoPacket → List ℕ → Bool → Engine → Engine
  on_capture now status packets buffer accepted e =
      let (c, frames) = receive_packets (is_completed status) packets buffer e.capture in
      let gone = record e { capture_inflight = e.capture_inflight - 1 } in
      let going = finish_capture now frames accepted (record e { capture = c }) in
      if not e.capture.active then gone else early status e gone going
    where
      early : Status → Engine → Engine → Engine → Engine
      early cancelled e gone going = gone
      early no_device e gone going =
          if e.stop_requested
          then gone
          else mark_transport_failed (record gone { capture_errors = u64 (e.capture_errors + 1) })
      early status e gone going = if e.stop_requested then gone else going
