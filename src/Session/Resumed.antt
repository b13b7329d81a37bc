-- ===== src/Session/Resumed.antt =====
-- startPlayback and the halt before a start in src/libusb_uac_driver.cpp keep the laws of a session.
use liballa.Base.{◌+◌, ◌≡◌, refl, Bool, true, false, ◌||◌, not, ltb, ◌==◌}
use liballa.Base.Int.{ltb_ℤ}
use liballa.Session.{Session, World, StartError, iso_pump_submit_failed, stop_iso_pump, stop_pumps}
use liballa.Session.Start.{submit_iso_pump, start_playback, is_busy, reconfigure}
use liballa.Session.Held.{
  IsSession, IsWorld, either, First, stop_pumps-IsSession, release_capture-IsSession,
}
use liballa.Session.Pumps.{submit_iso_pump-IsSession}

-- Fields that no law is about.
pub with_error :
    (s : Session) (e : StartError) → IsSession s → IsSession (record s { last_error = e })
with_error s e v = record {
  counts = v.counts;
  closed = v.closed;
  flying = v.flying;
  capture_flying = v.capture_flying;
  ready = v.ready;
}

pub with_streaming : (s : Session) (b : Bool) → IsSession s → IsSession (record s { streaming = b })
with_streaming s b v = record {
  counts = v.counts;
  closed = v.closed;
  flying = v.flying;
  capture_flying = v.capture_flying;
  ready = v.ready;
}

pub with_capture_active :
    (s : Session) (b : Bool) → IsSession s → IsSession (record s { capture_active = b })
with_capture_active s b v = record {
  counts = v.counts;
  closed = v.closed;
  flying = v.flying;
  capture_flying = v.capture_flying;
  ready = v.ready;
}

-- A pump that was stopped in vain still has the stop requested.
stop_iso_pump-requests : (w : World) (s : Session) → (stop_iso_pump w s).0.stop_requested ≡ true
unfolding stop_iso_pump
stop_iso_pump-requests w s =
    either (λ (r : Session × Bool). r.0.stop_requested ≡ true) (w.left s.inflight == 0) (λ t. refl)
      (λ f. refl)

or_true : (b c : Bool) → b ≡ true → (b || c) ≡ true
or_true b c e = rw e

abbrev Keeps : Session × Bool → Type 0
Keeps r = r.1 ≡ false → (r.0.stop_requested || r.0.inflight + r.0.pending == 0) ≡ true

-- A failed submission does not leave playback free to start over a transfer in flight.
submit_iso_pump_failed :
    (w : World) (s : Session)
    → (s.stop_requested || s.inflight + s.pending == 0) ≡ true
    → (submit_iso_pump w s).1 ≡ false
    → let s' = (submit_iso_pump w s).0 in
      (s'.stop_requested || s'.inflight + s'.pending == 0) ≡ true
unfolding submit_iso_pump
submit_iso_pump_failed w s still =
    either Keeps s.stop_requested (λ t e. still)
      (λ f.
        either Keeps
          (s.format.channels == 0
            || s.format.bytes_per_sample == 0
            || ltb_ℤ s.buffered s.startup_prime)
          (λ t e. still)
          (λ g.
            either Keeps (ltb w.accepts (s.feedback_transfers + s.transfers))
              (λ t e. or_true _ _ (stop_iso_pump-requests w _)) (λ t e. cc)))

started-IsSession : (s : Session) → IsSession s → IsSession (record s { playback_started = true })
started-IsSession s v = record {
  counts = v.counts;
  closed = v.closed;
  flying = v.flying;
  capture_flying = v.capture_flying;
  ready = refl;
}

pub start_playback-IsSession :
    (w : World) (s : Session) → IsWorld w → IsSession s → First (start_playback w s)
unfolding start_playback
start_playback-IsSession w s h v =
    let s1 = record s { playback_started = true } in
    either First s.playback_started (λ t. v)
      (λ f.
        let still : (s.stop_requested || s.inflight + s.pending == 0) ≡ true = rw f at v.ready in
        let v1 = submit_iso_pump-IsSession w s1 h (started-IsSession s v) still in
        either First (submit_iso_pump w s1).1 (λ t. v1)
          (λ g. record {
            counts = v1.counts;
            closed = v1.closed;
            flying = v1.flying;
            capture_flying = v1.capture_flying;
            ready = submit_iso_pump_failed w s1 still g;
          }))

-- After start has halted what ran, nothing is allocated.
pub reconfigure-IsSession :
    (w : World) (s : Session) → IsWorld w → IsSession s → First (reconfigure w s)
unfolding reconfigure
reconfigure-IsSession w s h v =
    let s1 = record s { capture_active = false } in
    let v1 = stop_pumps-IsSession w s1 h (with_capture_active s false v) in
    either First (not (is_busy s)) (λ t. v)
      (λ f.
        either First (not (stop_pumps w s1).1) (λ t. with_error _ iso_pump_submit_failed v1)
          (λ g. with_streaming _ false (release_capture-IsSession _ v1)))
