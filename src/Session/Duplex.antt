-- ===== src/Session/Duplex.antt =====
-- The laws of a session through startDuplex of src/libusb_uac_driver.cpp.
use liballa.Base.{
  ◌+◌, ◌≡◌, refl, Bool, true, false, ◌&&◌, not, arith, ltb, ◌==◌, if◌then◌else◌, Option, none, some,
}
use liballa.Descriptors.Playback.{StreamFormat}
use liballa.Session.{
  Session, World, no_matching_alt, claim_interface_failed, set_alt_failed, iso_pump_submit_failed,
  claim, stop_capture_pump,
}
use liballa.Session.Start.{
  start, start_capture_pump, start_capture, start_iso_pump, finish_duplex, start_both, start_duplex,
}
use liballa.Session.Held.{unit, IsSession, IsWorld, either, First, taken, stop-IsSession}
use liballa.Session.Pumps.{start_capture_pump-IsSession, start_iso_pump-IsSession}
use liballa.Session.Resumed.{with_error, with_streaming}
use liballa.Session.Claims.{unowed}
use liballa.Session.Prepared.{IsPrepared}
use liballa.Session.Starting.{Comes, start-Comes}

-- No transfer for playback is allocated or in flight.
abbrev pub Out : Session → Type 0
Out s = (s.transfers ≡ 0) × (s.feedback_transfers ≡ 0) × (s.inflight ≡ 0)

abbrev OutFirst : Session × Bool → Type 0
OutFirst r = Out r.0

stop_capture_pump-Out : (w : World) (s : Session) → Out s → OutFirst (stop_capture_pump w s)
unfolding stop_capture_pump
stop_capture_pump-Out w s o =
    either OutFirst (w.left_capture s.capture_inflight == 0) (λ t. o) (λ f. o)

start_capture_pump-Out : (w : World) (s : Session) → Out s → OutFirst (start_capture_pump w s)
unfolding start_capture_pump
start_capture_pump-Out w s o =
    either OutFirst (not w.capture_usable) (λ t. o)
      (λ t.
        either OutFirst (ltb w.capture_allocates s.transfer_count)
          (λ u. stop_capture_pump-Out w _ o)
          (λ u.
            either OutFirst (ltb w.capture_accepts (s.capture_transfers + s.transfer_count))
              (λ x. stop_capture_pump-Out w _ o) (λ x. o)))

unfoldable pub Both : Session × Bool → Type 0
Both r = IsSession r.0 × Out r.0

pub start_capture-Both :
    (w : World) (s : Session) → IsWorld w → IsPrepared s → IsSession s → Both (start_capture w s)
unfolding start_capture Both
start_capture-Both w s h p v = select w.capture_selected
  where
    -- The interface of capture, claimed.
    taking : StreamFormat → Session
    taking capture = record s {
      capture_claimed = true;
      claimed_capture = capture.interface_number;
      capture_format = capture;
      held = claim capture.interface_number s.held;
    }

    taking_laws : (capture : StreamFormat) → IsSession (taking capture)
    taking_laws capture = record {
      counts = λ n.
          let a = unit (s.interface_claimed && n == s.format.interface_number) in
          let b = unit (s.control_claimed && n == s.claimed_control) in
          let nothing : s.held n ≡ a + b =
            unowed s.capture_claimed (n == s.claimed_capture) a b p.unclaimed
              (omega (arith, v.counts n)) in
          omega (
            arith,
            taken false (n == capture.interface_number) (s.held n) (a + b) refl
                (omega (arith, nothing)),
          );
      closed = rw p.opened;
      flying = v.flying;
      capture_flying = v.capture_flying;
      ready = v.ready;
    }

    select :
        (selected : Option StreamFormat)
        → Both (elim selected as (λ x. Session × Bool) [
          | none ↦ (record s { last_error = no_matching_alt }, false)
          | some capture ↦
              if capture.interface_number == s.format.interface_number
              then (record s { last_error = claim_interface_failed }, false)
              else if not w.claims_capture
              then (record s { last_error = claim_interface_failed }, false)
              else if not w.sets_capture_alt
              then (record (taking capture) { last_error = set_alt_failed }, false)
              else start_capture_pump w (taking capture)
        ])
    select none = (with_error s no_matching_alt v, p.idle.out)
    select (some capture) =
        either Both (capture.interface_number == s.format.interface_number)
          (λ t. (with_error s claim_interface_failed v, p.idle.out))
          (λ f.
            either Both (not w.claims_capture)
              (λ t. (with_error s claim_interface_failed v, p.idle.out))
              (λ g.
                either Both (not w.sets_capture_alt)
                  (λ t. (with_error _ set_alt_failed (taking_laws capture), p.idle.out))
                  (λ x. (
                    start_capture_pump-IsSession w (taking capture) h (taking_laws capture)
                        p.idle.capture.0 p.idle.capture.1,
                    start_capture_pump-Out w (taking capture) p.idle.out,
                  ))))

pub with_event_thread : (s : Session) → IsSession s → IsSession (record s { event_thread = true })
with_event_thread s v = record {
  counts = v.counts;
  closed = v.closed;
  flying = v.flying;
  capture_flying = v.capture_flying;
  ready = v.ready;
}

finish_duplex-IsSession :
    (w : World) (s : Session) → IsWorld w → IsSession s → Out s → First (finish_duplex w s)
unfolding finish_duplex
finish_duplex-IsSession w s h v o =
    let primed =
      s.capture_active
      && s.capture_format.implicit_feedback
      && s.format.feedback_endpoint_address == 0 in
    let s1 = if primed then record s { event_thread = true } else s in
    let (v1, o1) =
      either (λ (t : Session). IsSession t × Out t) primed (λ t. (with_event_thread s v, o))
        (λ f. (v, o)) in
    let v2 = start_iso_pump-IsSession w false s1 h v1 o1.0 o1.1 o1.2 in
    either First (primed && not w.primes)
      (λ t. stop-IsSession w _ h (with_error _ iso_pump_submit_failed v1))
      (λ f.
        either First (not (start_iso_pump w false s1).1) (λ t. stop-IsSession w _ h v2)
          (λ g. with_streaming _ true v2))

pub start_duplex-IsSession :
    (w : World) (s : Session) → IsWorld w → IsSession s → First (start_duplex w s)
unfolding start_duplex start_both Comes Both
start_duplex-IsSession w s h v =
    let (v1, prepared) = start-Comes w true s h v in
    let s1 = (start w true s).0 in
    either First (start w true s).1
      (λ t.
        let (v2, o2) = start_capture-Both w s1 h (prepared refl t) v1 in
        either First (start_capture w s1).1 (λ x. finish_duplex-IsSession w _ h v2 o2)
          (λ x. stop-IsSession w _ h v2))
      (λ f. v1)
