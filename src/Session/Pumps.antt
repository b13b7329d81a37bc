-- ===== src/Session/Pumps.antt =====
-- The laws of a session through the pumps and the halt in src/libusb_uac_driver.cpp.
use liballa.Base.{◌&&◌, ℕ, ◌+◌, ◌≡◌, refl, Bool, true, ◌||◌, not, arith, ltb, ◌==◌, if◌then◌else◌}
use liballa.Base.Int.{ℤ, ltb_ℤ}
use liballa.Session.{Session, World}
use liballa.Session.Start.{needs_metadata, start_capture_pump, submit_iso_pump, start_iso_pump}
use liballa.Session.Held.{
  IsSession, IsWorld, either, First, stop_iso_pump-IsSession, stop_capture_pump-IsSession,
}

pub start_capture_pump-IsSession :
    (w : World) (s : Session)
    → IsWorld w
    → IsSession s
    → s.capture_transfers ≡ 0
    → s.capture_inflight ≡ 0
    → First (start_capture_pump w s)
unfolding start_capture_pump
start_capture_pump-IsSession w s h v none_allocated none_flying =
    either First (not w.capture_usable)
      (λ t. record {
        counts = v.counts;
        closed = v.closed;
        flying = v.flying;
        capture_flying = v.capture_flying;
        ready = v.ready;
      })
      (λ t.
        either First (ltb w.capture_allocates s.transfer_count)
          (λ u. stop_capture_pump-IsSession w _ h (record {
            counts = v.counts;
            closed = v.closed;
            flying = v.flying;
            capture_flying = omega (arith, v.capture_flying);
            ready = v.ready;
          }))
          (λ u.
            either First (ltb w.capture_accepts (s.capture_transfers + s.transfer_count))
              (λ x. stop_capture_pump-IsSession w _ h (record {
                counts = v.counts;
                closed = v.closed;
                flying = v.flying;
                capture_flying = ground arith;
                ready = ground arith;
              }))
              (λ x. record {
                counts = v.counts;
                closed = v.closed;
                flying = v.flying;
                capture_flying = omega arith;
                ready = v.ready;
              })))

pub submit_iso_pump-IsSession :
    (w : World) (s : Session)
    → IsWorld w
    → IsSession s
    → (s.stop_requested || s.inflight + s.pending == 0) ≡ true
    → First (submit_iso_pump w s)
unfolding submit_iso_pump
submit_iso_pump-IsSession w s h v still =
    either First s.stop_requested (λ t. v)
      (λ t.
        let grounded : s.inflight + s.pending ≡ 0 = ground arith in
        either First
          (s.format.channels == 0
            || s.format.bytes_per_sample == 0
            || ltb_ℤ s.buffered s.startup_prime)
          (λ u. record {
            counts = v.counts;
            closed = v.closed;
            flying = v.flying;
            capture_flying = v.capture_flying;
            ready = v.ready;
          })
          (λ u.
            either First (ltb w.accepts (s.feedback_transfers + s.transfers))
              (λ x. stop_iso_pump-IsSession w _ h (record {
                counts = v.counts;
                closed = v.closed;
                flying = ground arith;
                capture_flying = v.capture_flying;
                ready = ground arith;
              }))
              (λ x. record {
                counts = v.counts;
                closed = v.closed;
                flying = omega arith;
                capture_flying = v.capture_flying;
                ready = refl;
              })))

prepared-IsSession :
    (s : Session)
    → IsSession s
    → s.inflight ≡ 0
    → (transfers feedback : ℕ) (prime : ℤ)
    → IsSession (record s {
      pending = 0;
      transfers = transfers;
      startup_prime = prime;
      feedback_transfers = feedback;
      event_thread = true;
    })
prepared-IsSession s v none_flying transfers feedback prime = record {
  counts = v.counts;
  closed = v.closed;
  flying = omega (arith, none_flying);
  capture_flying = v.capture_flying;
  ready = ground (arith, none_flying);
}

pub start_iso_pump-IsSession :
    (w : World) (submit : Bool) (s : Session)
    → IsWorld w
    → IsSession s
    → s.transfers ≡ 0
    → s.feedback_transfers ≡ 0
    → s.inflight ≡ 0
    → First (start_iso_pump w submit s)
unfolding start_iso_pump
start_iso_pump-IsSession w submit s h v no_transfers no_feedback none_flying =
    either First (not w.usable)
      (λ t. record {
        counts = v.counts;
        closed = v.closed;
        flying = omega (arith, none_flying);
        capture_flying = v.capture_flying;
        ready = ground (arith, none_flying);
      })
      (λ t.
        either First (ltb w.allocates s.transfer_count)
          (λ u. stop_iso_pump-IsSession w _ h (record {
            counts = v.counts;
            closed = v.closed;
            flying = omega arith;
            capture_flying = v.capture_flying;
            ready = ground arith;
          }))
          (λ u.
            either First (needs_metadata s && not w.metadata_lasts)
              (λ x. stop_iso_pump-IsSession w _ h (record {
                counts = v.counts;
                closed = v.closed;
                flying = omega arith;
                capture_flying = v.capture_flying;
                ready = ground arith;
              }))
              (λ lasts.
                either First
                  (ltb w.allocates_feedback
                    (if s.format.feedback_endpoint_address == 0 then 0 else 2))
                  (λ x. stop_iso_pump-IsSession w _ h (record {
                    counts = v.counts;
                    closed = v.closed;
                    flying = omega arith;
                    capture_flying = v.capture_flying;
                    ready = ground arith;
                  }))
                  (λ x.
                    let v2 = prepared-IsSession s v none_flying _ _ w.prime in
                    either First (not submit) (λ y. v2)
                      (λ y. submit_iso_pump-IsSession w _ h v2 (ground arith))))))
