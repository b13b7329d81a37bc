-- ===== src/Session/Reached.antt =====
-- The sessions that the operations of src/libusb_uac_driver.cpp lead to, in any order.
use liballa.Base.{ℕ, true, ◌||◌, ◌-◌, ◌<◌, ◌+◌, ◌≤◌, ◌≡◌, refl, ◌∙◌, Bool, false, ◌&&◌, not, arith}
use liballa.Base.Int.{ℤ, pos, eqb_ℤ}
use liballa.Descriptors.Playback.{StreamFormat}
use liballa.Session.{Session, World, request_stop, stop, live, open_device, close_device}
use liballa.Session.Start.{start, start_duplex, start_playback}
use liballa.Session.Held.{
  owed, IsSession, IsWorld, either, First, request_stop-IsSession, stop-IsSession,
}
use liballa.Session.Resumed.{start_playback-IsSession}
use liballa.Session.Starting.{Comes, start-Comes}
use liballa.Session.Unwind.{claims, stop_unclaims}
use liballa.Session.Duplex.{start_duplex-IsSession}

-- markTransportFailed, as far as a session has its fields
unfoldable pub fail_transport : Session → Session
fail_transport s = record s {
  transport_failed = true;
  capture_active = false;
  streaming = false;
  stop_requested = true;
}

-- A call of the driver, where `configures` is an accepted configureUserspaceBuffers, or the event
-- thread: transfers complete and are not sent again, join the FIFO, leave it for libusb, or are lost
-- from it where libusb refuses them, and the transport fails.
pub data Step : Session → Session → Type 0 where
  opens : {s : Session} (w : World) (fd code : ℤ) → IsWorld w → Step s (open_device w fd code s).0
  closes :
      {s : Session} (w : World) (empty : StreamFormat) → IsWorld w → Step s (close_device w empty s)
  starts : {s : Session} (w : World) (deferred : Bool) → IsWorld w → Step s (start w deferred s).0
  starts_duplex : {s : Session} (w : World) → IsWorld w → Step s (start_duplex w s).0
  starts_playback : {s : Session} (w : World) → IsWorld w → Step s (start_playback w s).0
  stops : {s : Session} (w : World) → IsWorld w → Step s (stop w s)
  requests_stop : {s : Session} → Step s (request_stop s)
  configures :
      {s : Session} (transfers : ℕ)
      → (s.streaming || s.playback_started) ≡ false
      → 1 ≤ transfers
      → transfers ≤ 8
      → Step s (record s { transfer_count = transfers })
  completes :
      {s : Session} (n m : ℕ)
      → n ≤ s.inflight
      → m ≤ s.capture_inflight
      → Step s (record s { inflight = n; capture_inflight = m })
  defers :
      {s : Session}
      → 0 < s.inflight
      → Step s (record s { inflight = s.inflight - 1; pending = s.pending + 1 })
  resubmits :
      {s : Session} (n : ℕ)
      → n ≤ s.pending
      → Step s (record s { inflight = s.inflight + n; pending = s.pending - n })
  loses : {s : Session} (n : ℕ) → n ≤ s.pending → Step s (record s { pending = n })
  fails : {s : Session} → Step s (fail_transport s)

pub data Reached (first : Session) : Session → Type 0 where
  at_start : Reached first first
  after : {s t : Session} → Reached first s → Step s t → Reached first t

-- The session of a new driver.
pub record IsNew (s : Session) : Type 0 where
  pub nothing_held : (n : ℕ) → s.held n ≡ 0
  pub no_claims :
      (s.interface_claimed ≡ false) × (s.control_claimed ≡ false) × (s.capture_claimed ≡ false)
  pub nothing_flies : (s.inflight ≡ 0) × (s.pending ≡ 0) × (s.capture_inflight ≡ 0)

closed_by :
    (s : Session)
    → IsSession s
    → claims s ≡ false
    → (fd : ℤ) → IsSession (record s { is_open = false; fd = fd })
closed_by s v freed fd = record {
  counts = v.counts;
  closed = rw freed;
  flying = v.flying;
  capture_flying = v.capture_flying;
  ready = v.ready;
}

-- Without claims the format does not matter.
unowed_all :
    (s : Session) (empty : StreamFormat) (n : ℕ)
    → claims s ≡ false
    → owed s n ≡ owed (record s { format = empty }) n
unowed_all s empty n freed = let stream : s.interface_claimed ≡ false = ground arith in rw stream

open_device-IsSession :
    (w : World) (fd code : ℤ) (s : Session)
    → IsWorld w
    → IsSession s
    → First (open_device w fd code s)
unfolding open_device
open_device-IsSession w fd code s h v =
    let s1 = stop w s in
    let v1 = stop-IsSession w s h v in
    either First (not w.context) (λ t. v)
      (λ t.
        either First (live s1)
          (λ u. record {
            counts = v1.counts;
            closed = v1.closed;
            flying = v1.flying;
            capture_flying = v1.capture_flying;
            ready = v1.ready;
          })
          (λ u.
            let freed = stop_unclaims w s h v u in
            either First (s1.is_open && eqb_ℤ s1.fd fd && eqb_ℤ s1.driver_code code) (λ x. v1)
              (λ x.
                either First (not w.wrapped) (λ y. closed_by s1 v1 freed _)
                  (λ y.
                    either First (not (eqb_ℤ code (pos 0))) (λ z. closed_by s1 v1 freed _)
                      (λ z. record {
                        counts = v1.counts;
                        closed = refl;
                        flying = v1.flying;
                        capture_flying = v1.capture_flying;
                        ready = v1.ready;
                      })))))

close_device-IsSession :
    (w : World) (empty : StreamFormat) (s : Session)
    → IsWorld w
    → IsSession s
    → IsSession (close_device w empty s)
unfolding close_device
close_device-IsSession w empty s h v =
    let s1 = stop w s in
    let v1 = stop-IsSession w s h v in
    either IsSession (live s1) (λ u. v1)
      (λ u.
        let freed = stop_unclaims w s h v u in
        either IsSession s1.is_open
          (λ x. record {
            counts = λ n. v1.counts n ∙ unowed_all s1 empty n freed;
            closed = rw freed;
            flying = v1.flying;
            capture_flying = v1.capture_flying;
            ready = v1.ready;
          })
          (λ x. v1))

step-IsSession : {s t : Session} → IsSession s → Step s t → IsSession t
unfolding Comes fail_transport
step-IsSession {s} v (opens w fd code h) = open_device-IsSession w fd code s h v
step-IsSession {s} v (closes w empty h) = close_device-IsSession w empty s h v
step-IsSession {s} v (starts w deferred h) = (start-Comes w deferred s h v).0
step-IsSession {s} v (starts_duplex w h) = start_duplex-IsSession w s h v
step-IsSession {s} v (starts_playback w h) = start_playback-IsSession w s h v
step-IsSession {s} v (stops w h) = stop-IsSession w s h v
step-IsSession {s} v requests_stop = request_stop-IsSession s v
step-IsSession v (configures n a b c) = record {
  counts = v.counts;
  closed = v.closed;
  flying = v.flying;
  capture_flying = v.capture_flying;
  ready = v.ready;
}
step-IsSession v (defers a) = record {
  counts = v.counts;
  closed = v.closed;
  flying = omega (arith, v.flying);
  capture_flying = v.capture_flying;
  ready = ground (arith, v.ready);
}
step-IsSession v (resubmits n a) = record {
  counts = v.counts;
  closed = v.closed;
  flying = omega (arith, v.flying);
  capture_flying = v.capture_flying;
  ready = ground (arith, v.ready);
}
step-IsSession v (loses n a) = record {
  counts = v.counts;
  closed = v.closed;
  flying = omega (arith, v.flying);
  capture_flying = v.capture_flying;
  ready = ground (arith, v.ready);
}
step-IsSession v fails = record {
  counts = v.counts;
  closed = v.closed;
  flying = v.flying;
  capture_flying = v.capture_flying;
  ready = ground arith;
}
step-IsSession v (completes n m a b) = record {
  counts = v.counts;
  closed = v.closed;
  flying = omega (arith, v.flying);
  capture_flying = omega (arith, v.capture_flying);
  ready = ground (arith, v.ready);
}

new-IsSession : (s : Session) → IsNew s → IsSession s
new-IsSession s new =
    let (a, b, c) = new.no_claims in
    let (none_flying, none_pending, none_captured) = new.nothing_flies in
    record {
      counts = λ n. new.nothing_held n ∙ rw (a, b, c);
      closed = ground arith;
      flying = omega arith;
      capture_flying = omega arith;
      ready = ground arith;
    }

pub Reached-IsSession : {first s : Session} → IsNew first → Reached first s → IsSession s
Reached-IsSession {first} new at_start = new-IsSession first new
Reached-IsSession new (after r step) = step-IsSession (Reached-IsSession new r) step

-- Whatever calls of open, close, start, startDuplex, startPlayback, stop, requestStop and
-- configureUserspaceBuffers, completions, deferrals, resubmissions and transport failures follow each
-- other, whatever libusb answers: libusb has each interface claimed exactly as often as the driver's
-- flags say, and no transfer in flight or in the FIFO has been freed.
pub Reached-claims :
    (first s : Session) (n : ℕ)
    → IsNew first
    → Reached first s
    → (s.held n ≡ owed s n)
      × (s.inflight + s.pending ≤ s.transfers + s.feedback_transfers)
      × (s.capture_inflight ≤ s.capture_transfers)
Reached-claims first s n new r =
    let v = Reached-IsSession new r in (v.counts n, v.flying, v.capture_flying)
