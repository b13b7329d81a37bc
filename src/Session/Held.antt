-- ===== src/Session/Held.antt =====
-- The interfaces that src/libusb_uac_driver.cpp has claimed and the transfers that are in flight: the
-- pumps and stop.
use liballa.Base.{
  ℕ, ◌+◌, ◌-◌, ◌≤◌, ◌≡◌, refl, Bool, true, false, ◌&&◌, ◌||◌, not, arith, ◌==◌, if◌then◌else◌,
}
use liballa.Session.{
  Session, World, stop_iso_pump, stop_capture_pump, stop_pumps, request_stop, release_stream,
  release_control, release_capture, stop,
}

abbrev pub unit : Bool → ℕ
unit true = 1
unit false = 0

-- How often the driver believes to have claimed the interface `n`.
abbrev pub owed : Session → ℕ → ℕ
owed s n =
    unit (s.interface_claimed && n == s.format.interface_number)
    + unit (s.control_claimed && n == s.claimed_control)
    + unit (s.capture_claimed && n == s.claimed_capture)

-- libusb holds what the driver believes, a closed driver has claimed nothing, a transfer in flight or in
-- the FIFO has not been freed, and none is there where playback may still start.
pub record IsSession (s : Session) : Type 0 where
  pub counts : (n : ℕ) → s.held n ≡ owed s n
  pub closed :
      (s.is_open || not (s.interface_claimed || s.control_claimed || s.capture_claimed)) ≡ true
  pub flying : s.inflight + s.pending ≤ s.transfers + s.feedback_transfers
  pub capture_flying : s.capture_inflight ≤ s.capture_transfers
  pub ready : (s.playback_started || s.stop_requested || s.inflight + s.pending == 0) ≡ true

-- Waiting does not put transfers in flight.
pub record IsWorld (w : World) : Type 0 where
  pub left_less : (n : ℕ) → w.left n ≤ n
  pub left_capture_less : (n : ℕ) → w.left_capture n ≤ n

-- A property of both branches, each under its test.
pub either :
    {A : Type 0} (P : A → Type 0) (b : Bool) {x y : A}
    → (b ≡ true → P x)
    → (b ≡ false → P y)
    → P (if b then x else y)
either P true px py = px refl
either P false px py = py refl

abbrev pub First : Session × Bool → Type 0
First r = IsSession r.0

pub requested : (s : Session) → IsSession s → IsSession (record s { stop_requested = true })
requested s v = record {
  counts = v.counts;
  closed = v.closed;
  flying = v.flying;
  capture_flying = v.capture_flying;
  ready = ground arith;
}

pub stop_iso_pump-IsSession :
    (w : World) (s : Session)
    → IsWorld w
    → IsSession (record s { stop_requested = true })
    → First (stop_iso_pump w s)
unfolding stop_iso_pump
stop_iso_pump-IsSession w s h v =
    either First (w.left s.inflight == 0)
      (λ t. record {
        counts = v.counts;
        closed = v.closed;
        flying = omega arith;
        capture_flying = v.capture_flying;
        ready = ground arith;
      })
      (λ f. record {
        counts = v.counts;
        closed = v.closed;
        flying = omega (arith, h.left_less s.inflight, v.flying);
        capture_flying = v.capture_flying;
        ready = ground arith;
      })

pub stop_capture_pump-IsSession :
    (w : World) (s : Session) → IsWorld w → IsSession s → First (stop_capture_pump w s)
unfolding stop_capture_pump
stop_capture_pump-IsSession w s h v =
    either First (w.left_capture s.capture_inflight == 0)
      (λ t. record {
        counts = v.counts;
        closed = v.closed;
        flying = v.flying;
        capture_flying = omega arith;
        ready = v.ready;
      })
      (λ f. record {
        counts = v.counts;
        closed = v.closed;
        flying = v.flying;
        capture_flying = omega (arith, h.left_capture_less s.capture_inflight, v.capture_flying);
        ready = v.ready;
      })

pub stop_pumps-IsSession :
    (w : World) (s : Session) → IsWorld w → IsSession s → First (stop_pumps w s)
unfolding stop_pumps
stop_pumps-IsSession w s h v =
    stop_capture_pump-IsSession w (stop_iso_pump w s).0 h
      (stop_iso_pump-IsSession w s h (requested s v))

-- One interface given back, and one claimed.
given_back :
    (c x : Bool) (h rest : ℕ)
    → c ≡ true
    → h ≡ unit (c && x) + rest
    → (if x then h - 1 else h) ≡ unit (false && x) + rest
given_back true true h rest e s = omega (arith, s)
given_back true false h rest e s = s
given_back false x h rest e s = cc

pub taken :
    (c x : Bool) (h rest : ℕ)
    → c ≡ false
    → h ≡ unit (c && x) + rest
    → (if x then h + 1 else h) ≡ unit (true && x) + rest
taken false true h rest e s = omega (arith, s)
taken false false h rest e s = s
taken true x h rest e s = cc

pub release_stream-IsSession : (s : Session) → IsSession s → IsSession (release_stream s)
unfolding release_stream
release_stream-IsSession s v =
    either IsSession (s.is_open && s.interface_claimed)
      (λ t.
        let claimed : s.interface_claimed ≡ true = ground arith in
        let opened : s.is_open ≡ true = ground arith in
        record {
          counts = λ n.
              let x = n == s.format.interface_number in
              let rest =
                unit (s.control_claimed && n == s.claimed_control)
                + unit (s.capture_claimed && n == s.claimed_capture) in
              omega (
                arith,
                given_back s.interface_claimed x (s.held n) rest claimed
                    (omega (arith, v.counts n)),
              );
          closed = rw opened;
          flying = v.flying;
          capture_flying = v.capture_flying;
          ready = v.ready;
        })
      (λ f. v)

pub release_control-IsSession : (s : Session) → IsSession s → IsSession (release_control s)
unfolding release_control
release_control-IsSession s v =
    either IsSession (s.is_open && s.control_claimed)
      (λ t.
        let claimed : s.control_claimed ≡ true = ground arith in
        let opened : s.is_open ≡ true = ground arith in
        record {
          counts = λ n.
              let x = n == s.claimed_control in
              let rest =
                unit (s.interface_claimed && n == s.format.interface_number)
                + unit (s.capture_claimed && n == s.claimed_capture) in
              omega (
                arith,
                given_back s.control_claimed x (s.held n) rest claimed (omega (arith, v.counts n)),
              );
          closed = rw opened;
          flying = v.flying;
          capture_flying = v.capture_flying;
          ready = v.ready;
        })
      (λ f. v)

pub release_capture-IsSession : (s : Session) → IsSession s → IsSession (release_capture s)
unfolding release_capture
release_capture-IsSession s v =
    either IsSession (s.is_open && s.capture_claimed)
      (λ t.
        let claimed : s.capture_claimed ≡ true = ground arith in
        let opened : s.is_open ≡ true = ground arith in
        record {
          counts = λ n.
              let x = n == s.claimed_capture in
              let rest =
                unit (s.interface_claimed && n == s.format.interface_number)
                + unit (s.control_claimed && n == s.claimed_control) in
              omega (
                arith,
                given_back s.capture_claimed x (s.held n) rest claimed (omega (arith, v.counts n)),
              );
          closed = rw opened;
          flying = v.flying;
          capture_flying = v.capture_flying;
          ready = v.ready;
        })
      (λ f. v)

pub request_stop-IsSession : (s : Session) → IsSession s → IsSession (request_stop s)
unfolding request_stop
request_stop-IsSession s v = record {
  counts = v.counts;
  closed = v.closed;
  flying = v.flying;
  capture_flying = v.capture_flying;
  ready = (requested s v).ready;
}

pub stop-IsSession : (w : World) (s : Session) → IsWorld w → IsSession s → IsSession (stop w s)
unfolding stop
stop-IsSession w s h v =
    let v1 = request_stop-IsSession s v in
    let v2 = stop_pumps-IsSession w (request_stop s) h v1 in
    either IsSession
      (s.transfers == 0
        && s.capture_transfers == 0
        && not s.interface_claimed
        && not s.control_claimed
        && not s.capture_claimed)
      (λ t. v1)
      (λ f.
        either IsSession (not (stop_pumps w (request_stop s)).1) (λ t. v2)
          (λ g.
            release_capture-IsSession _
              (release_control-IsSession _ (release_stream-IsSession _ v2))))
