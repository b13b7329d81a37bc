-- ===== src/Session/Claims.antt =====
-- The laws of a session through the claims and the start of playback in src/libusb_uac_driver.cpp.
use liballa.Base.{
  ℕ, ◌+◌, ◌≡◌, refl, sym, ◌∙◌, Bool, true, false, ◌&&◌, ◌||◌, not, arith, Bool-cases, ◌==◌, inl,
  inr,
}
use liballa.Descriptors.Playback.{StreamFormat}
use liballa.Session.{Session, World, claim_interface_failed, release_stream, release_control}
use liballa.Session.Start.{claim_stream, claim_control}
use liballa.Session.Held.{
  unit, IsSession, either, taken, release_stream-IsSession, release_control-IsSession,
}
use liballa.Session.Idle.{IsIdle}
use liballa.Session.Resumed.{with_error}

pub release_stream-open : (s : Session) → (release_stream s).is_open ≡ s.is_open
unfolding release_stream
release_stream-open s =
    either (λ (t : Session). t.is_open ≡ s.is_open) (s.is_open && s.interface_claimed) (λ t. refl)
      (λ f. refl)

pub release_stream_frees :
    (s : Session) → s.is_open ≡ true → (release_stream s).interface_claimed ≡ false
unfolding release_stream
release_stream_frees s o = elim (Bool-cases s.interface_claimed) [
  | inl t ↦ rw (o, t)
  | inr f ↦ rw (o, f)
]

pub release_stream-IsIdle : (s : Session) → IsIdle s → IsIdle (release_stream s)
unfolding release_stream
release_stream-IsIdle s v =
    either IsIdle (s.is_open && s.interface_claimed)
      (λ t. record { out = v.out; capture = v.capture }) (λ f. v)

pub unowed :
    (c x : Bool) {h : ℕ} (rest more : ℕ)
    → c ≡ false
    → h ≡ unit (c && x) + rest + more
    → h ≡ rest + more
unowed false x rest more e s = omega (arith, s)
unowed true x rest more e s = cc

-- The session that start is about to put the format into.
abbrev pub Taken : StreamFormat → Session × Bool → Type 0
Taken fmt r = r.1 ≡ true → IsSession (record r.0 { format = fmt })

pub claim_stream-IsSession :
    (w : World) (fmt : StreamFormat) (s : Session)
    → s.is_open ≡ true
    → IsSession s
    → Taken fmt (claim_stream w fmt s)
unfolding claim_stream
claim_stream-IsSession w fmt s o v =
    let s' = release_stream s in
    let v' = release_stream-IsSession s v in
    either (Taken fmt) (s.interface_claimed && s.format.interface_number == fmt.interface_number)
      (λ t e.
        let same : s.format.interface_number ≡ fmt.interface_number = ground arith in
        record {
          counts = λ n. rw (sym same) (v.counts n);
          closed = v.closed;
          flying = v.flying;
          capture_flying = v.capture_flying;
          ready = v.ready;
        })
      (λ f.
        either (Taken fmt) (not w.claims) (λ t e. cc)
          (λ g e.
            let freed = release_stream_frees s o in
            let opened : s'.is_open ≡ true = release_stream-open s ∙ o in
            record {
              counts = λ n.
                  let rest =
                    unit (s'.control_claimed && n == s'.claimed_control)
                    + unit (s'.capture_claimed && n == s'.claimed_capture) in
                  let nothing : s'.held n ≡ rest = unowed _ _ _ _ freed (v'.counts n) in
                  omega (
                    arith,
                    taken false (n == fmt.interface_number) (s'.held n) rest refl
                        (omega (arith, nothing)),
                  );
              closed = rw opened;
              flying = v'.flying;
              capture_flying = v'.capture_flying;
              ready = v'.ready;
            }))

abbrev IfFailed : Session × Bool → Type 0
IfFailed r = r.1 ≡ false → IsSession r.0

pub claim_stream_failed :
    (w : World) (fmt : StreamFormat) (s : Session) → IsSession s → IfFailed (claim_stream w fmt s)
unfolding claim_stream
claim_stream_failed w fmt s v =
    either IfFailed (s.interface_claimed && s.format.interface_number == fmt.interface_number)
      (λ t e. cc)
      (λ f.
        either IfFailed (not w.claims)
          (λ t e. with_error _ claim_interface_failed (release_stream-IsSession s v)) (λ g e. cc))

pub release_control-open : (s : Session) → (release_control s).is_open ≡ s.is_open
unfolding release_control
release_control-open s =
    either (λ (t : Session). t.is_open ≡ s.is_open) (s.is_open && s.control_claimed) (λ t. refl)
      (λ f. refl)

pub release_control_frees :
    (s : Session) → s.is_open ≡ true → (release_control s).control_claimed ≡ false
unfolding release_control
release_control_frees s o = elim (Bool-cases s.control_claimed) [
  | inl t ↦ rw (o, t)
  | inr f ↦ rw (o, f)
]

pub claim_control-IsSession :
    (w : World) (fmt : StreamFormat) (s : Session)
    → s.is_open ≡ true
    → IsSession s
    → IsSession (claim_control w fmt s)
unfolding claim_control
claim_control-IsSession w fmt s o v =
    let i = fmt.control_interface_num in
    let s' = release_control s in
    let v' = release_control-IsSession s v in
    either IsSession (i == 0xFF || (s.control_claimed && s.claimed_control == i)) (λ t. v)
      (λ f.
        either IsSession (not w.claims_control) (λ t. v')
          (λ g.
            let freed = release_control_frees s o in
            let opened : s'.is_open ≡ true = release_control-open s ∙ o in
            record {
              counts = λ n.
                  let a = unit (s'.interface_claimed && n == s'.format.interface_number) in
                  let b = unit (s'.capture_claimed && n == s'.claimed_capture) in
                  let nothing : s'.held n ≡ a + b =
                    unowed s'.control_claimed (n == s'.claimed_control) a b freed
                      (omega (arith, v'.counts n)) in
                  omega
                    (arith, taken false (n == i) (s'.held n) (a + b) refl (omega (arith, nothing)));
              closed = rw opened;
              flying = v'.flying;
              capture_flying = v'.capture_flying;
              ready = v'.ready;
            }))

-- The format may be put in before the claim of the control interface as well as after it.
pub claim_control-format :
    (w : World) (fmt : StreamFormat) (s : Session)
    → record (claim_control w fmt s) { format = fmt }
      ≡ claim_control w fmt (record s { format = fmt })
unfolding claim_control release_control
claim_control-format w fmt s =
    let i = fmt.control_interface_num in
    elim (Bool-cases (i == 0xFF || (s.control_claimed && s.claimed_control == i))) [
      | inl t ↦ rw t
      | inr f ↦ elim (Bool-cases (s.is_open && s.control_claimed)) [
        | inl x ↦ elim (Bool-cases w.claims_control) [ inl c ↦ rw (f, x, c) | inr c ↦ rw (f, x, c) ]
        | inr x ↦ elim (Bool-cases w.claims_control) [ inl c ↦ rw (f, x, c) | inr c ↦ rw (f, x, c) ]
      ]
    ]
