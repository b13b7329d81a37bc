-- ===== src/Session/Prepared.antt =====
-- The session that start of src/libusb_uac_driver.cpp has halted, and goes on with.
use liballa.Base.{
  ◌≡◌, refl, ◌∙◌, Bool, true, false, ◌&&◌, ◌||◌, not, arith, Bool-cases, ◌==◌, inl, inr,
}
use liballa.Descriptors.Playback.{StreamFormat}
use liballa.Session.{
  Session, World, stop_iso_pump, stop_capture_pump, stop_pumps, release_stream, release_control,
  release_capture, live,
}
use liballa.Session.Start.{is_busy, reconfigure, claim_stream, claim_control}
use liballa.Session.Held.{either}
use liballa.Session.Idle.{IsIdle, reconfigure-IsIdle}

-- Nothing is allocated, the device is open, and capture has no interface.
pub record IsPrepared (s : Session) : Type 0 where
  pub idle : IsIdle s
  pub opened : s.is_open ≡ true
  pub unclaimed : s.capture_claimed ≡ false

abbrev pub PreparedIf : Session × Bool → Type 0
PreparedIf r = r.1 ≡ true → IsPrepared r.0

pub stop_pumps-open : (w : World) (s : Session) → (stop_pumps w s).0.is_open ≡ s.is_open
unfolding stop_pumps stop_iso_pump stop_capture_pump
stop_pumps-open w s = elim (Bool-cases (w.left s.inflight == 0)) [
  | inl t ↦ elim (Bool-cases (w.left_capture s.capture_inflight == 0)) [
    | inl u ↦ rw (t, u)
    | inr u ↦ rw (t, u)
  ]
  | inr t ↦ elim (Bool-cases (w.left_capture s.capture_inflight == 0)) [
    | inl u ↦ rw (t, u)
    | inr u ↦ rw (t, u)
  ]
]

pub release_capture-open : (s : Session) → (release_capture s).is_open ≡ s.is_open
unfolding release_capture
release_capture-open s =
    either (λ (t : Session). t.is_open ≡ s.is_open) (s.is_open && s.capture_claimed) (λ t. refl)
      (λ f. refl)

pub release_capture_frees :
    (s : Session) → s.is_open ≡ true → (release_capture s).capture_claimed ≡ false
unfolding release_capture
release_capture_frees s o = elim (Bool-cases s.capture_claimed) [
  | inl t ↦ rw (o, t)
  | inr f ↦ rw (o, f)
]

pub reconfigure-IsPrepared :
    (w : World) (s : Session) → s.is_open ≡ true → PreparedIf (reconfigure w s)
unfolding reconfigure is_busy live
reconfigure-IsPrepared w s o e = record {
  idle = reconfigure-IsIdle w s e;
  opened = opened;
  unclaimed = unclaimed;
}
  where
    s1 : Session
    s1 = record s { capture_active = false }

    opened : (reconfigure w s).0.is_open ≡ true
    opened =
        either (λ (r : Session × Bool). r.0.is_open ≡ true) (not (is_busy s)) (λ t. o)
          (λ f.
            either (λ (r : Session × Bool). r.0.is_open ≡ true) (not (stop_pumps w s1).1)
              (λ t. stop_pumps-open w s1 ∙ o)
              (λ g. release_capture-open _ ∙ stop_pumps-open w s1 ∙ o))

    unclaimed : (reconfigure w s).0.capture_claimed ≡ false
    unclaimed =
        either (λ (r : Session × Bool). r.1 ≡ true → r.0.capture_claimed ≡ false) (not (is_busy s))
          (λ t x. ground arith)
          (λ f.
            either (λ (r : Session × Bool). r.1 ≡ true → r.0.capture_claimed ≡ false)
              (not (stop_pumps w s1).1) (λ t x. cc)
              (λ g x. release_capture_frees _ (stop_pumps-open w s1 ∙ o)))
          e

release_stream-IsPrepared : (s : Session) → IsPrepared s → IsPrepared (release_stream s)
unfolding release_stream
release_stream-IsPrepared s v =
    either IsPrepared (s.is_open && s.interface_claimed)
      (λ t. record {
        idle = record { out = v.idle.out; capture = v.idle.capture };
        opened = v.opened;
        unclaimed = v.unclaimed;
      })
      (λ f. v)

pub claim_stream-IsPrepared :
    (w : World) (fmt : StreamFormat) (s : Session)
    → IsPrepared s
    → IsPrepared (claim_stream w fmt s).0
unfolding claim_stream
claim_stream-IsPrepared w fmt s v =
    let v' = release_stream-IsPrepared s v in
    either (λ (r : Session × Bool). IsPrepared r.0)
      (s.interface_claimed && s.format.interface_number == fmt.interface_number) (λ t. v)
      (λ f.
        either (λ (r : Session × Bool). IsPrepared r.0) (not w.claims)
          (λ t. record {
            idle = record { out = v'.idle.out; capture = v'.idle.capture };
            opened = v'.opened;
            unclaimed = v'.unclaimed;
          })
          (λ g. record {
            idle = record { out = v'.idle.out; capture = v'.idle.capture };
            opened = v'.opened;
            unclaimed = v'.unclaimed;
          }))

pub claim_control-IsPrepared :
    (w : World) (fmt : StreamFormat) (s : Session)
    → IsPrepared s
    → IsPrepared (claim_control w fmt s)
unfolding claim_control release_control
claim_control-IsPrepared w fmt s v =
    let i = fmt.control_interface_num in
    let v' : IsPrepared (release_control s) =
      either IsPrepared (s.is_open && s.control_claimed)
        (λ t. record {
          idle = record { out = v.idle.out; capture = v.idle.capture };
          opened = v.opened;
          unclaimed = v.unclaimed;
        })
        (λ f. v) in
    either IsPrepared (i == 0xFF || (s.control_claimed && s.claimed_control == i)) (λ t. v)
      (λ f.
        either IsPrepared (not w.claims_control) (λ t. v')
          (λ g. record {
            idle = record { out = v'.idle.out; capture = v'.idle.capture };
            opened = v'.opened;
            unclaimed = v'.unclaimed;
          }))
