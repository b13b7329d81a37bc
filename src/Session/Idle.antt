-- ===== src/Session/Idle.antt =====
-- What src/libusb_uac_driver.cpp leaves allocated when it has halted the pumps.
use liballa.Base.{◌≡◌, refl, Bool, true, false, ◌&&◌, not, arith, Bool-cases, ◌==◌, inl, inr}
use liballa.Session.{
  Session, World, stop_iso_pump, stop_capture_pump, stop_pumps, release_capture, live,
}
use liballa.Session.Start.{is_busy, reconfigure}
use liballa.Session.Held.{either}

-- Nothing is allocated or in flight, for playback and for capture.
pub record IsIdle (s : Session) : Type 0 where
  pub out : (s.transfers ≡ 0) × (s.feedback_transfers ≡ 0) × (s.inflight ≡ 0)
  pub capture : (s.capture_transfers ≡ 0) × (s.capture_inflight ≡ 0)

abbrev pub IdleIf : Session × Bool → Type 0
IdleIf r = r.1 ≡ true → IsIdle r.0

pub stop_pumps-IsIdle : (w : World) (s : Session) → IdleIf (stop_pumps w s)
unfolding stop_pumps stop_iso_pump stop_capture_pump
stop_pumps-IsIdle w s = elim (Bool-cases (w.left s.inflight == 0)) [
  | inr f ↦ rw f (λ e. cc)
  | inl t ↦ elim (Bool-cases (w.left_capture s.capture_inflight == 0)) [
    | inr f ↦ rw (t, f) (λ e. cc)
    | inl u ↦ rw (t, u) (λ e. record { out = (refl, refl, refl); capture = (refl, refl) })
  ]
]

pub release_capture-IsIdle : (s : Session) → IsIdle s → IsIdle (release_capture s)
unfolding release_capture
release_capture-IsIdle s v =
    either IsIdle (s.is_open && s.capture_claimed)
      (λ t. record { out = v.out; capture = v.capture }) (λ f. v)

pub reconfigure-IsIdle : (w : World) (s : Session) → IdleIf (reconfigure w s)
unfolding reconfigure is_busy live
reconfigure-IsIdle w s =
    let s1 = record s { capture_active = false } in
    either IdleIf (not (is_busy s))
      (λ t e. record {
        out = (ground arith, ground arith, ground arith);
        capture = (ground arith, ground arith);
      })
      (λ f.
        either IdleIf (not (stop_pumps w s1).1) (λ t e. cc)
          (λ g e.
            let stopped : (stop_pumps w s1).1 ≡ true = ground arith in
            let idle = release_capture-IsIdle _ (stop_pumps-IsIdle w s1 stopped) in
            record { out = idle.out; capture = idle.capture }))
