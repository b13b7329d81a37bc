-- ===== src/Session/Unwind.antt =====
-- What stop leaves in src/libusb_uac_driver.cpp: claims that are given back, unless transfers live.
use liballa.Base.{
  ℕ, ◌⊎◌, ◌≡◌, refl, ◌∙◌, inl, inr, Bool, true, false, ◌&&◌, ◌||◌, not, arith, Bool-cases, ◌==◌,
}
use liballa.Session.{
  Session, World, stop, live, stop_pumps, request_stop, stop_iso_pump, stop_capture_pump,
  release_stream, release_control, release_capture,
}
use liballa.Session.Held.{
  IsSession, IsWorld, either, stop_pumps-IsSession, request_stop-IsSession, stop-IsSession, owed,
}
use liballa.Session.Claims.{
  release_stream_frees, release_control_frees, release_stream-open, release_control-open,
}
use liballa.Session.Prepared.{release_capture_frees}

abbrev pub claims : Session → Bool
claims s = s.interface_claimed || s.control_claimed || s.capture_claimed

-- The claims that a release does not touch.
control_keeps : (s : Session) → (release_control s).interface_claimed ≡ s.interface_claimed
unfolding release_control
control_keeps s =
    either (λ (t : Session). t.interface_claimed ≡ s.interface_claimed)
      (s.is_open && s.control_claimed) (λ t. refl) (λ f. refl)

capture_keeps :
    (s : Session)
    → ((release_capture s).interface_claimed ≡ s.interface_claimed)
      × ((release_capture s).control_claimed ≡ s.control_claimed)
unfolding release_capture
capture_keeps s =
    either
      (λ (t : Session).
        (t.interface_claimed ≡ s.interface_claimed) × (t.control_claimed ≡ s.control_claimed))
      (s.is_open && s.capture_claimed) (λ t. (refl, refl)) (λ f. (refl, refl))

closed_releases :
    (s : Session)
    → s.is_open ≡ false
    → claims s ≡ false
    → claims (release_capture (release_control (release_stream s))) ≡ false
unfolding release_stream release_control release_capture
closed_releases s o e = rw (o) e

releases_unclaim :
    (s : Session)
    → IsSession s
    → claims (release_capture (release_control (release_stream s))) ≡ false
releases_unclaim s v = elim (Bool-cases s.is_open) [
  | inr o ↦ closed_releases s o (ground (arith, v.closed))
  | inl o ↦
      let a = release_stream s in
      let b = release_control a in
      let c = release_capture b in
      let open_a : a.is_open ≡ true = release_stream-open s ∙ o in
      let open_b : b.is_open ≡ true = release_control-open a ∙ open_a in
      let (keeps, keeps') = capture_keeps b in
      let stream : c.interface_claimed ≡ false =
        keeps ∙ control_keeps a ∙ release_stream_frees s o in
      let control : c.control_claimed ≡ false = keeps' ∙ release_control_frees a open_a in
      let capture : c.capture_claimed ≡ false = release_capture_frees b open_b in
      rw (stream, control, capture)
]

live_pumps : (w : World) (s : Session) → (stop_pumps w s).1 ≡ false → live (stop_pumps w s).0 ≡ true
unfolding stop_pumps stop_iso_pump stop_capture_pump live
live_pumps w s = elim (Bool-cases (w.left s.inflight == 0)) [
  | inl t ↦ elim (Bool-cases (w.left_capture s.capture_inflight == 0)) [
    | inl u ↦ rw (t, u) (λ e. cc)
    | inr u ↦ rw (t, u) (λ e. ground arith)
  ]
  | inr t ↦ elim (Bool-cases (w.left_capture s.capture_inflight == 0)) [
    | inl u ↦ rw (t, u) (λ e. ground arith)
    | inr u ↦ rw (t, u) (λ e. ground arith)
  ]
]

idle_unclaims : (s : Session) → claims s ≡ false → claims (request_stop s) ≡ false
unfolding request_stop
idle_unclaims s e = e

abbrev Given : Session → Type 0
Given t = live t ≡ false → claims t ≡ false

-- Nothing is claimed in a session that has been stopped and in which no transfer lives.
pub stop_unclaims :
    (w : World) (s : Session)
    → IsWorld w
    → IsSession s
    → live (stop w s) ≡ false
    → claims (stop w s) ≡ false
unfolding stop
stop_unclaims w s h v =
    let s1 = request_stop s in
    let v2 = stop_pumps-IsSession w s1 h (request_stop-IsSession s v) in
    either Given
      (s.transfers == 0
        && s.capture_transfers == 0
        && not s.interface_claimed
        && not s.control_claimed
        && not s.capture_claimed)
      (λ t e. idle_unclaims s (ground arith))
      (λ f.
        either Given (not (stop_pumps w s1).1)
          (λ t e. let lives = live_pumps w s1 (ground arith) in cc)
          (λ g e. releases_unclaim (stop_pumps w s1).0 v2))

pub unclaimed_owes : (s : Session) (n : ℕ) → claims s ≡ false → owed s n ≡ 0
unclaimed_owes s n e =
    let a : s.interface_claimed ≡ false = ground arith in
    let b : s.control_claimed ≡ false = ground arith in
    let c : s.capture_claimed ≡ false = ground arith in rw (a, b, c)

-- Transfers live, or libusb has nothing claimed.
unfoldable pub Unwound : ℕ → Session → Type 0
Unwound n t = (live t ≡ true) ⊎ (t.held n ≡ 0)

pub stop-Unwound :
    (w : World) (s : Session) (n : ℕ) → IsWorld w → IsSession s → Unwound n (stop w s)
unfolding Unwound
stop-Unwound w s n h v = elim (Bool-cases (live (stop w s))) [
  | inl lives ↦ inl lives
  | inr f ↦
      inr
        ((stop-IsSession w s h v).counts n ∙ unclaimed_owes (stop w s) n (stop_unclaims w s h v f))
]
