-- ===== src/Session/Errors.antt =====
-- The result of start in src/libusb_uac_driver.cpp and the error that it records.
use liballa.Base.{
  ◌+◌, ◌≡◌, refl, sym, ap, ◌∙◌, inl, inr, Bool, true, false, ◌&&◌, ◌||◌, not, Option, none, some,
  arith, Bool-cases, ltb, ◌==◌, if◌then◌else◌,
}
use liballa.Base.Int.{ltb_ℤ}
use liballa.Descriptors.Playback.{StreamFormat}
use liballa.Session.{
  Session, World, StartError, ok, no_device, no_matching_alt, claim_interface_failed,
  set_alt_failed, set_sample_rate_failed, iso_pump_alloc_failed, iso_pump_submit_failed,
  transport_stopped_unexpectedly, unknown, stop_pumps, stop_iso_pump, stop_capture_pump,
  release_stream, release_control, release_capture,
}
use liballa.Session.Start.{
  start, reconfigure, claim_stream, claim_control, start_format, start_selected, start_iso_pump,
  submit_iso_pump, needs_metadata, is_refused, unless_ok, is_busy,
}
use liballa.Session.Held.{either}

abbrev pub is_ok : StartError → Bool
is_ok ok = true
is_ok e = false

-- A result that is true with the error ok, and false with another one.
abbrev Tells : Session × Bool → Type 0
Tells r = r.1 ≡ is_ok r.0.last_error

-- A success that leaves the error as it was.
abbrev Keeps : StartError → Session × Bool → Type 0
Keeps e r = r.1 ≡ true → r.0.last_error ≡ e

submit_iso_pump-Keeps : (w : World) (s : Session) → Keeps s.last_error (submit_iso_pump w s)
unfolding submit_iso_pump
submit_iso_pump-Keeps w s =
    either (Keeps s.last_error) s.stop_requested (λ t e. cc)
      (λ f.
        either (Keeps s.last_error)
          (s.format.channels == 0
            || s.format.bytes_per_sample == 0
            || ltb_ℤ s.buffered s.startup_prime)
          (λ t e. cc)
          (λ g.
            either (Keeps s.last_error) (ltb w.accepts (s.feedback_transfers + s.transfers))
              (λ t e. cc) (λ t e. refl)))

start_iso_pump-Keeps :
    (w : World) (submit : Bool) (s : Session) → Keeps s.last_error (start_iso_pump w submit s)
unfolding start_iso_pump
start_iso_pump-Keeps w submit s =
    either (Keeps s.last_error) (not w.usable) (λ t e. cc)
      (λ f.
        either (Keeps s.last_error) (ltb w.allocates s.transfer_count) (λ t e. cc)
          (λ g.
            either (Keeps s.last_error) (needs_metadata s && not w.metadata_lasts) (λ t e. cc)
              (λ lasts.
                either (Keeps s.last_error)
                  (ltb w.allocates_feedback
                    (if s.format.feedback_endpoint_address == 0 then 0 else 2))
                  (λ t e. cc)
                  (λ x.
                    either (Keeps s.last_error) (not submit) (λ t e. refl)
                      (λ y. submit_iso_pump-Keeps w _)))))

not_ok : (e : StartError) → false ≡ is_ok (unless_ok e)
not_ok ok = refl
not_ok no_device = refl
not_ok no_matching_alt = refl
not_ok claim_interface_failed = refl
not_ok set_alt_failed = refl
not_ok set_sample_rate_failed = refl
not_ok iso_pump_alloc_failed = refl
not_ok iso_pump_submit_failed = refl
not_ok transport_stopped_unexpectedly = refl
not_ok unknown = refl

start_format-Tells :
    (w : World) (deferred : Bool) (fmt : StreamFormat) (s : Session)
    → s.last_error ≡ ok
    → Tells (start_format w deferred fmt s)
unfolding start_format
start_format-Tells w deferred fmt s clear =
    either Tells (not w.sets_alt) (λ t. refl)
      (λ f.
        either Tells (is_refused w.sets_rate) (λ t. refl)
          (λ g.
            either Tells deferred (λ t. ap is_ok (sym clear))
              (λ x.
                either Tells (not (start_iso_pump w true _).1) (λ t. not_ok _)
                  (λ y. ap is_ok (sym (start_iso_pump-Keeps w true _ (ground arith) ∙ clear))))))

abbrev SameError : StartError → Session → Type 0
SameError e s = s.last_error ≡ e

release_stream-error : (s : Session) → (release_stream s).last_error ≡ s.last_error
unfolding release_stream
release_stream-error s =
    either (SameError s.last_error) (s.is_open && s.interface_claimed) (λ t. refl) (λ f. refl)

release_control-error : (s : Session) → (release_control s).last_error ≡ s.last_error
unfolding release_control
release_control-error s =
    either (SameError s.last_error) (s.is_open && s.control_claimed) (λ t. refl) (λ f. refl)

release_capture-error : (s : Session) → (release_capture s).last_error ≡ s.last_error
unfolding release_capture
release_capture-error s =
    either (SameError s.last_error) (s.is_open && s.capture_claimed) (λ t. refl) (λ f. refl)

stop_pumps-error : (w : World) (s : Session) → (stop_pumps w s).0.last_error ≡ s.last_error
unfolding stop_pumps stop_iso_pump stop_capture_pump
stop_pumps-error w s = elim (Bool-cases (w.left s.inflight == 0)) [
  | inl t ↦ elim (Bool-cases (w.left_capture s.capture_inflight == 0)) [
    | inl u ↦ rw (t, u)
    | inr u ↦ rw (t, u)
  ]
  | inr t ↦ elim (Bool-cases (w.left_capture s.capture_inflight == 0)) [
    | inl u ↦ rw (t, u)
    | inr u ↦ rw (t, u)
  ]
]

claim_control-error :
    (w : World) (fmt : StreamFormat) (s : Session)
    → (claim_control w fmt s).last_error ≡ s.last_error
unfolding claim_control
claim_control-error w fmt s =
    let i = fmt.control_interface_num in
    either (SameError s.last_error) (i == 0xFF || (s.control_claimed && s.claimed_control == i))
      (λ t. refl)
      (λ f.
        either (SameError s.last_error) (not w.claims_control) (λ t. release_control-error s)
          (λ g. release_control-error s))

-- A step that goes on with the error still ok, or fails with another one.
abbrev GoesOn : Session × Bool → Type 0
GoesOn r = if r.1 then r.0.last_error ≡ ok else false ≡ is_ok r.0.last_error

claim_stream-GoesOn :
    (w : World) (fmt : StreamFormat) (s : Session)
    → s.last_error ≡ ok
    → GoesOn (claim_stream w fmt s)
unfolding claim_stream
claim_stream-GoesOn w fmt s clear =
    either GoesOn (s.interface_claimed && s.format.interface_number == fmt.interface_number)
      (λ t. clear)
      (λ f. either GoesOn (not w.claims) (λ t. refl) (λ g. release_stream-error s ∙ clear))

reconfigure-GoesOn : (w : World) (s : Session) → s.last_error ≡ ok → GoesOn (reconfigure w s)
unfolding reconfigure
reconfigure-GoesOn w s clear =
    let s1 = record s { capture_active = false } in
    either GoesOn (not (is_busy s)) (λ t. clear)
      (λ f.
        either GoesOn (not (stop_pumps w s1).1) (λ t. refl)
          (λ g. release_capture-error _ ∙ stop_pumps-error w s1 ∙ clear))

-- A step and what follows it.
go_on :
    (step : Session × Bool) (next : Session → Session × Bool)
    → GoesOn step
    → ((s : Session) → s.last_error ≡ ok → Tells (next s))
    → Tells (if not step.1 then (step.0, false) else next step.0)
go_on (s, true) next g tells = tells s g
go_on (s, false) next g tells = g

start_selected-Tells :
    (w : World) (deferred : Bool) (s : Session)
    → s.last_error ≡ ok
    → Tells (start_selected w deferred s)
unfolding start_selected
start_selected-Tells w deferred s clear = select w.selected
  where
    select :
        (selected : Option StreamFormat)
        → Tells (elim selected as (λ x. Session × Bool) [
          | none ↦ (record s { last_error = no_matching_alt }, false)
          | some fmt ↦
              let (s', claimed) = claim_stream w fmt s in
              if not claimed
              then (s', false)
              else start_format w deferred fmt (claim_control w fmt s')
        ])
    select none = refl
    select (some fmt) =
        go_on (claim_stream w fmt s) (λ t. start_format w deferred fmt (claim_control w fmt t))
          (claim_stream-GoesOn w fmt s clear)
          (λ t e. start_format-Tells w deferred fmt _ (claim_control-error w fmt t ∙ e))

-- Every failure of `start`, on every path, is recorded as an error, and a success leaves the error ok.
pub start_tells :
    (w : World) (deferred : Bool) (s : Session)
    → let (t, accepted) = start w deferred s in accepted ≡ is_ok t.last_error
unfolding start
start_tells w deferred s =
    let s1 = record s { last_error = ok } in
    either Tells (not s.is_open) (λ t. refl)
      (λ f.
        either Tells (not w.wakes) (λ t. refl)
          (λ g.
            go_on (reconfigure w s1) (start_selected w deferred) (reconfigure-GoesOn w s1 refl)
              (start_selected-Tells w deferred)))
