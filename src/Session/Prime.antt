-- ===== src/Session/Prime.antt =====
-- start of src/libusb_uac_driver.cpp without startDuplex, which submits to a ring that it has emptied.
use liballa.Base.{
  ◌&&◌, ◌≡◌, refl, Bool, true, false, ◌||◌, not, Option, none, some, arith, ltb, ◌==◌,
  if◌then◌else◌,
}
use liballa.Base.Int.{pos, ltb_ℤ}
use liballa.Descriptors.Playback.{StreamFormat}
use liballa.Session.{Session, World, no_matching_alt}
use liballa.Session.Start.{
  start, reconfigure, claim_stream, claim_control, start_format, start_selected, start_iso_pump,
  submit_iso_pump, needs_metadata, is_refused,
}
use liballa.Session.Held.{either}

abbrev Fails : Session × Bool → Type 0
Fails r = r.1 ≡ false

submit_iso_pump-Fails :
    (w : World) (s : Session)
    → ltb_ℤ s.buffered s.startup_prime ≡ true
    → Fails (submit_iso_pump w s)
unfolding submit_iso_pump
submit_iso_pump-Fails w s short =
    either Fails s.stop_requested (λ t. refl)
      (λ f.
        either Fails
          (s.format.channels == 0
            || s.format.bytes_per_sample == 0
            || ltb_ℤ s.buffered s.startup_prime)
          (λ t. refl) (λ g. absurd (ground arith)))

start_iso_pump-Fails :
    (w : World) (s : Session) → ltb_ℤ s.buffered w.prime ≡ true → Fails (start_iso_pump w true s)
unfolding start_iso_pump
start_iso_pump-Fails w s short =
    either Fails (not w.usable) (λ t. refl)
      (λ f.
        either Fails (ltb w.allocates s.transfer_count) (λ t. refl)
          (λ g.
            either Fails (needs_metadata s && not w.metadata_lasts) (λ t. refl)
              (λ lasts.
                either Fails
                  (ltb w.allocates_feedback
                    (if s.format.feedback_endpoint_address == 0 then 0 else 2))
                  (λ t. refl) (λ x. submit_iso_pump-Fails w _ short))))

either_false :
    (b : Bool) (s t : Session) → b ≡ false → Fails (if not b then (s, false) else (t, true))
either_false true s t e = e
either_false false s t e = refl

start_format-Fails :
    (w : World) (fmt : StreamFormat) (s : Session)
    → ltb_ℤ (pos 0) w.prime ≡ true
    → Fails (start_format w false fmt s)
unfolding start_format
start_format-Fails w fmt s wanted =
    either Fails (not w.sets_alt) (λ t. refl)
      (λ f.
        either Fails (is_refused w.sets_rate) (λ t. refl)
          (λ g. either_false (start_iso_pump w true _).1 _ _ (start_iso_pump-Fails w _ wanted)))

start_selected-Fails :
    (w : World) (s : Session) → ltb_ℤ (pos 0) w.prime ≡ true → Fails (start_selected w false s)
unfolding start_selected
start_selected-Fails w s wanted = select w.selected
  where
    select :
        (selected : Option StreamFormat)
        → Fails (elim selected as (λ x. Session × Bool) [
          | none ↦ (record s { last_error = no_matching_alt }, false)
          | some fmt ↦
              let (s', claimed) = claim_stream w fmt s in
              if not claimed then (s', false) else start_format w false fmt (claim_control w fmt s')
        ])
    select none = refl
    select (some fmt) =
        either Fails (not (claim_stream w fmt s).1) (λ t. refl)
          (λ f. start_format-Fails w fmt _ wanted)

-- A `start` that is not part of `startDuplex` fails, whatever libusb answers, if any frames are to be
-- primed: it empties the ring and then requires them in it.
pub start_refused :
    (w : World) (s : Session) → ltb_ℤ (pos 0) w.prime ≡ true → (start w false s).1 ≡ false
unfolding start
start_refused w s wanted =
    either Fails (not s.is_open) (λ t. refl)
      (λ f.
        either Fails (not w.wakes) (λ t. refl)
          (λ g.
            either Fails (not (reconfigure w _).1) (λ t. refl)
              (λ x. start_selected-Fails w _ wanted)))
