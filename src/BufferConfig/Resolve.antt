-- ===== src/BufferConfig/Resolve.antt =====
-- setUserspaceBufferConfig of src/libusb_uac_driver.cpp.
use native.Mathlib.Nat.{div-mul-le_self, mul-le-mul_right, div-le_self, mod-le, div-zero}
use liballa.Base.{
  ℕ, ◌*◌, ◌/◌, ◌≤◌, ◌<◌, ◌≡◌, refl, sym, ap, ◌==◌, subst, ◌∙◌, ◌⊎◌, inl, inr, true, arith, length,
  Bool-cases, ◌^◌,
}
use liballa.Base.Int.{ℤ, pos, ◌+ℤ◌, ◌≤ℤ◌, max_ℤ, +ℤ_parts}
use liballa.Base.Word.{to_size}
use liballa.Scheduling.{checked_frame_budget_fits}
use liballa.Scheduling.Watermark.{checked_frame_budget_fits_iff}
use liballa.Playback.{stride, frame_limit}
use liballa.BufferConfig.{
  UserspaceBufferConfig, Driver, Budgets, resolve, budgets_fit, clear_budgets, store_budgets,
  set_userspace_buffer_config,
}

-- The budgets of a driver keep to the frames that a ring of its size holds.
pub record IsBudgeted (physical wave : ℤ) (d : Driver) : Type 0 where
  pub target_pos : pos 0 ≤ℤ d.playback.target_frames
  pub headroom_pos : pos 0 ≤ℤ d.playback.headroom_frames
  pub playback_fits : d.playback.target_frames +ℤ d.playback.headroom_frames ≤ℤ physical
  pub prime_covers : pos d.exact_initial_packet_frames ≤ℤ d.playback.prime_frames
  pub prime_fits : d.playback.prime_frames ≤ℤ physical
  pub capture_target_pos : pos 0 ≤ℤ d.capture_target_frames
  pub capture_headroom_pos : pos 0 ≤ℤ d.capture_headroom_frames
  pub capture_fits : wave +ℤ d.capture_target_frames +ℤ d.capture_headroom_frames ≤ℤ physical

-- No budget is left.
pub record IsCleared (d : Driver) : Type 0 where
  pub target : d.playback.target_frames ≡ pos 0
  pub prime : d.playback.prime_frames ≡ pos 0
  pub headroom : d.playback.headroom_frames ≡ pos 0
  pub capture_target : d.capture_target_frames ≡ pos 0
  pub capture_headroom : d.capture_headroom_frames ≡ pos 0
  pub capture_slack : d.capture_deadline_slack_frames ≡ pos 0
  pub capture_limit : d.capture.limit_frames ≡ pos 0
  pub capture_playback_target : d.capture.playback_target ≡ pos 0

fit_parts :
    (b : Budgets) (exact : ℕ)
    → budgets_fit b exact ≡ true
    → (checked_frame_budget_fits b.target b.headroom (pos 0) b.physical_frames ≡ true)
      × (pos exact ≤ℤ b.prime)
      × (b.prime ≤ℤ b.physical_frames)
      × (checked_frame_budget_fits b.capture_wave b.capture_target b.capture_headroom
            b.physical_frames
          ≡ true)
unfolding budgets_fit
fit_parts b exact h = ground arith

stored :
    (b : Budgets) (limit : ℤ) (d : Driver)
    → budgets_fit b d.exact_initial_packet_frames ≡ true
    → IsBudgeted b.physical_frames b.capture_wave (store_budgets b limit d)
unfolding store_budgets
stored b limit d h =
    let (playback, covers, fits, capture) = fit_parts b d.exact_initial_packet_frames h in
    let (t, r, z, sum) =
      (checked_frame_budget_fits_iff b.target b.headroom (pos 0) b.physical_frames).0 playback in
    let (w, ct, ch, csum) =
      (checked_frame_budget_fits_iff b.capture_wave b.capture_target b.capture_headroom
          b.physical_frames).0
        capture in
    record {
      target_pos = t;
      headroom_pos = r;
      playback_fits = omega (arith, sum, +ℤ_parts (b.target +ℤ b.headroom) (pos 0));
      prime_covers = covers;
      prime_fits = fits;
      capture_target_pos = ct;
      capture_headroom_pos = ch;
      capture_fits = csum;
    }

physical-eq :
    (frames : ℤ) (user : UserspaceBufferConfig) (multiplier : ℤ) (d : Driver)
    → length d.playback.ring ≤ 2 ^ 20
    → (resolve frames user multiplier d).physical_frames
      ≡ pos (length d.playback.ring / stride d.playback)
unfolding resolve
physical-eq frames user multiplier d small = elim (Bool-cases (stride d.playback == 0)) [
  | inl t ↦
      let no_stride : stride d.playback ≡ 0 = ground arith in
      rw no_stride (ap pos (sym (div-zero (length d.playback.ring))))
  | inr f ↦ ground (arith, div-le_self (length d.playback.ring) (stride d.playback))
]

capture_wave-eq :
    (frames : ℤ) (user : UserspaceBufferConfig) (multiplier : ℤ) (d : Driver)
    → (resolve frames user multiplier d).capture_wave ≡ max_ℤ (pos 1) d.capture_transfer_frames
unfolding resolve
capture_wave-eq frames user multiplier d = refl

-- Whatever the user asks for, either the resolved budgets fit the ring, which holds its bytes divided
-- by those of a frame (no term is negative, target and headroom fit, the startup prime covers the
-- first packets and fits, one capture wave of one frame or more with its target and headroom fits),
-- or target, prime, headroom and all terms of capture are 0. The ring has at most 2 ^ 20 bytes.
pub set_userspace_buffer_config_safe :
    (frames : ℤ) (user : UserspaceBufferConfig) (multiplier : ℤ) (d : Driver)
    → length d.playback.ring ≤ 2 ^ 20
    → let d' = set_userspace_buffer_config frames user multiplier d in
      IsBudgeted
        (pos (length d.playback.ring / stride d.playback))
        (max_ℤ (pos 1) d.capture_transfer_frames)
        d'
      ⊎ IsCleared d'
unfolding set_userspace_buffer_config clear_budgets
set_userspace_buffer_config_safe frames user multiplier d small =
    let b = resolve frames user multiplier d in
    elim (Bool-cases (budgets_fit b d.exact_initial_packet_frames)) [
      | inl fits ↦
          let physical = physical-eq frames user multiplier d small in
          let wave = capture_wave-eq frames user multiplier d in
          let d' = store_budgets b user.capture_limit_frames d in
          inl (
            rw fits (
              subst (λ p. IsBudgeted p (max_ℤ (pos 1) d.capture_transfer_frames) d') physical
                (subst (λ m. IsBudgeted b.physical_frames m d') wave
                  (stored b user.capture_limit_frames d fits))))
      | inr not_fits ↦ inr (
          rw not_fits (record {
            target = refl;
            prime = refl;
            headroom = refl;
            capture_target = refl;
            capture_headroom = refl;
            capture_slack = refl;
            capture_limit = refl;
            capture_playback_target = refl;
          }))
    ]

same_ring :
    (frames : ℤ) (user : UserspaceBufferConfig) (multiplier : ℤ) (d : Driver)
    → let d' = set_userspace_buffer_config frames user multiplier d in
      (d'.playback.started ≡ d.playback.started)
      × (stride d'.playback ≡ stride d.playback)
      × (d'.playback.ring ≡ d.playback.ring)
unfolding set_userspace_buffer_config clear_budgets store_budgets
same_ring frames user multiplier d = ground arith

limit_le :
    (limit : ℤ) (physical : ℕ) → pos 0 ≤ℤ limit → limit ≤ℤ pos physical → to_size limit ≤ physical
limit_le limit physical h g = grind (arith, mod-le)

budgeted_limit :
    (physical : ℕ) (wave : ℤ) (d : Driver)
    → IsBudgeted (pos physical) wave d
    → d.playback.started ≡ true
    → frame_limit d.playback ≤ physical
budgeted_limit physical wave d b on = rw on (
    limit_le (d.playback.target_frames +ℤ d.playback.headroom_frames) physical
      (omega (
        arith,
        +ℤ_parts d.playback.target_frames d.playback.headroom_frames,
        b.target_pos,
        b.headroom_pos,
      ))
      b.playback_fits)

cleared_limit : (d : Driver) → IsCleared d → d.playback.started ≡ true → frame_limit d.playback ≡ 0
unfolding ◌+ℤ◌
cleared_limit d c on = ground (arith, c)

-- Once playback has started, the limit that the writes keep to is never above what the ring holds,
-- whatever the user asked for.
pub set_userspace_buffer_config_limit :
    (frames : ℤ) (user : UserspaceBufferConfig) (multiplier : ℤ) (d : Driver)
    → d.playback.started ≡ true
    → 0 < stride d.playback
    → length d.playback.ring ≤ 2 ^ 20
    → let p = (set_userspace_buffer_config frames user multiplier d).playback in
      frame_limit p * stride p ≤ length p.ring
set_userspace_buffer_config_limit frames user multiplier d on wide small =
    let d' = set_userspace_buffer_config frames user multiplier d in
    let (started, size, ring) = same_ring frames user multiplier d in
    let whole = length d.playback.ring / stride d.playback in
    let limit : frame_limit d'.playback ≤ whole =
      elim (set_userspace_buffer_config_safe frames user multiplier d small) [
        | inl b ↦ budgeted_limit whole _ d' b (started ∙ on)
        | inr c ↦ omega (arith, cleared_limit d' c (started ∙ on))
      ] in
    subst (λ s. frame_limit d'.playback * s ≤ length d'.playback.ring) (sym size)
      (subst (λ r. frame_limit d'.playback * stride d.playback ≤ length r) (sym ring)
        (omega (
          arith,
          mul-le-mul_right (stride d.playback) limit,
          div-mul-le_self (length d.playback.ring) (stride d.playback),
        )))
