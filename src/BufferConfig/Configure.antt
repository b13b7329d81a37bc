-- ===== src/BufferConfig/Configure.antt =====
-- configureUserspaceBuffers of src/libusb_uac_driver.cpp.
use liballa.Base.{
  ℕ, ◌-◌, ◌≤◌, ◌<◌, ◌≡◌, refl, ap, ◌∙◌, ◌||◌, true, false, [], arith, length, length-replicate,
  replicate, bit_and, Bool-cases, inl, inr, ◌⊎◌, ◌^◌,
}
use liballa.Base.Bits.{two_pow}
use liballa.Base.Powers.{power_up_to}
use liballa.Base.Word.{u64_mod, sub_u64}
use liballa.ByteRing.Copy.{read_round}
use liballa.Playback.Valid.{IsValid, contents}
use liballa.Capture.Read as CaptureRead
use liballa.BufferConfig.{
  UserspaceBufferConfig, Driver, requested_capacity, unsupported, allocate,
  configure_userspace_buffers,
}

supported_capacity :
    (config : UserspaceBufferConfig)
    → unsupported config ≡ false
    → (4096 ≤ requested_capacity config)
      × (requested_capacity config ≤ 2 ^ 20)
      × (bit_and (requested_capacity config) (requested_capacity config - 1) ≡ 0)
unfolding unsupported
supported_capacity config h = ground arith

-- Both rings hold 2 ^ k bytes, as many as requested, and are empty.
pub record IsAllocated (config : UserspaceBufferConfig) (d : Driver) : Type 0 where
  pub k : ℕ
  pub playback_valid : IsValid k d.playback
  pub capture_valid : CaptureRead.IsValid k d.capture
  pub capacity : length d.playback.ring ≡ requested_capacity config
  pub playback_empty : contents k d.playback ≡ []
  pub capture_empty : CaptureRead.contents k d.capture ≡ []

allocate_allocates :
    (config : UserspaceBufferConfig) (d : Driver)
    → unsupported config ≡ false
    → IsAllocated config (allocate config d)
unfolding allocate read_round
allocate_allocates config d h =
    let (low, high, power) = supported_capacity config h in
    let (k, same, small) = power_up_to (requested_capacity config) (omega arith) high power in
    let word : 0 < u64_mod = omega arith in
    let none_queued : sub_u64 0 0 ≤ two_pow k = omega arith in
    let full : length (replicate (requested_capacity config) 0) ≡ two_pow k =
      length-replicate (requested_capacity config) 0 ∙ same in
    record {
      k = k;
      playback_valid = record {
        small = small;
        full = full;
        mask = ap (λ n. n - 1) same;
        head_word = word;
        tail_word = word;
        fits = none_queued;
      };
      capture_valid = record {
        small = small;
        full = full;
        masked = ap (λ n. n - 1) same;
        head_word = word;
        tail_word = word;
        fits = none_queued;
      };
      capacity = length-replicate (requested_capacity config) 0;
      playback_empty = refl;
      capture_empty = refl;
    }

-- A configuration is refused and changes nothing, if the stream runs or playback has started or a
-- value is unsupported; otherwise both rings have the requested capacity, which is a power of two
-- of at most 2 ^ 20, satisfy their invariants, and are empty.
pub configure_userspace_buffers_outcome :
    (config : UserspaceBufferConfig) (d : Driver)
    → let (d', accepted) = configure_userspace_buffers config d in
      (((d.streaming || d.playback.started || unsupported config) ≡ true)
        × (accepted ≡ false)
        × (d' ≡ d))
      ⊎ (((d.streaming || d.playback.started || unsupported config) ≡ false)
          × (accepted ≡ true)
          × IsAllocated config d')
unfolding configure_userspace_buffers
configure_userspace_buffers_outcome config d = elim (Bool-cases (unsupported config)) [
  | inl bad ↦ ground arith
  | inr good ↦ elim (Bool-cases (d.streaming || d.playback.started)) [
    | inl busy ↦ inl (ground arith)
    | inr free ↦ inr (ground (arith, allocate_allocates config d good))
  ]
]
