-- ===== src/CpuAffinity/Pool.antt =====
-- deriveAudioCpuMask and deriveUiCpuMask of include/liblowlatencyaudio/ThreadUtils.h.
use liballa.Base.{
  ℕ, zero, suc, ◌+◌, ◌-◌, ◌<◌, ◌≡◌, refl, inl, inr, true, false, ◌&&◌, not, [], ◌∷◌, arith, ltb,
  leb, ◌==◌, drop, min, Bool-cases,
}
use liballa.CpuAffinity.{
  CpuSet, is_set, cpu_count, zeroed, cpu_xor, rank_range, first_cpu, derive_audio_cpu_mask,
  derive_ui_cpu_mask,
}

-- The allowed CPUs above the one with the number `cpu`.
abbrev pub above : CpuSet → ℕ → ℕ
above cpus cpu = cpu_count (drop (suc cpu) cpus)

zeroed-is_set : (cpus : CpuSet) (cpu : ℕ) → is_set (zeroed cpus) cpu ≡ false
unfolding zeroed
zeroed-is_set [] cpu = refl
zeroed-is_set (_ ∷ cpus) zero = refl
zeroed-is_set (_ ∷ cpus) (suc cpu) = zeroed-is_set cpus cpu

empty-is_set : (cpus : CpuSet) (cpu : ℕ) → cpu_count cpus ≡ 0 → is_set cpus cpu ≡ false
unfolding cpu_count
empty-is_set [] cpu h = refl
empty-is_set (true ∷ cpus) cpu h = ground arith
empty-is_set (false ∷ cpus) zero h = refl
empty-is_set (false ∷ cpus) (suc cpu) h = empty-is_set cpus cpu h

rank_range-is_set :
    (rank count : ℕ) (cpus : CpuSet) (cpu : ℕ)
    → rank + cpu_count cpus ≡ count
    → is_set (rank_range (count - 2) (count - 1) rank cpus) cpu
      ≡ is_set cpus cpu && ltb (above cpus cpu) 2
unfolding rank_range cpu_count
rank_range-is_set rank count [] cpu e = refl
rank_range-is_set rank count (true ∷ cpus) zero e = ground arith
rank_range-is_set rank count (true ∷ cpus) (suc cpu) e =
    rank_range-is_set (rank + 1) count cpus cpu (omega arith)
rank_range-is_set rank count (false ∷ cpus) zero e = refl
rank_range-is_set rank count (false ∷ cpus) (suc cpu) e = rank_range-is_set rank count cpus cpu e

rank_range-count :
    (rank count : ℕ) (cpus : CpuSet)
    → rank + cpu_count cpus ≡ count
    → cpu_count (rank_range (count - 2) (count - 1) rank cpus) ≡ min 2 (cpu_count cpus)
unfolding rank_range cpu_count
rank_range-count rank count [] e = refl
rank_range-count rank count (true ∷ cpus) e =
    ground (arith, rank_range-count (rank + 1) count cpus (omega arith))
rank_range-count rank count (false ∷ cpus) e = rank_range-count rank count cpus e

-- The audio pool is made of the highest-ranked CPUs: a CPU is in it exactly if it is allowed and at
-- most one allowed CPU has a higher number.
pub derive_audio_cpu_mask_highest :
    (allowed : CpuSet) (cpu : ℕ)
    → is_set (derive_audio_cpu_mask allowed) cpu ≡ is_set allowed cpu && ltb (above allowed cpu) 2
unfolding derive_audio_cpu_mask
derive_audio_cpu_mask_highest allowed cpu = elim (Bool-cases (cpu_count allowed == 0)) [
  | inl e ↦ ground (arith, zeroed-is_set allowed cpu, empty-is_set allowed cpu)
  | inr e ↦ rw e (rank_range-is_set 0 (cpu_count allowed) allowed cpu (omega arith))
]

zeroed-count : (cpus : CpuSet) → cpu_count (zeroed cpus) ≡ 0
unfolding zeroed cpu_count
zeroed-count [] = refl
zeroed-count (_ ∷ cpus) = zeroed-count cpus

-- The audio pool has two CPUs, or all where fewer are allowed.
pub derive_audio_cpu_mask-count :
    (allowed : CpuSet) → cpu_count (derive_audio_cpu_mask allowed) ≡ min 2 (cpu_count allowed)
unfolding derive_audio_cpu_mask
derive_audio_cpu_mask-count allowed =
    ground
      (arith, zeroed-count allowed, rank_range-count 0 (cpu_count allowed) allowed (omega arith))

xor_rank_range :
    (first last rank : ℕ) (cpus : CpuSet)
    → let chosen = rank_range first last rank cpus in
      cpu_count (cpu_xor cpus chosen) + cpu_count chosen ≡ cpu_count cpus
unfolding rank_range cpu_count cpu_xor
xor_rank_range first last rank [] = refl
xor_rank_range first last rank (true ∷ cpus) =
    ground (arith, xor_rank_range first last (rank + 1) cpus)
xor_rank_range first last rank (false ∷ cpus) = xor_rank_range first last rank cpus

xor_rank_range-is_set :
    (first last rank : ℕ) (cpus : CpuSet) (cpu : ℕ)
    → let chosen = rank_range first last rank cpus in
      is_set (cpu_xor cpus chosen) cpu ≡ is_set cpus cpu && not (is_set chosen cpu)
unfolding rank_range cpu_xor
xor_rank_range-is_set first last rank [] cpu = refl
xor_rank_range-is_set first last rank (true ∷ cpus) zero = refl
xor_rank_range-is_set first last rank (true ∷ cpus) (suc cpu) =
    xor_rank_range-is_set first last (rank + 1) cpus cpu
xor_rank_range-is_set first last rank (false ∷ cpus) zero = refl
xor_rank_range-is_set first last rank (false ∷ cpus) (suc cpu) =
    xor_rank_range-is_set first last rank cpus cpu

-- Where more than two CPUs are allowed, the UI gets exactly the allowed ones outside the audio pool,
-- and they are all but two.
pub derive_ui_cpu_mask_complement :
    (allowed : CpuSet) (cpu : ℕ)
    → 2 < cpu_count allowed
    → (is_set (derive_ui_cpu_mask allowed) cpu
        ≡ is_set allowed cpu && not (is_set (derive_audio_cpu_mask allowed) cpu))
      × (cpu_count (derive_ui_cpu_mask allowed) + 2 ≡ cpu_count allowed)
unfolding derive_ui_cpu_mask derive_audio_cpu_mask
derive_ui_cpu_mask_complement allowed cpu h =
    let n = cpu_count allowed in
    let some_allowed : (n == 0) ≡ false = ground arith in
    let many : leb n 2 ≡ false = ground arith in
    (
      rw (some_allowed, many) (xor_rank_range-is_set (n - 2) (n - 1) 0 allowed cpu),
      rw (some_allowed, many)
          (omega (
            arith,
            xor_rank_range (n - 2) (n - 1) 0 allowed,
            rank_range-count 0 n allowed (omega arith),
          )),
    )

first_cpu-count : (cpus : CpuSet) → cpu_count (first_cpu cpus) ≡ min 1 (cpu_count cpus)
unfolding first_cpu cpu_count
first_cpu-count [] = refl
first_cpu-count (true ∷ cpus) = ground (arith, zeroed-count cpus)
first_cpu-count (false ∷ cpus) = first_cpu-count cpus

first_cpu-is_set :
    (cpus : CpuSet) (cpu : ℕ)
    → is_set cpus cpu && is_set (first_cpu cpus) cpu ≡ is_set (first_cpu cpus) cpu
unfolding first_cpu
first_cpu-is_set [] cpu = refl
first_cpu-is_set (true ∷ cpus) zero = refl
first_cpu-is_set (true ∷ cpus) (suc cpu) = ground (arith, zeroed-is_set cpus cpu)
first_cpu-is_set (false ∷ cpus) zero = refl
first_cpu-is_set (false ∷ cpus) (suc cpu) = first_cpu-is_set cpus cpu

few_ui :
    (allowed : CpuSet)
    → leb (cpu_count allowed) 2 ≡ true
    → 0 < cpu_count allowed
    → derive_ui_cpu_mask allowed ≡ first_cpu allowed
unfolding derive_ui_cpu_mask
few_ui allowed few h = ground arith

-- As long as any CPU is allowed, the UI keeps at least one, and it gets allowed ones only.
pub derive_ui_cpu_mask_runnable :
    (allowed : CpuSet) (cpu : ℕ)
    → 0 < cpu_count allowed
    → let ui = derive_ui_cpu_mask allowed in
      (0 < cpu_count ui) × ((is_set allowed cpu && is_set ui cpu) ≡ is_set ui cpu)
derive_ui_cpu_mask_runnable allowed cpu h = elim (Bool-cases (leb (cpu_count allowed) 2)) [
  | inl few ↦ (
    rw (few_ui allowed few h) (ground (arith, first_cpu-count allowed)),
    rw (few_ui allowed few h) (first_cpu-is_set allowed cpu),
  )
  | inr many ↦
      let (bits, count) = derive_ui_cpu_mask_complement allowed cpu (ground arith) in
      (ground (arith, count), ground (arith, bits))
]
