-- ===== src/CpuAffinity/Roles.antt =====
-- deriveAudioRoleCpuMask and applyCurrentThreadAudioAffinity of
-- include/liblowlatencyaudio/ThreadUtils.h.
use liballa.Base.{
  ℕ, zero, suc, ◌+◌, ◌≤◌, ◌<◌, ◌≡◌, ◌↔◌, refl, ap, ap₂, ◌∙◌, Bool, true, false, ◌&&◌, ◌||◌, [], ◌∷◌,
  some, arith, ltb,
}
use liballa.CpuAffinity.{
  CpuSet, AudioCpuRole, render, service, ServiceCpuPlacement, one_core_of_pool, whole_pool,
  exclusive_split, is_set, cpu_count, cpu_equal, lowest_from, only, all_but, exclusive_mask,
  one_core_mask, derive_audio_cpu_mask, derive_audio_role_cpu_mask, apply_audio_affinity,
}
use liballa.CpuAffinity.Pool.{derive_audio_cpu_mask_highest, derive_audio_cpu_mask-count}

lowest_from-some :
    (cpu : ℕ) (cpus : CpuSet)
    → 0 < cpu_count cpus
    → (j : ℕ) × (lowest_from cpu cpus ≡ some (cpu + j)) × (is_set cpus j ≡ true)
unfolding lowest_from cpu_count
lowest_from-some cpu [] h = ground arith
lowest_from-some cpu (true ∷ cpus) h = (0, ap some (omega arith), refl)
lowest_from-some cpu (false ∷ cpus) h =
    let (j, low, on) = lowest_from-some (cpu + 1) cpus h in (suc j, low ∙ ap some (omega arith), on)

-- Behind the chosen CPU.
only_past :
    (lowest cpu i : ℕ) (cpus : CpuSet)
    → lowest < cpu
    → (is_set (only lowest cpu cpus) i ≡ false) × (cpu_count (only lowest cpu cpus) ≡ 0)
unfolding only cpu_count
only_past lowest cpu i [] h = (refl, refl)
only_past lowest cpu zero (_ ∷ cpus) h =
    ground (arith, only_past lowest (cpu + 1) 0 cpus (omega arith))
only_past lowest cpu (suc i) (_ ∷ cpus) h =
    ground (arith, only_past lowest (cpu + 1) i cpus (omega arith))

all_but_past : (lowest cpu : ℕ) (cpus : CpuSet) → lowest < cpu → all_but lowest cpu cpus ≡ cpus
unfolding all_but
all_but_past lowest cpu [] h = refl
all_but_past lowest cpu (b ∷ cpus) h =
    ap₂ ◌∷◌ (ground arith) (all_but_past lowest (cpu + 1) cpus (omega arith))

-- One CPU of a set and the rest of it make up the set.
Splits : CpuSet → CpuSet → CpuSet → ℕ → Type 0
Splits one rest cpus i =
    ((is_set one i || is_set rest i) ≡ is_set cpus i)
    × ((is_set one i && is_set rest i) ≡ false)
    × (cpu_count one ≡ 1)
    × (cpu_count rest + 1 ≡ cpu_count cpus)

split :
    (cpu j i : ℕ) (cpus : CpuSet)
    → is_set cpus j ≡ true
    → Splits (only (cpu + j) cpu cpus) (all_but (cpu + j) cpu cpus) cpus i
unfolding only all_but cpu_count Splits
split cpu j i [] on = ground arith
split cpu zero zero (true ∷ cpus) on =
    rw (all_but_past (cpu + 0) (cpu + 1) cpus (omega arith))
      (ground (arith, only_past (cpu + 0) (cpu + 1) 0 cpus (omega arith)))
split cpu zero (suc i) (true ∷ cpus) on =
    rw (all_but_past (cpu + 0) (cpu + 1) cpus (omega arith))
      (ground (arith, only_past (cpu + 0) (cpu + 1) i cpus (omega arith)))
split cpu zero i (false ∷ cpus) on = ground arith
split cpu (suc j) zero (true ∷ cpus) on = ground (arith, split (cpu + 1) j 0 cpus on)
split cpu (suc j) (suc i) (true ∷ cpus) on = ground (arith, split (cpu + 1) j i cpus on)
split cpu (suc j) zero (false ∷ cpus) on = ground (arith, split (cpu + 1) j 0 cpus on)
split cpu (suc j) (suc i) (false ∷ cpus) on = ground (arith, split (cpu + 1) j i cpus on)

pool-pos :
    (allowed : CpuSet) → 0 < cpu_count allowed → 0 < cpu_count (derive_audio_cpu_mask allowed)
pool-pos allowed h = ground (arith, derive_audio_cpu_mask-count allowed)

pool_within :
    (allowed : CpuSet) (cpu : ℕ)
    → (is_set allowed cpu && is_set (derive_audio_cpu_mask allowed) cpu)
      ≡ is_set (derive_audio_cpu_mask allowed) cpu
pool_within allowed cpu = ground (arith, derive_audio_cpu_mask_highest allowed cpu)

-- Under the exclusive split, where at least two CPUs are allowed, the USB service and the render
-- thread get one CPU each of the pool: not the same, and together the pool.
pub derive_audio_role_cpu_mask_exclusive :
    (allowed : CpuSet) (cpu : ℕ)
    → 2 ≤ cpu_count allowed
    → let mask = derive_audio_role_cpu_mask exclusive_split allowed in
      ((is_set (mask service) cpu || is_set (mask render) cpu)
        ≡ is_set (derive_audio_cpu_mask allowed) cpu)
      × ((is_set (mask service) cpu && is_set (mask render) cpu) ≡ false)
      × (cpu_count (mask service) ≡ 1)
      × (cpu_count (mask render) ≡ 1)
unfolding derive_audio_role_cpu_mask exclusive_mask Splits
derive_audio_role_cpu_mask_exclusive allowed cpu h =
    let pool = derive_audio_cpu_mask allowed in
    let two : cpu_count pool ≡ 2 = ground (arith, derive_audio_cpu_mask-count allowed) in
    let (j, low, on) = lowest_from-some 0 pool (omega arith) in
    let (whole, apart, one, rest) = split 0 j cpu pool on in
    let many : ltb (cpu_count pool) 2 ≡ false = ground arith in
    rw (low, many) (whole, apart, one, omega arith)

-- What is asked of a role's mask.
IsRunnable : CpuSet → CpuSet → ℕ → Type 0
IsRunnable allowed mask cpu =
    (0 < cpu_count mask) × ((is_set allowed cpu && is_set mask cpu) ≡ is_set mask cpu)

one_core-IsRunnable :
    (allowed : CpuSet) (cpu : ℕ)
    → 0 < cpu_count allowed
    → let pool = derive_audio_cpu_mask allowed in
      IsRunnable allowed (one_core_mask (lowest_from 0 pool) allowed pool) cpu
unfolding one_core_mask Splits IsRunnable
one_core-IsRunnable allowed cpu h =
    let pool = derive_audio_cpu_mask allowed in
    let (j, low, on) = lowest_from-some 0 pool (pool-pos allowed h) in
    let (whole, apart, one, rest) = split 0 j cpu pool on in
    rw low (omega arith, ground (arith, pool_within allowed cpu))

exclusive-IsRunnable :
    (allowed : CpuSet) (role : AudioCpuRole) (cpu : ℕ)
    → 0 < cpu_count allowed
    → let pool = derive_audio_cpu_mask allowed in
      IsRunnable allowed (exclusive_mask (lowest_from 0 pool) role pool) cpu
unfolding exclusive_mask Splits IsRunnable
exclusive-IsRunnable allowed service cpu h =
    let pool = derive_audio_cpu_mask allowed in
    let (j, low, on) = lowest_from-some 0 pool (pool-pos allowed h) in
    let (whole, apart, one, rest) = split 0 j cpu pool on in
    rw low (ground (arith, pool-pos allowed h), ground (arith, pool_within allowed cpu))
exclusive-IsRunnable allowed render cpu h =
    let pool = derive_audio_cpu_mask allowed in
    let (j, low, on) = lowest_from-some 0 pool (pool-pos allowed h) in
    let (whole, apart, one, rest) = split 0 j cpu pool on in
    rw low (ground (arith, pool-pos allowed h), ground (arith, pool_within allowed cpu))

role-IsRunnable :
    (placement : ServiceCpuPlacement) (allowed : CpuSet) (role : AudioCpuRole) (cpu : ℕ)
    → 0 < cpu_count allowed
    → IsRunnable allowed (derive_audio_role_cpu_mask placement allowed role) cpu
unfolding derive_audio_role_cpu_mask IsRunnable
role-IsRunnable exclusive_split allowed role cpu h = exclusive-IsRunnable allowed role cpu h
role-IsRunnable one_core_of_pool allowed service cpu h = one_core-IsRunnable allowed cpu h
role-IsRunnable whole_pool allowed service cpu h = (pool-pos allowed h, pool_within allowed cpu)
role-IsRunnable whole_pool allowed render cpu h = (pool-pos allowed h, pool_within allowed cpu)
role-IsRunnable one_core_of_pool allowed render cpu h =
    (pool-pos allowed h, pool_within allowed cpu)

-- Under every placement and for both roles, a thread that has any allowed CPU gets a mask with at
-- least one CPU, and with allowed ones only.
pub derive_audio_role_cpu_mask_runnable :
    (placement : ServiceCpuPlacement) (allowed : CpuSet) (role : AudioCpuRole) (cpu : ℕ)
    → 0 < cpu_count allowed
    → let mask = derive_audio_role_cpu_mask placement allowed role in
      (0 < cpu_count mask) × ((is_set allowed cpu && is_set mask cpu) ≡ is_set mask cpu)
unfolding IsRunnable
derive_audio_role_cpu_mask_runnable placement allowed role cpu h =
    role-IsRunnable placement allowed role cpu h

-- A mask is handed to the system exactly if the affinity is switched on, the system named a nonempty
-- set of allowed CPUs, and the role's mask is another set; and then it is the role's mask.
pub apply_audio_affinity_iff :
    (enabled : Bool) (placement : ServiceCpuPlacement) (allowed : CpuSet) (role : AudioCpuRole)
    (mask : CpuSet)
    → 0 < cpu_count allowed
    → (apply_audio_affinity enabled placement (some allowed) role ≡ some mask) ↔ (
        (enabled ≡ true)
        × (cpu_equal (derive_audio_role_cpu_mask placement allowed role) allowed ≡ false)
        × (mask ≡ derive_audio_role_cpu_mask placement allowed role))
unfolding apply_audio_affinity
apply_audio_affinity_iff enabled placement allowed role mask h = (
  (λ e. ground arith),
  (λ e. ground (arith, derive_audio_role_cpu_mask_runnable placement allowed role 0 h)),
)
