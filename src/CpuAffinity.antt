-- ===== src/CpuAffinity.antt =====
-- include/liblowlatencyaudio/ThreadUtils.h: which CPUs the audio and UI threads may run on. A
-- `cpu_set_t` is the list of its CPU_SETSIZE bits, and each loop over the CPUs goes along the list.
pub mod Pool
pub mod Roles
mod Tests
use liballa.Base.{
  ℕ, ◌+◌, ◌-◌, Bool, true, false, ◌&&◌, ◌||◌, not, List, [], ◌∷◌, Option, none, some, ltb, leb,
  ◌==◌, if◌then◌else◌, get_or,
}

abbrev pub CpuSet : Type 0
CpuSet = List Bool

-- CPU_ISSET
abbrev pub is_set : CpuSet → ℕ → Bool
is_set cpus cpu = get_or cpus cpu false

-- CPU_COUNT, and the counting loop of deriveAudioCpuMask
unfoldable pub cpu_count : CpuSet → ℕ
cpu_count [] = 0
cpu_count (true ∷ cpus) = cpu_count cpus + 1
cpu_count (false ∷ cpus) = cpu_count cpus

-- CPU_ZERO
unfoldable pub zeroed : CpuSet → CpuSet
zeroed [] = []
zeroed (_ ∷ cpus) = false ∷ zeroed cpus

-- CPU_XOR
unfoldable pub cpu_xor : CpuSet → CpuSet → CpuSet
cpu_xor (a ∷ first) (b ∷ second) = (if a then not b else b) ∷ cpu_xor first second
cpu_xor _ _ = []

-- CPU_EQUAL
unfoldable pub cpu_equal : CpuSet → CpuSet → Bool
cpu_equal [] [] = true
cpu_equal (a ∷ first) (b ∷ second) = (if a then b else not b) && cpu_equal first second
cpu_equal _ _ = false

-- The second loop of deriveAudioCpuMask, from the rank of the next allowed CPU.
unfoldable pub rank_range : ℕ → ℕ → ℕ → CpuSet → CpuSet
rank_range first_rank last_rank rank [] = []
rank_range first_rank last_rank rank (true ∷ cpus) =
    (leb first_rank rank && leb rank last_rank) ∷ rank_range first_rank last_rank (rank + 1) cpus
rank_range first_rank last_rank rank (false ∷ cpus) =
    false ∷ rank_range first_rank last_rank rank cpus

-- deriveAudioCpuMask
unfoldable pub derive_audio_cpu_mask : CpuSet → CpuSet
derive_audio_cpu_mask allowed =
    let allowed_count = cpu_count allowed in
    if allowed_count == 0
    then zeroed allowed
    else rank_range (allowed_count - 2) (allowed_count - 1) 0 allowed

pub data AudioCpuRole : Type 0 where
  render service : AudioCpuRole

pub data ServiceCpuPlacement : Type 0 where
  one_core_of_pool whole_pool exclusive_split : ServiceCpuPlacement

-- The loop that leaves at the first CPU of the set; `none` is the start value -1.
unfoldable pub lowest_from : ℕ → CpuSet → Option ℕ
lowest_from cpu [] = none
lowest_from cpu (true ∷ cpus) = some cpu
lowest_from cpu (false ∷ cpus) = lowest_from (cpu + 1) cpus

-- CPU_ZERO and one CPU_SET
unfoldable pub only : ℕ → ℕ → CpuSet → CpuSet
only lowest cpu [] = []
only lowest cpu (_ ∷ cpus) = (cpu == lowest) ∷ only lowest (cpu + 1) cpus

-- The loop over the rest of the pool.
unfoldable pub all_but : ℕ → ℕ → CpuSet → CpuSet
all_but lowest cpu [] = []
all_but lowest cpu (b ∷ cpus) = (b && not (cpu == lowest)) ∷ all_but lowest (cpu + 1) cpus

-- The ExclusiveSplit branch of deriveAudioRoleCpuMask.
unfoldable pub exclusive_mask : Option ℕ → AudioCpuRole → CpuSet → CpuSet
exclusive_mask none role pool = pool
exclusive_mask (some lowest) service pool =
    if ltb (cpu_count pool) 2 then pool else only lowest 0 pool
exclusive_mask (some lowest) render pool =
    if ltb (cpu_count pool) 2 then pool else all_but lowest 0 pool

-- Its last part: one core of the pool.
unfoldable pub one_core_mask : Option ℕ → CpuSet → CpuSet → CpuSet
one_core_mask none allowed pool = allowed
one_core_mask (some lowest) allowed pool = only lowest 0 pool

-- deriveAudioRoleCpuMask, with the placement that the flag holds
unfoldable pub derive_audio_role_cpu_mask : ServiceCpuPlacement → CpuSet → AudioCpuRole → CpuSet
unfolding derive_audio_cpu_mask
derive_audio_role_cpu_mask exclusive_split allowed role =
    let pool = derive_audio_cpu_mask allowed in exclusive_mask (lowest_from 0 pool) role pool
derive_audio_role_cpu_mask _ allowed render = derive_audio_cpu_mask allowed
derive_audio_role_cpu_mask whole_pool allowed service = derive_audio_cpu_mask allowed
derive_audio_role_cpu_mask one_core_of_pool allowed service =
    let pool = derive_audio_cpu_mask allowed in one_core_mask (lowest_from 0 pool) allowed pool

-- The loop of deriveUiCpuMask that keeps the first CPU.
unfoldable pub first_cpu : CpuSet → CpuSet
first_cpu [] = []
first_cpu (true ∷ cpus) = true ∷ zeroed cpus
first_cpu (false ∷ cpus) = false ∷ first_cpu cpus

-- deriveUiCpuMask
unfoldable pub derive_ui_cpu_mask : CpuSet → CpuSet
derive_ui_cpu_mask allowed =
    if cpu_count allowed == 0
    then allowed
    else if leb (cpu_count allowed) 2
    then first_cpu allowed
    else cpu_xor allowed (derive_audio_cpu_mask allowed)

-- applyCurrentThreadUiAffinity, from the answer of sched_getaffinity: the mask that it hands to
-- sched_setaffinity, or `none` where it returns before that.
unfoldable pub apply_ui_affinity : Bool → Option CpuSet → Option CpuSet
apply_ui_affinity enabled none = none
apply_ui_affinity enabled (some allowed) =
    let ui = derive_ui_cpu_mask allowed in
    if not enabled then none else if cpu_count ui == 0 then none else some ui

-- applyCurrentThreadAudioAffinity
unfoldable pub apply_audio_affinity :
    Bool → ServiceCpuPlacement → Option CpuSet → AudioCpuRole → Option CpuSet
apply_audio_affinity enabled placement none role = none
apply_audio_affinity enabled placement (some allowed) role =
    let audio = derive_audio_role_cpu_mask placement allowed role in
    if not enabled
    then none
    else if cpu_count audio == 0
    then none
    else if cpu_equal audio allowed
    then none
    else some audio
