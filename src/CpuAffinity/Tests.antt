-- ===== src/CpuAffinity/Tests.antt =====
-- The CPU masks of include/liblowlatencyaudio/ThreadUtils.h on an eight-core phone with one core
-- parked, and on small cpusets.
use liballa.Base.{◌<◌, ◌≡◌, refl, true, false, ◌&&◌, [], ◌∷◌, none, some, arith, ltb}
use liballa.CpuAffinity.{
  CpuSet, render, whole_pool, is_set, cpu_count, cpu_equal, zeroed, cpu_xor, rank_range, first_cpu,
  derive_audio_cpu_mask, derive_audio_role_cpu_mask, derive_ui_cpu_mask, apply_ui_affinity,
  apply_audio_affinity,
}
use liballa.CpuAffinity.Pool.{above, derive_audio_cpu_mask_highest}

abbrev phone : CpuSet
phone = true ∷ true ∷ true ∷ false ∷ true ∷ true ∷ []

pool_of_phone : derive_audio_cpu_mask phone ≡ false ∷ false ∷ false ∷ false ∷ true ∷ true ∷ []
unfolding cpu_count zeroed cpu_xor cpu_equal rank_range first_cpu derive_ui_cpu_mask
    derive_audio_role_cpu_mask derive_audio_cpu_mask
pool_of_phone = refl

ui_of_phone : derive_ui_cpu_mask phone ≡ true ∷ true ∷ true ∷ false ∷ false ∷ false ∷ []
unfolding cpu_count zeroed cpu_xor cpu_equal rank_range derive_audio_cpu_mask first_cpu
    derive_audio_role_cpu_mask derive_ui_cpu_mask
ui_of_phone = refl

ui_of_two : derive_ui_cpu_mask (false ∷ true ∷ true ∷ []) ≡ false ∷ true ∷ false ∷ []
unfolding cpu_count zeroed cpu_xor cpu_equal rank_range derive_audio_cpu_mask first_cpu
    derive_audio_role_cpu_mask derive_ui_cpu_mask
ui_of_two = refl

two_are_left_alone : apply_audio_affinity true whole_pool (some (true ∷ true ∷ [])) render ≡ none
unfolding cpu_count zeroed cpu_xor cpu_equal rank_range derive_audio_cpu_mask first_cpu
    derive_ui_cpu_mask derive_audio_role_cpu_mask apply_audio_affinity
two_are_left_alone = refl

ui_applied :
    apply_ui_affinity true (some phone) ≡ some (true ∷ true ∷ true ∷ false ∷ false ∷ false ∷ [])
unfolding cpu_count zeroed cpu_xor cpu_equal rank_range derive_audio_cpu_mask first_cpu
    derive_ui_cpu_mask derive_audio_role_cpu_mask apply_ui_affinity
ui_applied = refl

some_cpus : 2 < cpu_count phone
unfolding cpu_count
some_cpus = omega arith

derive_audio_cpu_mask_highest_example :
    is_set (derive_audio_cpu_mask phone) 4 ≡ is_set phone 4 && ltb (above phone 4) 2
derive_audio_cpu_mask_highest_example = derive_audio_cpu_mask_highest phone 4
