-- ===== src/Base/Word.antt =====
-- Machine words as native numbers, and the casts between them and `int`.
use liballa.Base.{ℕ, ◌+◌, ◌-◌, ◌%◌, ◌^◌, ◌<◌, ◌≡◌, arith, ltb, if◌then◌else◌}
use liballa.Base.Int.{ℤ, pos, negsuc}

abbrev pub u16_mod : ℕ
u16_mod = 2 ^ 16

abbrev pub u32_mod : ℕ
u32_mod = 2 ^ 32

-- `size_t` and `uint64_t` have 64 bits.
abbrev pub u64_mod : ℕ
u64_mod = 2 ^ 64

-- std::numeric_limits<int>::max()
abbrev pub int_max : ℕ
int_max = 2 ^ 31 - 1

abbrev pub u32 : ℕ → ℕ
u32 n = n % u32_mod

abbrev pub u64 : ℕ → ℕ
u64 n = n % u64_mod

-- Subtraction on size_t and uint64_t wraps.
abbrev pub sub_u64 : ℕ → ℕ → ℕ
sub_u64 a b = (a % u64_mod + u64_mod - b % u64_mod) % u64_mod

-- static_cast<int> of an unsigned value.
abbrev pub to_int : ℕ → ℤ
to_int n =
    if ltb (n % u32_mod) (2 ^ 31) then pos (n % u32_mod) else negsuc (u32_mod - n % u32_mod - 1)

-- static_cast<size_t> of an int.
abbrev pub to_size : ℤ → ℕ
to_size (pos n) = n % u64_mod
to_size (negsuc n) = u64_mod - n % u64_mod - 1

-- static_cast<uint32_t> of an int.
abbrev pub int_to_u32 : ℤ → ℕ
int_to_u32 (pos n) = n % u32_mod
int_to_u32 (negsuc n) = u32_mod - n % u32_mod - 1

-- `head - tail` for counters that may have wrapped: the distance survives the wrap.
pub sub_u64-add : (t d : ℕ) → d < u64_mod → sub_u64 ((t + d) % u64_mod) (t % u64_mod) ≡ d
sub_u64-add t d h = omega arith
