-- ===== src/Base/Bits.antt =====
-- Masking with a power of two less one, at variables.
use Prim.Native.Nat.{digits, bit_and-bitwise}
use native.Mathlib.Nat.{
  div-add-mod, mod-lt, mul-add-mod_self_left, mod-eq_of_lt, mod-eq-sub-mod, mod-add-mod,
  mod-mod_of_dvd,
}
use liballa.Base.{
  ℕ, zero, suc, ◌+◌, ◌-◌, ◌*◌, ◌/◌, ◌%◌, ◌^◌, ◌≤◌, ◌<◌, ◌≡◌, refl, ap, sym, ◌∙◌, min, bit_and, ◌≢◌,
  dec_lt, arith,
}

-- How many digits the native recursion is given does not matter, once they are enough.
digits_enough :
    (n k a b : ℕ) → a ≤ n → a ≤ k → digits (λ c. zero) min n a b ≡ digits (λ c. zero) min k a b
digits_enough zero zero a b h g = refl
digits_enough zero (suc k) zero b h g = refl
digits_enough zero (suc k) (suc a) b h g = elim h [ ]
digits_enough (suc n) zero zero b h g = refl
digits_enough (suc n) zero (suc a) b h g = elim g [ ]
digits_enough (suc n) (suc k) zero b h g = refl
digits_enough (suc n) (suc k) (suc a) b h g =
    ap (λ r. r * 2 + min (suc a % 2) (b % 2))
      (digits_enough n k (suc a / 2) (b / 2) (omega arith) (omega arith))

pub bit_and-halves : (a b : ℕ) → bit_and a b ≡ bit_and (a / 2) (b / 2) * 2 + min (a % 2) (b % 2)
bit_and-halves zero b = omega (arith, bit_and-bitwise 0 b, bit_and-bitwise 0 (b / 2))
bit_and-halves (suc a) b =
    bit_and-bitwise (suc a) b
    ∙ ap (λ r. r * 2 + min (suc a % 2) (b % 2))
        (digits_enough a (suc a / 2) (suc a / 2) (b / 2) (omega arith) (omega arith)
          ∙ sym (bit_and-bitwise (suc a / 2) (b / 2)))

bit_and-none : (n a : ℕ) → a ≤ n → bit_and a 0 ≡ 0
bit_and-none n zero h = refl
bit_and-none zero (suc a) h = elim h [ ]
bit_and-none (suc n) (suc a) h =
    omega (arith, bit_and-halves (suc a) 0, bit_and-none n (suc a / 2) (omega arith))

-- 2 ^ k, by doubling.
abbrev pub two_pow : ℕ → ℕ
two_pow zero = 1
two_pow (suc k) = two_pow k * 2

pub two_pow-pos : (k : ℕ) → 0 < two_pow k
two_pow-pos zero = omega arith
two_pow-pos (suc k) = omega (arith, two_pow-pos k)

pub two_pow_mono : (j k : ℕ) → j ≤ k → two_pow j ≤ two_pow k
two_pow_mono zero k h = two_pow-pos k
two_pow_mono (suc j) zero h = elim h [ ]
two_pow_mono (suc j) (suc k) h = omega (arith, two_pow_mono j k (omega arith))

mod_double : (a m : ℕ) → 0 < m → a % (m * 2) ≡ a / 2 % m * 2 + a % 2
mod_double a m h =
    ap (λ t. t % (m * 2)) whole
    ∙ mul-add-mod_self_left (m * 2) (a / 2 / m) rest
    ∙ mod-eq_of_lt {n = rest} (omega (arith, mod-lt (a / 2) h))
  where
    rest : ℕ
    rest = a / 2 % m * 2 + a % 2

    whole : a ≡ m * 2 * (a / 2 / m) + rest
    whole = omega (arith, div-add-mod (a / 2) m)

-- `x & (2 ^ k - 1)` is `x % 2 ^ k`.
pub bit_and-mask : (k a : ℕ) → bit_and a (two_pow k - 1) ≡ a % two_pow k
bit_and-mask zero a = omega (arith, bit_and-none a a (omega arith))
bit_and-mask (suc k) a = omega (
  arith,
  bit_and-halves a (two_pow k * 2 - 1),
  two_pow-pos k,
  bit_and-mask k (a / 2),
  ap (bit_and (a / 2)) (half k),
  mod_double a (two_pow k) (two_pow-pos k),
)
  where
    half : (k : ℕ) → (two_pow k * 2 - 1) / 2 ≡ two_pow k - 1
    half k = omega (arith, two_pow-pos k)

-- Slots that fewer than a whole round lie apart differ.
pub slot_ne : (m i d : ℕ) → 0 < d → d < m → (i + d) % m ≢ i % m
slot_ne m i d p h e = elim (dec_lt (i % m + d) m) [
  | yes near ↦ omega (arith, mod-add-mod i m d, mod-eq_of_lt near)
  | no far ↦ omega (
    arith,
    mod-add-mod i m d,
    mod-lt i {m = m},
    mod-eq-sub-mod {n = i % m + d} {m = m} (omega arith),
    mod-eq_of_lt {n = i % m + d - m} {m = m} (omega (arith, mod-lt i {m = m} (omega arith))),
  )
]

pub two_pow-add : (j k : ℕ) → two_pow (j + k) ≡ two_pow j * two_pow k
two_pow-add zero k = ap two_pow {x = 0 + k} {y = k} (omega arith) ∙ omega arith
two_pow-add (suc j) k =
    ap two_pow {x = suc j + k} {y = suc (j + k)} (omega arith) ∙ omega (arith, two_pow-add j k)

two_pow-dvd : (j k : ℕ) → j ≤ k → two_pow k ≡ two_pow j * two_pow (k - j)
two_pow-dvd j k h = ap two_pow {x = k} {y = j + (k - j)} (omega arith) ∙ two_pow-add j (k - j)

-- A 64-bit counter that wraps keeps its index into a ring of a power of two.
pub wrap_index : (k n : ℕ) → k ≤ 64 → n % 2 ^ 64 % two_pow k ≡ n % two_pow k
wrap_index k n h = mod-mod_of_dvd (two_pow k) n ∣ (two_pow (64 - k), two_pow-dvd k 64 h) ∣₁
