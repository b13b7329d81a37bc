-- ===== src/Base/Powers.antt =====
-- The test `(n & (n - 1)) == 0` finds the powers of two.
use liballa.Base.{
  ℕ, zero, suc, ◌-◌, ◌/◌, ◌%◌, ◌≤◌, ◌<◌, ◌≡◌, refl, ap, bit_and, dec_le, ℕ_discrete, arith, ◌^◌,
}
use liballa.Base.Bits.{bit_and-halves, two_pow, two_pow_mono}

bit_and_self : (fuel n : ℕ) → n ≤ fuel → bit_and n n ≡ n
bit_and_self fuel zero h = refl
bit_and_self zero (suc n) h = elim h [ ]
bit_and_self (suc fuel) (suc n) h =
    omega (arith, bit_and-halves (suc n) (suc n), bit_and_self fuel (suc n / 2) (omega arith))

power_of : (fuel n : ℕ) → n ≤ fuel → 0 < n → bit_and n (n - 1) ≡ 0 → (k : ℕ) × (n ≡ two_pow k)
power_of zero n h p e = (0, omega arith)
power_of (suc fuel) n h p e = elim (ℕ_discrete (n % 2) 0) [
  | yes even ↦
      let half : bit_and (n / 2) (n / 2 - 1) ≡ 0 = omega (
        arith,
        bit_and-halves n (n - 1),
        ap (bit_and (n / 2)) {x = (n - 1) / 2} {y = n / 2 - 1} (omega arith),
      ) in
      let (k, same) = power_of fuel (n / 2) (omega arith) (omega arith) half in (suc k, omega arith)
  | no odd ↦ (
    0,
    omega (
      arith,
      bit_and-halves n (n - 1),
      bit_and_self n (n / 2) (omega arith),
      ap (bit_and (n / 2)) {x = (n - 1) / 2} {y = n / 2} (omega arith),
    ),
  )
]

-- A capacity that passes the test and is at most 2 ^ 20 is 2 ^ k with k at most 20.
pub power_up_to :
    (n : ℕ) → 0 < n → n ≤ 2 ^ 20 → bit_and n (n - 1) ≡ 0 → (k : ℕ) × (n ≡ two_pow k) × (k ≤ 20)
power_up_to n p h e =
    let (k, same) = power_of n n (omega arith) p e in
    elim (dec_le k 20) [
      | yes small ↦ (k, same, small)
      | no large ↦ (0, omega (arith, two_pow_mono 21 k (omega arith)), omega arith)
    ]
