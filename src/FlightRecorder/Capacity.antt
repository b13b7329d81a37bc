-- ===== src/FlightRecorder/Capacity.antt =====
-- The constructor's capacity in include/liblowlatencyaudio/PacketFlightRecorder.h.
use liballa.Base.{
  ℕ, zero, suc, ◌+◌, ◌*◌, ◌-◌, ◌≤◌, ◌<◌, ◌≡◌, refl, ◌⊎◌, inl, inr, ap, ◌∙◌, arith, Bool-cases, ltb,
  ◌&&◌, length, length-replicate,
}
use liballa.Base.Bits.{two_pow, two_pow_mono}
use liballa.FlightRecorder.{max_capacity, round_up, doublings, create}

-- `fuel` more doublings reach 2 ^ 20.
round_up_lem :
    (fuel k requested : ℕ)
    → fuel + k ≡ 20
    → (j : ℕ) × (round_up fuel requested (two_pow k) ≡ two_pow j)
      × (j ≤ 20)
      × ((requested ≤ two_pow j) ⊎ (j ≡ 20))
      × ((j ≡ k) ⊎ (two_pow j < requested * 2))
unfolding round_up
round_up_lem zero k requested e =
    let full : k ≡ 20 = omega arith in (k, refl, omega arith, inr full, inl refl)
round_up_lem (suc fuel) k requested e =
    elim (Bool-cases (ltb (two_pow k) requested && ltb (two_pow k) max_capacity)) [
      | inl more ↦
          let (j, same, small, enough, tight) = round_up_lem fuel (suc k) requested (omega arith) in
          (j, rw more same, small, enough, ground arith)
      | inr done ↦
          (k, rw done, omega arith, inl (ground (arith, two_pow_mono (suc k) 20)), inl refl)
    ]

-- The capacity is a power of two of at most 2 ^ 20 that holds the request or is that maximum, and
-- it is below twice any request above 0; the mask is one less and there is a slot for each index.
pub create_capacity :
    (requested : ℕ)
    → let r = create requested in
      (j : ℕ) × (r.capacity ≡ two_pow j)
      × (r.mask ≡ two_pow j - 1)
      × (length r.records ≡ two_pow j)
      × (j ≤ 20)
      × ((requested ≤ r.capacity) ⊎ (r.capacity ≡ max_capacity))
      × ((requested ≤ 0) ⊎ (r.capacity < requested * 2))
unfolding create
create_capacity requested =
    let (j, same, small, enough, tight) = round_up_lem doublings 0 requested refl in
    (
      j,
      same,
      ap (λ c. c - 1) same,
      length-replicate _ _ ∙ same,
      small,
      ground (arith, ap two_pow),
      ground (arith, ap two_pow),
    )
