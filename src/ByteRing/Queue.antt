-- ===== src/ByteRing/Queue.antt =====
-- A byte ring of src/libusb_uac_driver.cpp as a queue: what lies between the two counters.
use native.Mathlib.Nat.{mod-lt}
use liballa.Base.{
  ℕ, zero, suc, ◌+◌, ◌-◌, ◌%◌, ◌≤◌, ◌<◌, ◌≡◌, ◌≢◌, refl, sym, ap, ap₂, ◌∙◌, List, [], ◌∷◌, ◌++◌,
  append_assoc, append-nil, arith, length, length-set, get_or-set_self, get_or-set_ne, set,
}
use liballa.Base.Bits.{slot_ne}
use liballa.ByteRing.Copy.{write_round, read_round, read_round-append}

module _ (cap : ℕ) where
  set_outside :
      (bytes : List ℕ) (n c m b : ℕ)
      → ((i : ℕ) → i < c → m % cap ≢ (n + i) % cap)
      → read_round cap (set bytes (m % cap) b) n c ≡ read_round cap bytes n c
  unfolding read_round
  set_outside bytes n zero m b apart = refl
  set_outside bytes n (suc c) m b apart =
      ap₂ ◌∷◌
        (get_or-set_ne bytes b 0 (λ e. apart 0 (omega arith) (e ∙ ap (λ t. t % cap) (omega arith))))
        (set_outside bytes (n + 1) c m b
          (λ i h e. apart (suc i) (omega arith) (e ∙ ap (λ t. t % cap) (omega arith))))

  -- The next byte goes behind the `c` bytes from `n` on.
  set_next :
      (bytes : List ℕ) (n c b : ℕ)
      → length bytes ≡ cap
      → c < cap
      → read_round cap (set bytes ((n + c) % cap) b) n (c + 1) ≡ read_round cap bytes n c ++ b ∷ []
  unfolding read_round
  set_next bytes n c b full h =
      read_round-append cap (set bytes ((n + c) % cap) b) n c 1
      ∙ ap₂ ◌++◌
          (set_outside bytes n c (n + c) b (λ i lt e.
            slot_ne cap (n + i) (c - i) (omega arith) (omega arith)
              (ap (λ t. t % cap) (omega arith) ∙ e)))
          (ap (λ x. x ∷ [])
            (get_or-set_self bytes ((n + c) % cap) b 0 (omega (arith, mod-lt (n + c) {m = cap}))))

  -- Bytes written behind a queue that has room for them join its end.
  pub push_bytes :
      (bytes : List ℕ) (n c : ℕ) (src : List ℕ)
      → length bytes ≡ cap
      → c + length src ≤ cap
      → read_round cap (write_round cap bytes (n + c) src) n (c + length src)
        ≡ read_round cap bytes n c ++ src
  unfolding write_round
  push_bytes bytes n c [] full h =
      ap (read_round cap bytes n) (omega arith) ∙ sym (append-nil (read_round cap bytes n c))
  push_bytes bytes n c (b ∷ src) full h =
      ap₂ (λ m d. read_round cap (write_round cap (set bytes ((n + c) % cap) b) m src) n d)
        {x = n + c + 1} {y = n + (c + 1)} (omega arith) (omega arith)
      ∙ push_bytes (set bytes ((n + c) % cap) b) n (c + 1) src
          (length-set bytes ((n + c) % cap) b ∙ full) (omega arith)
      ∙ ap (λ q. q ++ src) (set_next bytes n c b full (omega arith))
      ∙ append_assoc (read_round cap bytes n c) (b ∷ []) src

  pub length-read_round : (bytes : List ℕ) (n c : ℕ) → length (read_round cap bytes n c) ≡ c
  unfolding read_round
  length-read_round bytes n zero = refl
  length-read_round bytes n (suc c) = ap suc (length-read_round bytes (n + 1) c)
