-- ===== src/ByteRing/Copy.antt =====
-- The two spans of the copies in src/libusb_uac_driver.cpp, and one pass round the ring.
use native.Mathlib.Nat.{mod-lt, mod-mod, mod-eq_of_lt, mod_self, mod-add-mod}
use liballa.Base.{
  ℕ, zero, suc, ◌+◌, ◌-◌, ◌%◌, ◌≤◌, ◌<◌, ◌≡◌, refl, sym, ap, ap₂, ◌∙◌, List, [], ◌∷◌, ◌++◌, arith,
  length, length-set, get_or, set, take, drop, length-take, length-drop, take-append-drop, dec_le,
}
use liballa.Base.Bits.{two_pow, two_pow-pos, bit_and-mask}
use liballa.ByteRing.{write_at, read_at, first_span, copy_in, copy_out}

module _ (cap : ℕ) where
  -- One pass, byte by byte, from the counter value `n` on.
  unfoldable pub write_round : List ℕ → ℕ → List ℕ → List ℕ
  write_round bytes n [] = bytes
  write_round bytes n (b ∷ src) = write_round (set bytes (n % cap) b) (n + 1) src

  unfoldable pub read_round : List ℕ → ℕ → ℕ → List ℕ
  read_round bytes n zero = []
  read_round bytes n (suc c) = get_or bytes (n % cap) 0 ∷ read_round bytes (n + 1) c

  pub length-write_round :
      (bytes : List ℕ) (n : ℕ) (src : List ℕ) → length (write_round bytes n src) ≡ length bytes
  unfolding write_round
  length-write_round bytes n [] = refl
  length-write_round bytes n (b ∷ src) =
      length-write_round (set bytes (n % cap) b) (n + 1) src ∙ length-set bytes (n % cap) b

  next_index : (n m : ℕ) → n % cap ≡ m % cap → (n + 1) % cap ≡ (m + 1) % cap
  next_index n m e = sym (mod-add-mod n cap 1) ∙ ap (λ t. (t + 1) % cap) e ∙ mod-add-mod m cap 1

  -- Only the counter modulo the capacity matters.
  pub read_round-mod :
      (bytes : List ℕ) (n m c : ℕ) → n % cap ≡ m % cap → read_round bytes n c ≡ read_round bytes m c
  unfolding read_round
  read_round-mod bytes n m zero e = refl
  read_round-mod bytes n m (suc c) e =
      ap₂ ◌∷◌ (ap (λ i. get_or bytes i 0) e)
        (read_round-mod bytes (n + 1) (m + 1) c (next_index n m e))

  pub write_round-mod :
      (bytes : List ℕ) (n m : ℕ) (src : List ℕ)
      → n % cap ≡ m % cap
      → write_round bytes n src ≡ write_round bytes m src
  unfolding write_round
  write_round-mod bytes n m [] e = refl
  write_round-mod bytes n m (b ∷ src) e =
      ap (λ i. write_round (set bytes i b) (n + 1) src) e
      ∙ write_round-mod (set bytes (m % cap) b) (n + 1) (m + 1) src (next_index n m e)

  pub read_round-append :
      (bytes : List ℕ) (n a c : ℕ)
      → read_round bytes n (a + c) ≡ read_round bytes n a ++ read_round bytes (n + a) c
  unfolding read_round
  read_round-append bytes n zero c =
      ap₂ (read_round bytes) {x = n} {y = n + 0} (omega arith) (omega arith)
  read_round-append bytes n (suc a) c =
      ap (read_round bytes n) {x = suc a + c} {y = suc (a + c)} (omega arith)
      ∙ ap (◌∷◌ (get_or bytes (n % cap) 0)) (
          read_round-append bytes (n + 1) a c
          ∙ ap (λ m. read_round bytes (n + 1) a ++ read_round bytes m c) (omega arith))

  write_round-append :
      (bytes : List ℕ) (n : ℕ) (xs ys : List ℕ)
      → write_round bytes n (xs ++ ys) ≡ write_round (write_round bytes n xs) (n + length xs) ys
  unfolding write_round
  write_round-append bytes n [] ys = ap (λ m. write_round bytes m ys) (omega arith)
  write_round-append bytes n (x ∷ xs) ys =
      write_round-append (set bytes (n % cap) x) (n + 1) xs ys
      ∙ ap (λ m. write_round (write_round (set bytes (n % cap) x) (n + 1) xs) m ys) (omega arith)

  write_at-round :
      (bytes : List ℕ) (off : ℕ) (src : List ℕ)
      → off + length src ≤ cap
      → write_at bytes off src ≡ write_round bytes off src
  unfolding write_at write_round
  write_at-round bytes off [] h = refl
  write_at-round bytes off (b ∷ src) h =
      write_at-round (set bytes off b) (off + 1) src (omega arith)
      ∙ ap (λ i. write_round (set bytes i b) (off + 1) src)
          (sym (mod-eq_of_lt {n = off} {m = cap} (omega arith)))

  read_at-round :
      (bytes : List ℕ) (off c : ℕ) → off + c ≤ cap → read_at bytes off c ≡ read_round bytes off c
  unfolding read_at read_round
  read_at-round bytes off zero h = refl
  read_at-round bytes off (suc c) h =
      ap₂ ◌∷◌ (ap (λ i. get_or bytes i 0) (sym (mod-eq_of_lt {n = off} {m = cap} (omega arith))))
        (read_at-round bytes (off + 1) c (omega arith))

  read_round-none :
      (bytes : List ℕ) (n m c : ℕ) → c ≡ 0 → read_round bytes n c ≡ read_round bytes m c
  unfolding read_round
  read_round-none bytes n m zero e = refl
  read_round-none bytes n m (suc c) e = absurd (omega arith)

  write_round-none :
      (bytes : List ℕ) (n m : ℕ) (src : List ℕ)
      → length src ≡ 0
      → write_round bytes n src ≡ write_round bytes m src
  unfolding write_round
  write_round-none bytes n m [] e = refl
  write_round-none bytes n m (b ∷ src) e = absurd (omega arith)

  turn : 0 < cap → (off first : ℕ) → off + first ≡ cap → 0 % cap ≡ (off + first) % cap
  turn p off first e = mod-eq_of_lt p ∙ sym (mod_self cap) ∙ ap (λ t. t % cap) (sym e)

  two_writes :
      (bytes : List ℕ) (off : ℕ) (src : List ℕ)
      → length bytes ≡ cap
      → off < cap
      → length src ≤ cap
      → write_at
          (write_at bytes off (take (first_span bytes off (length src)) src))
          0
          (drop (first_span bytes off (length src)) src)
        ≡ write_round bytes off src
  two_writes bytes off src full h fits =
      write_at-round (write_at bytes off front) 0 back (omega (arith, length-drop first src))
      ∙ ap (λ b. write_round b 0 back)
          (write_at-round bytes off front (omega (arith, length-take first src)))
      ∙ joined (dec_le (length src) (cap - off))
      ∙ ap (write_round bytes off) (take-append-drop first src)
    where
      first : ℕ
      first = first_span bytes off (length src)

      front : List ℕ
      front = take first src

      back : List ℕ
      back = drop first src

      joined :
          Dec (length src ≤ cap - off)
          → write_round (write_round bytes off front) 0 back ≡ write_round bytes off (front ++ back)
      joined (yes whole) =
          write_round-none (write_round bytes off front) 0 (off + length front) back
            (omega (arith, length-drop first src))
          ∙ sym (write_round-append bytes off front back)
      joined (no split) =
          write_round-mod (write_round bytes off front) 0 (off + length front) back
            (turn (omega arith) off (length front) (omega (arith, length-take first src)))
          ∙ sym (write_round-append bytes off front back)

  two_reads :
      (bytes : List ℕ) (off n : ℕ)
      → length bytes ≡ cap
      → off < cap
      → n ≤ cap
      → read_at bytes off (first_span bytes off n) ++ read_at bytes 0 (n - first_span bytes off n)
        ≡ read_round bytes off n
  two_reads bytes off n full h fits =
      ap₂ ◌++◌ (read_at-round bytes off first (omega arith))
        (read_at-round bytes 0 rest (omega arith))
      ∙ ap (◌++◌ (read_round bytes off first)) (turned (dec_le n (cap - off)))
      ∙ sym (read_round-append bytes off first rest)
      ∙ ap (read_round bytes off) (omega arith)
    where
      first : ℕ
      first = first_span bytes off n

      rest : ℕ
      rest = n - first

      turned : Dec (n ≤ cap - off) → read_round bytes 0 rest ≡ read_round bytes (off + first) rest
      turned (yes whole) = read_round-none bytes 0 (off + first) rest (omega arith)
      turned (no split) =
          read_round-mod bytes 0 (off + first) rest (turn (omega arith) off first (omega arith))

module _ (k : ℕ) (bytes : List ℕ) (full : length bytes ≡ two_pow k) where
  -- The two spans of a write store the bytes one by one, round the ring.
  pub copy_in-round :
      (cursor : ℕ) (src : List ℕ)
      → length src ≤ two_pow k
      → copy_in bytes (two_pow k - 1) cursor src ≡ write_round (two_pow k) bytes cursor src
  unfolding copy_in
  copy_in-round cursor src fits =
      ap
        (λ off.
          write_at (write_at bytes off (take (first_span bytes off (length src)) src)) 0
            (drop (first_span bytes off (length src)) src))
        (bit_and-mask k cursor)
      ∙ two_writes (two_pow k) bytes (cursor % two_pow k) src full (mod-lt cursor (two_pow-pos k))
          fits
      ∙ write_round-mod (two_pow k) bytes (cursor % two_pow k) cursor src
          (mod-mod cursor (two_pow k))

  -- The two spans of a read are the bytes one by one, round the ring.
  pub copy_out-round :
      (cursor n : ℕ)
      → n ≤ two_pow k
      → copy_out bytes (two_pow k - 1) cursor n ≡ read_round (two_pow k) bytes cursor n
  unfolding copy_out
  copy_out-round cursor n fits =
      ap
        (λ off.
          read_at bytes off (first_span bytes off n)
          ++ read_at bytes 0 (n - first_span bytes off n))
        (bit_and-mask k cursor)
      ∙ two_reads (two_pow k) bytes (cursor % two_pow k) n full (mod-lt cursor (two_pow-pos k)) fits
      ∙ read_round-mod (two_pow k) bytes (cursor % two_pow k) cursor n (mod-mod cursor (two_pow k))
