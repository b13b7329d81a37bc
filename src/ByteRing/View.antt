-- ===== src/ByteRing/View.antt =====
-- The two ends of a byte ring of src/libusb_uac_driver.cpp, whichever counters it stands behind:
-- what a reader takes off the front, and what a writer puts behind the end.
use liballa.Base.{
  ℕ, ◌+◌, ◌-◌, ◌%◌, ◌≤◌, ◌<◌, ◌≡◌, sym, ap, ap₂, ◌∙◌, List, ◌++◌, arith, length, take, drop,
  take-append_length, drop-append_length,
}
use liballa.Base.Bits.{two_pow, two_pow_mono, wrap_index}
use liballa.Base.Word.{u64_mod, u64, sub_u64}
use liballa.ByteRing.{copy_in, copy_out}
use liballa.ByteRing.Copy.{
  read_round, read_round-mod, read_round-append, write_round, write_round-mod, length-write_round,
  copy_in-round, copy_out-round,
}
use liballa.ByteRing.Queue.{length-read_round, push_bytes}

pub record IsRing (k : ℕ) (bytes : List ℕ) (mask head tail : ℕ) : Type 0 where
  pub small : k ≤ 20
  pub full : length bytes ≡ two_pow k
  pub masked : mask ≡ two_pow k - 1
  pub head_word : head < u64_mod
  pub tail_word : tail < u64_mod
  pub fits : sub_u64 head tail ≤ two_pow k

-- The queued bytes, oldest first.
abbrev pub queue : ℕ → List ℕ → ℕ → ℕ → List ℕ
queue k bytes head tail = read_round (two_pow k) bytes tail (sub_u64 head tail)

module _ {k : ℕ} {bytes : List ℕ} {mask head tail : ℕ} (v : IsRing k bytes mask head tail) where
  parts :
      (a n : ℕ)
      → a + n ≤ sub_u64 head tail
      → queue k bytes head tail
        ≡ read_round (two_pow k) bytes tail a
          ++ (read_round (two_pow k) bytes (tail + a) n
              ++ read_round (two_pow k) bytes (tail + a + n) (sub_u64 head tail - a - n))
  parts a n h =
      ap (read_round (two_pow k) bytes tail) {y = a + (n + (sub_u64 head tail - a - n))}
        (omega arith)
      ∙ read_round-append (two_pow k) bytes tail a (n + (sub_u64 head tail - a - n))
      ∙ ap (λ r. read_round (two_pow k) bytes tail a ++ r)
          (read_round-append (two_pow k) bytes (tail + a) n (sub_u64 head tail - a - n))

  behind :
      (a n : ℕ)
      → a + n ≤ sub_u64 head tail
      → drop a (queue k bytes head tail)
        ≡ read_round (two_pow k) bytes (tail + a) n
          ++ read_round (two_pow k) bytes (tail + a + n) (sub_u64 head tail - a - n)
  behind a n h =
      ap (drop a) (parts a n h)
      ∙ drop-append_length a _ _ (length-read_round (two_pow k) bytes tail a)

  -- `n` bytes copied out behind the first `a`.
  pub take_out :
      (a n : ℕ)
      → a + n ≤ sub_u64 head tail
      → copy_out bytes mask (u64 (tail + a)) n ≡ take n (drop a (queue k bytes head tail))
  take_out a n h =
      ap (λ m. copy_out bytes m (u64 (tail + a)) n) v.masked
      ∙ copy_out-round k bytes v.full (u64 (tail + a)) n (omega (arith, v.fits))
      ∙ read_round-mod (two_pow k) bytes (u64 (tail + a)) (tail + a) n
          (wrap_index k (tail + a) (omega (arith, v.small)))
      ∙ sym (take-append_length n _ _ (length-read_round (two_pow k) bytes (tail + a) n))
      ∙ ap (take n) (sym (behind a n h))

  pub queued_behind :
      (a : ℕ) → a ≤ sub_u64 head tail → sub_u64 head (u64 (tail + a)) ≡ sub_u64 head tail - a
  queued_behind a h = omega (arith, v.head_word, v.tail_word)

  -- The reader's counter moves over `a` bytes.
  pub move_tail :
      (a : ℕ)
      → a ≤ sub_u64 head tail
      → (queue k bytes head (u64 (tail + a)) ≡ drop a (queue k bytes head tail))
        × IsRing k bytes mask head (u64 (tail + a))
  move_tail a h = (
    ap (read_round (two_pow k) bytes (u64 (tail + a))) (queued_behind a h)
        ∙ read_round-mod (two_pow k) bytes (u64 (tail + a)) (tail + a) (sub_u64 head tail - a)
            (wrap_index k (tail + a) (omega (arith, v.small)))
        ∙ sym (drop-append_length a _ _ (length-read_round (two_pow k) bytes tail a))
        ∙ ap (drop a) (sym (read_round-append (two_pow k) bytes tail a (sub_u64 head tail - a)))
        ∙ ap (λ c. drop a (read_round (two_pow k) bytes tail c)) {x = a + (sub_u64 head tail - a)}
            (omega arith),
    record {
      small = v.small;
      full = v.full;
      masked = v.masked;
      head_word = v.head_word;
      tail_word = omega arith;
      fits = omega (arith, queued_behind a h, v.fits);
    },
  )

  -- The writer's copy and its counter.
  pub push_back :
      (src : List ℕ)
      → sub_u64 head tail + length src ≤ two_pow k
      → (queue k (copy_in bytes mask head src) (u64 (head + length src)) tail
          ≡ queue k bytes head tail ++ src)
        × IsRing k (copy_in bytes mask head src) mask (u64 (head + length src)) tail
  push_back src h = (
    ap₂ (λ b c. read_round (two_pow k) b tail c) copied more
        ∙ push_bytes (two_pow k) bytes tail (sub_u64 head tail) src v.full h,
    record {
      small = v.small;
      full = ap length copied ∙ length-write_round (two_pow k) bytes _ src ∙ v.full;
      masked = v.masked;
      head_word = omega arith;
      tail_word = v.tail_word;
      fits = omega (arith, more);
    },
  )
    where
      more : sub_u64 (u64 (head + length src)) tail ≡ sub_u64 head tail + length src
      more = omega (arith, two_pow_mono k 20 v.small, v.head_word, v.tail_word)

      index : head % two_pow k ≡ (tail + sub_u64 head tail) % two_pow k
      index =
          ap (λ t. t % two_pow k) {y = (tail + sub_u64 head tail) % u64_mod}
            (omega (arith, v.head_word, v.tail_word))
          ∙ wrap_index k (tail + sub_u64 head tail) (omega (arith, v.small))

      copied :
          copy_in bytes mask head src ≡ write_round (two_pow k) bytes (tail + sub_u64 head tail) src
      copied =
          ap (λ m. copy_in bytes m head src) v.masked
          ∙ copy_in-round k bytes v.full head src (omega arith)
          ∙ write_round-mod (two_pow k) bytes head (tail + sub_u64 head tail) src index
