-- ===== src/ByteRing.antt =====
-- The byte rings of src/libusb_uac_driver.cpp: a vector of a power of two bytes, two counters that
-- only grow, and copies in at most two spans, as `drainRing`, `writePcm` and the capture path
-- make them.
pub mod Copy
pub mod Queue
pub mod View
use liballa.Base.{
  ℕ, zero, suc, ◌+◌, ◌-◌, List, [], ◌∷◌, ◌++◌, bit_and, min, length, get_or, set, take, drop,
}
use liballa.Base.Word.{sub_u64}

-- std::memcpy into the bytes from an offset on; the callers stay in range.
unfoldable pub write_at : List ℕ → ℕ → List ℕ → List ℕ
write_at bytes off [] = bytes
write_at bytes off (b ∷ src) = write_at (set bytes off b) (off + 1) src

-- std::memcpy out of the bytes.
unfoldable pub read_at : List ℕ → ℕ → ℕ → List ℕ
read_at bytes off zero = []
read_at bytes off (suc n) = get_or bytes off 0 ∷ read_at bytes (off + 1) n

-- The part of `n` bytes that stands before the end of the vector.
abbrev pub first_span : List ℕ → ℕ → ℕ → ℕ
first_span bytes off n = min n (length bytes - off)

unfoldable pub copy_in : List ℕ → ℕ → ℕ → List ℕ → List ℕ
copy_in bytes mask cursor src =
    let off = bit_and cursor mask in
    let first = first_span bytes off (length src) in
    write_at (write_at bytes off (take first src)) 0 (drop first src)

unfoldable pub copy_out : List ℕ → ℕ → ℕ → ℕ → List ℕ
copy_out bytes mask cursor n =
    let off = bit_and cursor mask in
    let first = first_span bytes off n in read_at bytes off first ++ read_at bytes 0 (n - first)
