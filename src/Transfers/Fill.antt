-- ===== src/Transfers/Fill.antt =====
-- prepareImplicitTransfer of src/libusb_uac_driver.cpp: how a transfer that follows the capture clock
-- is filled.
use native.Mathlib.Nat.{add-mul, zero-mul, mul-le-mul_right, div-mul-le_self, div-le_self}
use liballa.Base.{
  ℕ, zero, suc, ◌+◌, ◌-◌, ◌*◌, ◌/◌, ◌≤◌, ◌<◌, ◌≡◌, refl, sym, ap, ap₂, transport, ◌∙◌, true, false,
  List, [], ◌∷◌, ◌++◌, some, arith, length, take, drop, ltb, Bool-cases, inl, inr, drop-nil,
  length-take, length-drop, ◌^◌,
}
use liballa.Base.Int.{pos, ltb_ℤ}
use liballa.Playback.{Playback, stride, queued_bytes, buffered_frames}
use liballa.Playback.Valid.{IsValid, contents, length-contents, capacity_bound}
use liballa.Playback.Drain.{stride-drain_ring, drain_ring_refines}
use liballa.Transfers.{
  Engine, Transfer, frame_counts, sum, drain_packet, fill_packets, has_metadata,
  prepare_implicit_transfer,
}

-- The bytes of the packets, one after another.
unfoldable pub joined : List (List ℕ) → List ℕ
joined [] = []
joined (packet ∷ packets) = packet ++ joined packets

unfoldable pub lengths : List (List ℕ) → List ℕ
lengths [] = []
lengths (packet ∷ packets) = length packet ∷ lengths packets

unfoldable pub scaled : ℕ → List ℕ → List ℕ
scaled s [] = []
scaled s (n ∷ ns) = n * s ∷ scaled s ns

take_more :
    (a b : ℕ) (xs : List ℕ) → a ≤ length xs → take (a + b) xs ≡ take a xs ++ take b (drop a xs)
take_more zero b xs h = ap (λ n. take n xs) (omega arith)
take_more (suc a) b [] h = elim h [ ]
take_more (suc a) b (x ∷ xs) h =
    ap (λ n. take n (x ∷ xs)) {y = suc (a + b)} (omega arith)
    ∙ ap (λ t. x ∷ t) (take_more a b xs (omega arith))

drop_more : (a b : ℕ) (xs : List ℕ) → drop (a + b) xs ≡ drop b (drop a xs)
drop_more zero b xs = ap (λ n. drop n xs) (omega arith)
drop_more (suc a) b [] = ap (λ n. drop n []) {y = suc (a + b)} (omega arith) ∙ sym (drop-nil b)
drop_more (suc a) b (x ∷ xs) =
    ap (λ n. drop n (x ∷ xs)) {y = suc (a + b)} (omega arith) ∙ drop_more a b xs

-- The packets hold the oldest `total` bytes in the given sizes, and the rest stays queued.
IsFilling : ℕ → Playback → List ℕ → Playback × List (List ℕ) → Type 0
IsFilling k p counts (p', packets) =
    (joined packets ≡ take (sum counts * stride p) (contents k p))
    × (contents k p' ≡ drop (sum counts * stride p) (contents k p))
    × (lengths packets ≡ scaled (stride p) counts)
    × IsValid k p'

drain_packet_refines :
    (k now frames : ℕ) (p : Playback)
    → IsValid k p
    → let (p', packet) = drain_packet now frames p in
      (packet ≡ take (frames * stride p) (contents k p))
      × (contents k p' ≡ drop (frames * stride p) (contents k p))
      × (stride p' ≡ stride p)
      × IsValid k p'
drain_packet_refines k now frames p v = elim (Bool-cases (ltb 0 (frames * stride p))) [
  | inl more ↦
      let (out, left, valid) = drain_ring_refines v now (frames * stride p) in
      rw more (out, left, stride-drain_ring now (frames * stride p) p, valid)
  | inr none_left ↦
      let nothing : frames * stride p ≡ 0 = ground arith in
      rw none_left (rw nothing refl, rw nothing refl, refl, v)
]

fill_packets_refines :
    (k now : ℕ) (counts : List ℕ) (p : Playback)
    → IsValid k p
    → sum counts * stride p ≤ queued_bytes p
    → IsFilling k p counts (fill_packets now counts p)
unfolding fill_packets IsFilling joined lengths scaled sum
fill_packets_refines k now [] p v h =
    (rw (zero-mul (stride p)) refl, rw (zero-mul (stride p)) refl, refl, v)
fill_packets_refines k now (frames ∷ counts) p v h =
    let s = stride p in
    let (p', packet) = drain_packet now frames p in
    let (out, left, size, valid) = drain_packet_refines k now frames p v in
    let whole : (frames + sum counts) * s ≡ frames * s + sum counts * s =
      add-mul frames (sum counts) s in
    let there : length (contents k p) ≡ queued_bytes p = length-contents k p in
    let remaining : queued_bytes p' ≡ queued_bytes p - frames * s =
      sym (length-contents k p')
      ∙ ap length left
      ∙ length-drop (frames * s) (contents k p)
      ∙ ap (λ n. n - frames * s) there in
    let (bytes, rest, sizes, valid') =
      fill_packets_refines k now counts p' valid (rw size (omega (arith, whole, remaining))) in
    (
      ap₂ ◌++◌ out (bytes ∙ ap₂ (λ t xs. take (sum counts * t) xs) size left)
          ∙ sym (take_more (frames * s) (sum counts * s) (contents k p) (omega (arith, whole)))
          ∙ ap (λ n. take n (contents k p)) (sym whole),
      rest
          ∙ ap₂ (λ t xs. drop (sum counts * t) xs) size left
          ∙ sym (drop_more (frames * s) (sum counts * s) (contents k p))
          ∙ ap (λ n. drop n (contents k p)) (sym whole),
      ap₂ ◌∷◌ (ap length out ∙ length-take (frames * s) (contents k p) ∙ omega (arith, whole))
          (sizes ∙ ap (λ t. scaled t counts) size),
      valid',
    )

prepared_fields :
    (now : ℕ) (xfr filled : Transfer) (e : Engine)
    → let counts = frame_counts e e.capture.implicit_read (length xfr.packets) in
      let (e', outcome) = prepare_implicit_transfer now xfr e in
      outcome ≡ some filled
      → (has_metadata (length xfr.packets) e.capture ≡ true)
        × (ltb_ℤ (buffered_frames e.playback) (pos (sum counts)) ≡ false)
        × (e'.playback ≡ (fill_packets now counts e.playback).0)
        × (filled ≡ record xfr { packets = (fill_packets now counts e.playback).1 })
unfolding prepare_implicit_transfer
prepared_fields now xfr filled e h = ground arith

enough_queued :
    (k n : ℕ) (p : Playback)
    → IsValid k p
    → 0 < stride p
    → ltb_ℤ (buffered_frames p) (pos n) ≡ false
    → n * stride p ≤ queued_bytes p
unfolding buffered_frames
enough_queued k n p v wide h =
    let small : queued_bytes p ≤ 2 ^ 20 = omega (arith, capacity_bound k v.small, v.fits) in
    let whole : n ≤ queued_bytes p / stride p =
      ground (arith, div-le_self (queued_bytes p) (stride p)) in
    omega (arith, mul-le-mul_right (stride p) whole, div-mul-le_self (queued_bytes p) (stride p))

-- A transfer that the capture clock paces is only filled when the metadata of all its packets and
-- the rendered frames for them are there; then its packets, one after another, are exactly the oldest
-- queued bytes, each of the size its metadata says, none short, and the rest stays queued.
pub prepare_implicit_transfer_fills :
    (k : ℕ) (e : Engine)
    → IsValid k e.playback
    → 0 < stride e.playback
    → (now : ℕ) (xfr filled : Transfer) → (prepare_implicit_transfer now xfr e).1 ≡ some filled
    → let counts = frame_counts e e.capture.implicit_read (length xfr.packets) in
      let p = (prepare_implicit_transfer now xfr e).0.playback in
      let bytes = sum counts * stride e.playback in
      (has_metadata (length xfr.packets) e.capture ≡ true)
      × (bytes ≤ queued_bytes e.playback)
      × (joined filled.packets ≡ take bytes (contents k e.playback))
      × (lengths filled.packets ≡ scaled (stride e.playback) counts)
      × (contents k p ≡ drop bytes (contents k e.playback))
      × IsValid k p
unfolding IsFilling
prepare_implicit_transfer_fills k e v wide now xfr filled h =
    let counts = frame_counts e e.capture.implicit_read (length xfr.packets) in
    let (metadata, pcm, playback, same) = prepared_fields now xfr filled e h in
    let there = enough_queued k (sum counts) e.playback v wide pcm in
    let (bytes, rest, sizes, valid) = fill_packets_refines k now counts e.playback v there in
    (
      metadata,
      there,
      ap (λ t. joined t.packets) same ∙ bytes,
      ap (λ t. lengths t.packets) same ∙ sizes,
      ap (contents k) playback ∙ rest,
      transport (sym (ap (IsValid k) playback)) valid,
    )
