-- ===== src/Descriptors/Walk.antt =====
-- walkExtra of src/libusb_uac_driver.cpp: which descriptors its callback sees.
use liballa.Base.{
  ℕ, zero, suc, ◌+◌, ◌≤◌, ◌<◌, ◌≡◌, refl, sym, ap, ◌∙◌, ◌⊎◌, ◌||◌, inl, inr, Bool, true, false,
  List, [], ◌∷◌, ◌++◌, append_assoc, append-nil, length-take, arith, Bool-cases, ltb, if◌then◌else◌,
  length, length-append, length-drop, take, drop, take-append-drop, take-append_length, dec_lt,
}
use liballa.Descriptors.{byte, walk_loop, walk_extra}

-- A descriptor: at least two bytes, the first of which is its length.
unfoldable pub IsDescriptor : List ℕ → Type 0
IsDescriptor d = (2 ≤ length d) × (byte d 0 ≡ length d)

-- Bytes that cannot start with a descriptor.
unfoldable pub IsEnd : List ℕ → Type 0
IsEnd p = (length p < 2) ⊎ ((byte p 0 < 2) ⊎ (length p < byte p 0))

abbrev pub concat : List (List ℕ) → List ℕ
concat [] = []
concat (d ∷ ds) = d ++ concat ds

pub data AllDescriptors : List (List ℕ) → Type 0 where
  none_left : AllDescriptors []
  one_more :
      {d : List ℕ} {ds : List (List ℕ)}
      → IsDescriptor d
      → AllDescriptors ds
      → AllDescriptors (d ∷ ds)

long_enough :
    (d rest end : List ℕ) → IsDescriptor d → length (rest ++ end) + 2 ≤ length ((d ++ rest) ++ end)
unfolding IsDescriptor
long_enough d rest end h =
    omega (arith, length-append (d ++ rest) end, length-append d rest, length-append rest end)

module _ {S : Type 0} (cb : List ℕ → ℕ → S → S × Bool) where
  -- The callback on each descriptor in turn, until it says stop.
  abbrev pub visit : List (List ℕ) → List ℕ → S → S
  visit [] end s = s
  visit (d ∷ ds) end s =
      let (s', stop) = cb (d ++ (concat ds ++ end)) (length d) s in
      let rest = visit ds end s' in if stop then s' else rest

  byte_front : (d rest : List ℕ) → IsDescriptor d → byte (d ++ rest) 0 ≡ length d
  unfolding IsDescriptor
  byte_front [] rest (long, e) = absurd (omega arith)
  byte_front (b ∷ bs) rest (long, e) = e

  drop_front : (d rest : List ℕ) → drop (length d) (d ++ rest) ≡ rest
  drop_front [] rest = refl
  drop_front (b ∷ bs) rest = drop_front bs rest

  walk_loop_round :
      (fuel : ℕ) (d rest : List ℕ) (s : S)
      → IsDescriptor d
      → let (s', stop) = cb (d ++ rest) (length d) s in
        walk_loop cb (suc fuel) (d ++ rest) s ≡ (if stop then s' else walk_loop cb fuel rest s')
  unfolding walk_loop IsDescriptor
  walk_loop_round fuel d rest s h =
      let long : ltb (length d + length rest) 2 ≡ false = ground arith in
      let filled : ltb (length d) 2 ≡ false = ground arith in
      let inside : ltb (length d + length rest) (length d) ≡ false = ground arith in
      rw (byte_front d rest h, drop_front d rest, length-append d rest, long, filled, inside)

  walk_loop_end : (fuel : ℕ) (p : List ℕ) (s : S) → IsEnd p → walk_loop cb fuel p s ≡ s
  unfolding walk_loop IsEnd
  walk_loop_end zero p s h = refl
  walk_loop_end (suc fuel) p s (inl short) = let t : ltb (length p) 2 ≡ true = ground arith in rw t
  walk_loop_end (suc fuel) p s (inr h) =
      let t : (ltb (byte p 0) 2 || ltb (length p) (byte p 0)) ≡ true = ground arith in
      elim (Bool-cases (ltb (length p) 2)) [ inl e ↦ rw e | inr e ↦ rw (e, t) ]

  walk_loop_visits :
      (fuel : ℕ) (ds : List (List ℕ)) (end : List ℕ) (s : S)
      → AllDescriptors ds
      → IsEnd end
      → length (concat ds ++ end) ≤ fuel
      → walk_loop cb fuel (concat ds ++ end) s ≡ visit ds end s
  walk_loop_visits fuel [] end s none_left stuck enough = walk_loop_end fuel end s stuck
  walk_loop_visits zero (d ∷ ds) end s (one_more h hs) stuck enough =
      absurd (omega (arith, long_enough d (concat ds) end h))
  walk_loop_visits (suc fuel) (d ∷ ds) end s (one_more h hs) stuck enough =
      let (s', stop) = cb (d ++ (concat ds ++ end)) (length d) s in
      let later =
        walk_loop_visits fuel ds end s' hs stuck (omega (arith, long_enough d (concat ds) end h)) in
      ap (λ p. walk_loop cb (suc fuel) p s) (append_assoc d (concat ds) end)
      ∙ walk_loop_round fuel d (concat ds ++ end) s h
      ∙ ap (λ (r : S). if stop then s' else r) later

  -- Where `extra` is a sequence of descriptors, and then nothing that a descriptor could start with,
  -- the callback sees exactly those descriptors, in order, until it says stop; the bytes that follow
  -- a descriptor are in its sight.
  pub walk_extra-concat :
      (ds : List (List ℕ)) (end : List ℕ) (s : S)
      → AllDescriptors ds
      → IsEnd end
      → walk_extra cb (concat ds ++ end) s ≡ visit ds end s
  unfolding walk_extra
  walk_extra-concat ds end s hs stuck =
      walk_loop_visits (length (concat ds ++ end)) ds end s hs stuck (omega arith)

-- Every `extra` is a sequence of descriptors with such a rest.
pub record Split (extra : List ℕ) : Type 0 where
  pub descriptors : List (List ℕ)
  pub end : List ℕ
  pub all : AllDescriptors descriptors
  pub stuck : IsEnd end
  pub whole : concat descriptors ++ end ≡ extra

byte-take : (n : ℕ) (p : List ℕ) → byte (take (suc n) p) 0 ≡ byte p 0
byte-take n [] = refl
byte-take n (b ∷ p) = refl

front_IsDescriptor :
    (n : ℕ) (p : List ℕ) → byte p 0 ≡ n → 2 ≤ n → n ≤ length p → IsDescriptor (take n p)
unfolding IsDescriptor
front_IsDescriptor zero p e low high = absurd (omega arith)
front_IsDescriptor (suc n) p e low high =
    let size = length-take (suc n) p in
    (omega (arith, size), byte-take n p ∙ e ∙ sym (size ∙ omega arith))

undivided : (p : List ℕ) → IsEnd p → Split p
undivided p stuck = record {
  descriptors = [];
  end = p;
  all = none_left;
  stuck = stuck;
  whole = refl;
}

put_front : (p : List ℕ) → 2 ≤ byte p 0 → byte p 0 ≤ length p → Split (drop (byte p 0) p) → Split p
put_front p low high later = record {
  descriptors = take (byte p 0) p ∷ later.descriptors;
  end = later.end;
  all = one_more (front_IsDescriptor (byte p 0) p refl low high) later.all;
  stuck = later.stuck;
  whole =
      append_assoc (take (byte p 0) p) (concat later.descriptors) later.end
      ∙ ap (λ q. take (byte p 0) p ++ q) later.whole
      ∙ take-append-drop (byte p 0) p;
}

divide : (fuel : ℕ) (p : List ℕ) → length p ≤ fuel → Split p
unfolding IsEnd
divide zero p h = undivided p (inl (omega arith))
divide (suc fuel) p h = elim (dec_lt (length p) 2) [
  | yes short ↦ undivided p (inl short)
  | no long ↦ elim (dec_lt (byte p 0) 2) [
    | yes low ↦ undivided p (inr (inl low))
    | no low ↦ elim (dec_lt (length p) (byte p 0)) [
      | yes high ↦ undivided p (inr (inr high))
      | no high ↦
          put_front p (omega arith) (omega arith)
            (divide fuel (drop (byte p 0) p) (omega (arith, length-drop (byte p 0) p)))
    ]
  ]
]

-- The callback that keeps each descriptor.
unfoldable pub collect : List ℕ → ℕ → List (List ℕ) → List (List ℕ) × Bool
collect p len seen = (seen ++ take len p ∷ [], false)

visit-collect :
    (ds : List (List ℕ)) (end : List ℕ) (seen : List (List ℕ))
    → visit collect ds end seen ≡ seen ++ ds
unfolding collect
visit-collect [] end seen = sym (append-nil seen)
visit-collect (d ∷ ds) end seen =
    visit-collect ds end _
    ∙ ap (λ e. (seen ++ e ∷ []) ++ ds) (take-append_length (length d) d (concat ds ++ end) refl)
    ∙ append_assoc seen (d ∷ []) ds

-- Descriptors that were written one after the other are read back by `walkExtra`, each one whole, in
-- the same order, and nothing besides, if no further descriptor starts after them.
pub walk_extra_descriptors :
    (ds : List (List ℕ)) (end : List ℕ)
    → AllDescriptors ds
    → IsEnd end
    → walk_extra collect (concat ds ++ end) [] ≡ ds
walk_extra_descriptors ds end hs stuck =
    walk_extra-concat collect ds end [] hs stuck ∙ visit-collect ds end []

walk_loop-Split :
    {S : Type 0} (cb : List ℕ → ℕ → S → S × Bool) (fuel : ℕ) {extra : List ℕ} (s : S)
    → (split : Split extra) → length extra ≤ fuel
    → walk_loop cb fuel extra s ≡ visit cb split.descriptors split.end s
walk_loop-Split cb fuel s split enough =
    ap (λ p. walk_loop cb fuel p s) (sym split.whole)
    ∙ walk_loop_visits cb fuel split.descriptors split.end s split.all split.stuck
        (rw split.whole enough)

-- The walk of any bytes comes to its end within as many rounds as there are bytes: the bytes divide
-- into descriptors and a rest that none can start with, the callback sees those descriptors until it
-- says stop, and more fuel changes nothing.
pub walk_extra_total :
    {S : Type 0} (cb : List ℕ → ℕ → S → S × Bool) (extra : List ℕ) (more : ℕ) (s : S)
    → (split : Split extra) × (walk_extra cb extra s ≡ visit cb split.descriptors split.end s)
      × (walk_loop cb (length extra + more) extra s ≡ walk_extra cb extra s)
unfolding walk_extra
walk_extra_total cb extra more s =
    let split = divide (length extra) extra (omega arith) in
    let seen = walk_loop-Split cb (length extra) s split (omega arith) in
    (split, seen, walk_loop-Split cb (length extra + more) s split (omega arith) ∙ sym seen)
