-- ===== src/Waits/Ends.antt =====
-- When the wait loops of src/libusb_uac_driver.cpp end, and with what result.
use liballa.Base.{
  ℕ, ◌+◌, ◌<◌, ◌≡◌, refl, inl, inr, Bool, true, false, ◌&&◌, List, [], ◌∷◌, Option, none, some, sym,
  ap, ◌∙◌, ◌↔◌, arith, Bool-cases, ◌==◌, if◌then◌else◌,
}
use liballa.Base.Int.{ℤ, pos, ltb_ℤ, leb_ℤ}
use liballa.Playback.{Playback, writable_frames, writable_to_target_frames}
use liballa.Capture.{Capture, capture_available_frames}
use liballa.Waits.{
  Round, wait_loop, answer, wait_for_capture_frames_until, wait_for_writable_frames_until,
}

-- Some round reads a clock past the deadline.
pub data Expires {A : Type 0} : List (Round A) → Type 0 where
  now_expired :
      {r : Round A} {rounds : List (Round A)}
      → leb_ℤ r.remaining (pos 0) ≡ true
      → Expires (r ∷ rounds)
  later_expired : {r : Round A} {rounds : List (Round A)} → Expires rounds → Expires (r ∷ rounds)

and_false : (b : Bool) → (b && false) ≡ false
and_false true = refl
and_false false = refl

same_leaf : {A : Type 0} (b c : Bool) (x : A) → (if b then (if c then x else x) else x) ≡ x
same_leaf true true x = refl
same_leaf true false x = refl
same_leaf false c x = refl

module _ {A : Type 0} (short : A → Bool) where
  wait_loop_ends :
      (drained : Bool) (pending : ℕ) (rounds : List (Round A))
      → Expires rounds
      → (a : A) × (wait_loop short true drained pending rounds ≡ some a)
  unfolding wait_loop
  wait_loop_ends drained pending [] x = elim x [ ]
  wait_loop_ends drained pending (r ∷ rounds) (now_expired e) =
      elim (Bool-cases (short r.seen && r.running)) [
        | inl t ↦ (r.seen_after, rw (t, e))
        | inr f ↦ (r.seen_after, rw f)
      ]
  wait_loop_ends drained pending (r ∷ rounds) (later_expired x) =
      let (a, later) =
        wait_loop_ends drained (if drained then 0 else pending + r.signals) rounds x in
      elim (Bool-cases (short r.seen && r.running)) [
        | inr f ↦ (r.seen_after, rw f)
        | inl t ↦ elim (Bool-cases (leb_ℤ r.remaining (pos 0))) [
          | inl e ↦ (r.seen_after, rw (t, e))
          | inr n ↦ elim (Bool-cases (pending + r.signals == 0)) [
            | inl z ↦ (r.seen_after, rw (t, n, z))
            | inr p ↦ (a, rw (t, n, p) later)
          ]
        ]
      ]

  -- Why a bounded wait leaves in a round: nothing is missing, the stream is down, the deadline has
  -- passed, or no signal is there until then.
  pub data Leaves (pending : ℕ) (r : Round A) : Type 0 where
    satisfied : short r.seen ≡ false → Leaves pending r
    down : r.running ≡ false → Leaves pending r
    expired : leb_ℤ r.remaining (pos 0) ≡ true → Leaves pending r
    unsignalled : pending + r.signals ≡ 0 → Leaves pending r

  -- The round in which a wait leaves that drains the channel whenever it is woken: the signals of
  -- earlier rounds do not wake it again.
  pub data LeftIn : ℕ → List (Round A) → Round A → Type 0 where
    leaves :
        {pending : ℕ} {r : Round A} {rounds : List (Round A)}
        → Leaves pending r
        → LeftIn pending (r ∷ rounds) r
    stays :
        {pending : ℕ} {r r' : Round A} {rounds : List (Round A)}
        → short r.seen ≡ true
        → r.running ≡ true
        → leb_ℤ r.remaining (pos 0) ≡ false
        → 0 < pending + r.signals
        → LeftIn 0 rounds r'
        → LeftIn pending (r ∷ rounds) r'

  returns_there :
      (pending : ℕ) (r : Round A) (rounds : List (Round A))
      → Leaves pending r
      → wait_loop short true true pending (r ∷ rounds) ≡ some r.seen_after
  unfolding wait_loop
  returns_there pending r rounds (satisfied e) = rw e
  returns_there pending r rounds (down e) = rw (e, and_false (short r.seen))
  returns_there pending r rounds (expired e) =
      rw e (same_leaf (short r.seen && r.running) true (some r.seen_after))
  returns_there pending r rounds (unsignalled e) =
      let silent : (pending + r.signals == 0) ≡ true = ground arith in
      rw silent
        (same_leaf (short r.seen && r.running) (leb_ℤ r.remaining (pos 0)) (some r.seen_after))

  wait_loop-LeftIn :
      (pending : ℕ) (rounds : List (Round A)) (r : Round A)
      → LeftIn pending rounds r
      → wait_loop short true true pending rounds ≡ some r.seen_after
  unfolding wait_loop
  wait_loop-LeftIn pending [] r' l = elim l [ ]
  wait_loop-LeftIn pending (r ∷ rounds) r' (leaves l) = returns_there pending r rounds l
  wait_loop-LeftIn pending (r ∷ rounds) r' (stays s run left signalled l) =
      let some_signals : (pending + r.signals == 0) ≡ false = ground arith in
      rw (s, run, left, some_signals) (wait_loop-LeftIn 0 rounds r' l)

  why_not_short :
      (pending : ℕ) (r : Round A) → (short r.seen && r.running) ≡ false → Leaves pending r
  why_not_short pending r f = elim (Bool-cases (short r.seen)) [
    | inl s ↦ down (rw s at f)
    | inr s ↦ satisfied s
  ]

  LeftIn-wait_loop :
      (pending : ℕ) (rounds : List (Round A)) (a : A)
      → wait_loop short true true pending rounds ≡ some a
      → (r : Round A) × LeftIn pending rounds r × (a ≡ r.seen_after)
  unfolding wait_loop
  LeftIn-wait_loop pending [] a e = cc
  LeftIn-wait_loop pending (r ∷ rounds) a e = elim (Bool-cases (short r.seen && r.running)) [
    | inr f ↦ (r, leaves (why_not_short pending r f), cc (rw f at e))
    | inl t ↦ elim (Bool-cases (leb_ℤ r.remaining (pos 0))) [
      | inl late ↦ (r, leaves (expired late), cc (rw (t, late) at e))
      | inr early ↦ elim (Bool-cases (pending + r.signals == 0)) [
        | inl z ↦ (r, leaves (unsignalled (ground arith)), cc (rw (t, early, z) at e))
        | inr p ↦
            let (r', l, same) = LeftIn-wait_loop 0 rounds a (rw (t, early, p) at e) in
            let missing : short r.seen ≡ true = ground arith in
            let runs : r.running ≡ true = ground arith in
            (r', stays missing runs early (ground arith) l, same)
      ]
    ]
  ]

  -- Frames are missing, the stream runs and the deadline is ahead, in every round.
  pub data Hungry : List (Round A) → Type 0 where
    no_rounds : Hungry []
    hungry :
        {r : Round A} {rounds : List (Round A)}
        → short r.seen ≡ true
        → r.running ≡ true
        → leb_ℤ r.remaining (pos 0) ≡ false
        → Hungry rounds
        → Hungry (r ∷ rounds)

  wait_loop_spins :
      (pending : ℕ) (rounds : List (Round A))
      → 0 < pending
      → Hungry rounds
      → wait_loop short true false pending rounds ≡ none
  unfolding wait_loop
  wait_loop_spins pending [] some_pending no_rounds = refl
  wait_loop_spins pending (r ∷ rounds) some_pending (hungry s run left h) =
      let some_signals : (pending + r.signals == 0) ≡ false = ground arith in
      rw (s, run, left, some_signals) (wait_loop_spins (pending + r.signals) rounds (omega arith) h)

answered :
    {A : Type 0} (test : A → Bool) (o : Option A) (b : Bool)
    → answer test o ≡ some b
    → (a : A) × (o ≡ some a) × (b ≡ test a)
answered test none b e = cc
answered test (some a) b e = (a, refl, cc)

-- The wait for writable frames returns by the round that reads a clock past the deadline, whatever the
-- state and the signals do.
pub wait_for_writable_frames_until_ends :
    (frames : ℤ) (pending : ℕ) (rounds : List (Round Playback))
    → Expires rounds
    → (b : Bool) × (wait_for_writable_frames_until frames pending rounds ≡ some b)
unfolding wait_for_writable_frames_until
wait_for_writable_frames_until_ends frames pending rounds x =
    elim (Bool-cases (leb_ℤ frames (pos 0))) [
      | inl e ↦ (true, rw e)
      | inr e ↦
          let (a, found) =
            wait_loop_ends (λ p. ltb_ℤ (writable_to_target_frames p) frames) false pending rounds
              x in
          (leb_ℤ frames (writable_frames a), rw (e, found))
    ]

-- The wait for a positive number of captured frames returns exactly where some round leaves: the first
-- one where the frames are there, the stream is down, the deadline has passed, or no signal is there
-- until then, where signals of earlier rounds do not count, since they are drained. Its result is
-- whether the frames are there at the return.
pub wait_for_capture_frames_until-LeftIn :
    (frames : ℤ) (pending : ℕ) (rounds : List (Round Capture)) (b : Bool)
    → ltb_ℤ (pos 0) frames ≡ true
    → (wait_for_capture_frames_until frames pending rounds ≡ some b) ↔ (
        (r : Round Capture) × LeftIn
          (λ c. ltb_ℤ (capture_available_frames c) frames)
          pending
          rounds
          r
        × (b ≡ leb_ℤ frames (capture_available_frames r.seen_after)))
unfolding wait_for_capture_frames_until
wait_for_capture_frames_until-LeftIn frames pending rounds b wanted =
    let positive : leb_ℤ frames (pos 0) ≡ false = ground arith in
    let short = λ (c : Capture). ltb_ℤ (capture_available_frames c) frames in
    let test = λ (c : Capture). leb_ℤ frames (capture_available_frames c) in
    (
      λ e.
          let (a, found, tested) =
            answered test (wait_loop short true true pending rounds) b (rw positive at e) in
          let (r, l, same) = LeftIn-wait_loop short pending rounds a found in
          (r, l, tested ∙ ap test same),
      λ (r, l, tested).
          rw (positive, wait_loop-LeftIn short pending rounds r l) (ap some (sym tested)),
    )

-- The wait for writable frames never drains the channel: from the first signal on, poll returns at
-- once in each round until the frames are there, the stream stops or the deadline passes.
pub wait_for_writable_frames_until_spins :
    (frames : ℤ) (pending : ℕ) (rounds : List (Round Playback))
    → ltb_ℤ (pos 0) frames ≡ true
    → 0 < pending
    → Hungry (λ p. ltb_ℤ (writable_to_target_frames p) frames) rounds
    → wait_for_writable_frames_until frames pending rounds ≡ none
unfolding wait_for_writable_frames_until
wait_for_writable_frames_until_spins frames pending rounds wanted some_pending h =
    let positive : leb_ℤ frames (pos 0) ≡ false = ground arith in
    let found = wait_loop_spins _ pending rounds some_pending h in rw (positive, found)
