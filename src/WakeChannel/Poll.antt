-- ===== src/WakeChannel/Poll.antt =====
-- `poll` and `pollUntil` of include/liblowlatencyaudio/WakeChannel.h over the kernel's answers, one
-- for each call of poll(2) or ppoll(2). `none`: the answers ran out, so the call still blocks.
use liballa.Base.{
  ℕ, ◌<◌, ◌≡◌, ◌↔◌, Bool, true, false, List, [], ◌∷◌, Option, none, some, leb, if◌then◌else◌, arith,
}
use liballa.Base.Int.{ℤ, pos, ltb_ℤ}

-- A result above 0; 0; below 0 with EINTR; below 0 with another error.
pub data Answer : Type 0 where
  ready timed_out interrupted failed : Answer

-- The do-while loop of WakeChannel::poll.
unfoldable pub poll_loop : List Answer → Option Bool
poll_loop [] = none
poll_loop (ready ∷ rest) = some true
poll_loop (timed_out ∷ rest) = some false
poll_loop (interrupted ∷ rest) = poll_loop rest
poll_loop (failed ∷ rest) = some false

-- WakeChannel::poll
unfoldable pub poll : ℤ → List Answer → Option Bool
poll fd answers = if ltb_ℤ fd (pos 0) then some false else poll_loop answers

-- The loop of WakeChannel::pollUntil; each round reads the clock before it asks.
unfoldable pub poll_until_loop : ℕ → List (ℕ × Answer) → Option Bool
poll_until_loop deadline [] = none
poll_until_loop deadline ((now, ready) ∷ rest) = some (if leb deadline now then false else true)
poll_until_loop deadline ((now, timed_out) ∷ rest) = some false
poll_until_loop deadline ((now, interrupted) ∷ rest) =
    let again = poll_until_loop deadline rest in if leb deadline now then some false else again
poll_until_loop deadline ((now, failed) ∷ rest) = some false

-- WakeChannel::pollUntil
unfoldable pub poll_until : ℤ → ℕ → List (ℕ × Answer) → Option Bool
poll_until fd deadline answers =
    if ltb_ℤ fd (pos 0) then some false else poll_until_loop deadline answers

-- Only interruptions before the deadline, then a ready answer, again before the deadline.
pub data ReadyInTime (deadline : ℕ) : List (ℕ × Answer) → Type 0 where
  now_ready :
      {now : ℕ} {rest : List (ℕ × Answer)}
      → now < deadline
      → ReadyInTime deadline ((now, ready) ∷ rest)
  retried :
      {now : ℕ} {rest : List (ℕ × Answer)}
      → now < deadline
      → ReadyInTime deadline rest
      → ReadyInTime deadline ((now, interrupted) ∷ rest)

loop_sound :
    (deadline : ℕ) (answers : List (ℕ × Answer))
    → poll_until_loop deadline answers ≡ some true
    → ReadyInTime deadline answers
unfolding poll_until_loop
loop_sound deadline [] h = cc
loop_sound deadline ((now, ready) ∷ rest) h = now_ready (ground arith)
loop_sound deadline ((now, timed_out) ∷ rest) h = cc
loop_sound deadline ((now, interrupted) ∷ rest) h =
    retried (ground arith) (loop_sound deadline rest (ground arith))
loop_sound deadline ((now, failed) ∷ rest) h = cc

loop_complete :
    {deadline : ℕ} {answers : List (ℕ × Answer)}
    → ReadyInTime deadline answers
    → poll_until_loop deadline answers ≡ some true
unfolding poll_until_loop
loop_complete (now_ready h) = ground arith
loop_complete (retried h r) = ground (arith, loop_complete r)

-- On an open channel `pollUntil` reports a wake exactly if the kernel reports the descriptor ready
-- while the deadline has not passed, after nothing but interruptions before the deadline.
pub poll_until_iff :
    (fd : ℤ) (deadline : ℕ) (answers : List (ℕ × Answer))
    → ltb_ℤ fd (pos 0) ≡ false
    → (poll_until fd deadline answers ≡ some true) ↔ ReadyInTime deadline answers
unfolding poll_until
poll_until_iff fd deadline answers valid =
    ((λ h. loop_sound deadline answers (rw valid at h)), (λ r. rw valid (loop_complete r)))
