-- ===== src/WakeChannel/Tests.antt =====
-- Runs of include/liblowlatencyaudio/WakeChannel.h over a counting eventfd.
use liballa.Base.{ℕ, ◌+◌, ◌≡◌, ◌⊎◌, refl, true, false, some, [], ◌∷◌, arith, ltb}
use liballa.Base.Int.{pos}
use liballa.WakeChannel.{
  EventFd, WakeChannel, open_channel, close, valid, signal, register, unregister, drain,
}
use liballa.WakeChannel.Poll.{ready, interrupted, poll, poll_loop}
use liballa.WakeChannel.Protocol.{
  resting, published_state, away, polling, draining, World, Step, Reach, here, next, publish, enter,
  miss,
}
use liballa.WakeChannel.NoLostWakeup.{Signals, no_lost_wakeup}

counting-readable : (c : ℕ) → ltb 0 (c + 1) ≡ true
counting-readable c = ground arith

-- The counter of an eventfd, as long as it does not overflow.
abbrev counting : EventFd
counting = record {
  Counter = ℕ;
  fresh = 0;
  write = λ c. c + 1;
  read = λ c. 0;
  readable = λ c. ltb 0 c;
  readable-write = counting-readable;
}

abbrev quiet : WakeChannel counting
quiet = record { fd = pos 3; counter = 0; waiters = 0 }

signalled_then_drained : (drain counting (signal counting quiet)).counter ≡ 0
unfolding drain signal
signalled_then_drained = refl

closed_ignores_signal : signal counting (close counting quiet) ≡ close counting quiet
unfolding signal close
closed_ignores_signal = refl

reopened : (open_channel counting (pos 5) (close counting quiet)).1 ≡ true
unfolding open_channel close
reopened = refl

still_valid : valid counting (unregister counting (register counting quiet)) ≡ true
unfolding valid unregister register
still_valid = refl

retries_interruption : poll (pos 3) (interrupted ∷ interrupted ∷ ready ∷ []) ≡ some true
unfolding poll poll_loop
retries_interruption = refl

abbrev start : World counting
start = record { channel = quiet; ready = false; producer = resting; waiter = away }

abbrev waiting : World counting
waiting = record start { channel = register counting quiet; waiter = polling }

-- The waiter registers, finds nothing and polls; then the producer publishes.
abbrev announced : World counting
announced = record waiting { ready = true; producer = published_state }

announced_reached : Reach counting start announced
announced_reached =
    next (next (next here (enter start refl)) (miss _ refl refl)) (publish waiting refl)

no_lost_wakeup_example :
    Signals announced.producer
    ⊎ ((ltb 0 announced.channel.counter ≡ true)
        × Step counting announced (record announced { waiter = draining }))
no_lost_wakeup_example =
    no_lost_wakeup counting start announced
      (record { fd_open = refl; nobody = refl; producer = refl; waiter = refl }) announced_reached
      refl refl
