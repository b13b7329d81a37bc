-- ===== src/WakeChannel/NoLostWakeup.antt =====
-- The lost-wakeup argument of include/liblowlatencyaudio/WakeChannel.h.
use liballa.Base.{ℕ, ◌<◌, ◌≡◌, true, false, ◌⊎◌, inl, inr, arith}
use liballa.Base.Int.{pos, ltb_ℤ}
use liballa.WakeChannel.{EventFd, signal_if_waiting, register, unregister, drain}
use liballa.WakeChannel.Protocol.{
  Producer, resting, published_state, loaded, Waiter, away, polling, draining, World, Step, publish,
  load, notify, terminate, enter, hit, miss, wake, expire, empty, exit, Reach, here, next,
}

-- How many registrations the waiter holds.
abbrev pub registrations : Waiter → ℕ
registrations away = 0
registrations _ = 1

-- The producer will still signal.
abbrev pub Signals : Producer → Type 0
Signals resting = ⊥
Signals published_state = Unit
Signals (loaded seen) = 0 < seen

module _ (kernel : EventFd) where
  -- What holds between any two steps on an open channel.
  pub record Inv (w : World kernel) : Type 0 where
    pub fd_open : ltb_ℤ w.channel.fd (pos 0) ≡ false
    pub counted : w.channel.waiters ≡ registrations w.waiter
    pub covered :
        w.waiter ≡ polling
        → w.ready ≡ true
        → Signals w.producer ⊎ (kernel.readable w.channel.counter ≡ true)

  Step-Inv : {w v : World kernel} → Step kernel w v → Inv w → Inv v
  unfolding signal_if_waiting register unregister drain
  Step-Inv (publish w p) i = ground arith
  Step-Inv (load w p) i = ground arith
  Step-Inv (notify w seen p) i = ground (arith, kernel.readable-write w.channel.counter)
  Step-Inv (terminate w p) i = ground (arith, kernel.readable-write w.channel.counter)
  Step-Inv (enter w p) i = ground arith
  Step-Inv (hit w p h) i = ground arith
  Step-Inv (miss w p h) i = ground arith
  Step-Inv (wake w p h) i = ground arith
  Step-Inv (expire w p) i = ground arith
  Step-Inv (empty w p) i = ground arith
  Step-Inv (exit w left p) i = ground arith

  Reach-Inv : {s w : World kernel} → Reach kernel s w → Inv s → Inv w
  Reach-Inv here i = i
  Reach-Inv (next r st) i = Step-Inv st (Reach-Inv r i)

  -- Both sides at rest on an open channel with nobody registered.
  pub record IsInitial (w : World kernel) : Type 0 where
    pub fd_open : ltb_ℤ w.channel.fd (pos 0) ≡ false
    pub nobody : w.channel.waiters ≡ 0
    pub producer : w.producer ≡ resting
    pub waiter : w.waiter ≡ away

  -- In every state that the handshake reaches from rest, a waiter that is polling although the
  -- state is already published is not left there: the producer is still about to signal, or the
  -- descriptor is readable and the step in which the poll returns is there to take.
  pub no_lost_wakeup :
      (s w : World kernel)
      → IsInitial s
      → Reach kernel s w
      → w.waiter ≡ polling
      → w.ready ≡ true
      → Signals w.producer
        ⊎ ((kernel.readable w.channel.counter ≡ true)
            × Step kernel w (record w { waiter = draining }))
  no_lost_wakeup s w start r at ready = elim (i.covered at ready) [
    | inl signals ↦ inl signals
    | inr readable ↦ inr (readable, wake w at readable)
  ]
    where
      i : Inv w
      i = Reach-Inv r (record {
        fd_open = start.fd_open;
        counted = ground arith;
        covered = λ p h. ground arith;
      })

  -- The count is that of the live registrations, and is back at 0 once the waiter is away.
  pub waiters_balanced :
      (s w : World kernel)
      → IsInitial s
      → Reach kernel s w
      → w.channel.waiters ≡ registrations w.waiter
  waiters_balanced s w start r =
      (Reach-Inv r (record {
        fd_open = start.fd_open;
        counted = ground arith;
        covered = λ p h. ground arith;
      })).counted
