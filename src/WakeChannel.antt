-- ===== src/WakeChannel.antt =====
-- include/liblowlatencyaudio/WakeChannel.h: an eventfd with a count of registered waiters. The
-- eventfd is the kernel's: what the code relies on stands in `EventFd`.
pub mod Protocol
pub mod NoLostWakeup
pub mod Poll
mod Tests
use liballa.Base.{ℕ, ◌+◌, ◌-◌, ◌≡◌, Bool, true, false, ltb, if◌then◌else◌}
use liballa.Base.Int.{ℤ, pos, negsuc, ltb_ℤ, leb_ℤ}

-- What eventfd(2) documents: a write makes the descriptor readable, a read takes the count away.
pub record EventFd : Type 1 where
  pub Counter : Type 0
  pub fresh : Counter
  pub write : Counter → Counter
  pub read : Counter → Counter
  pub readable : Counter → Bool
  pub readable-write : (c : Counter) → readable (write c) ≡ true

module _ (kernel : EventFd) where
  open kernel use {Counter, fresh, write, read, readable}

  pub record WakeChannel : Type 0 where
    pub fd : ℤ
    pub counter : Counter
    pub waiters : ℕ

  -- WakeChannel::open, with the descriptor that eventfd() returned, negative on failure
  unfoldable pub open_channel : ℤ → WakeChannel → WakeChannel × Bool
  open_channel descriptor c =
      if leb_ℤ (pos 0) c.fd
      then (c, true)
      else (record c { fd = descriptor; counter = fresh }, leb_ℤ (pos 0) descriptor)

  -- WakeChannel::close
  unfoldable pub close : WakeChannel → WakeChannel
  close c = if ltb_ℤ c.fd (pos 0) then c else record c { fd = negsuc 0 }

  -- WakeChannel::valid
  unfoldable pub valid : WakeChannel → Bool
  valid c = leb_ℤ (pos 0) c.fd

  -- WakeChannel::signal
  unfoldable pub signal : WakeChannel → WakeChannel
  signal c = if ltb_ℤ c.fd (pos 0) then c else record c { counter = write c.counter }

  -- WakeChannel::signalIfWaiting, from the count that its load saw
  unfoldable pub signal_if_waiting : ℕ → WakeChannel → WakeChannel
  unfolding signal
  signal_if_waiting seen c = if ltb_ℤ c.fd (pos 0) then c else if ltb 0 seen then signal c else c

  -- WakeChannel::Registration and its destructor
  unfoldable pub register : WakeChannel → WakeChannel
  register c = record c { waiters = c.waiters + 1 }

  unfoldable pub unregister : WakeChannel → WakeChannel
  unregister c = record c { waiters = c.waiters - 1 }

  -- WakeChannel::drain
  unfoldable pub drain : WakeChannel → WakeChannel
  drain c = if ltb_ℤ c.fd (pos 0) then c else record c { counter = read c.counter }
