-- ===== src/WakeChannel/Protocol.antt =====
-- The handshake of include/liblowlatencyaudio/WakeChannel.h between one producer and one waiter,
-- as steps in the total order of the seq_cst operations: the producer publishes, loads the count
-- behind its fence, and signals; the waiter registers, checks, polls, drains and checks again
-- (waitForCaptureFramesUntil of src/libusb_uac_driver.cpp is such a waiter).
use liballa.Base.{ℕ, ◌≡◌, Bool, true, false}
use liballa.WakeChannel.{
  EventFd, WakeChannel, signal, signal_if_waiting, register, unregister, drain,
}

-- Between a publication and the load, and between the load and the write that it decides.
pub data Producer : Type 0 where
  resting : Producer
  published_state : Producer
  loaded : ℕ → Producer

pub data Waiter : Type 0 where
  away checking polling draining leaving : Waiter

module _ (kernel : EventFd) where
  pub record World : Type 0 where
    pub channel : WakeChannel kernel
    pub ready : Bool
    pub producer : Producer
    pub waiter : Waiter

  pub data Step : World → World → Type 0 where
    -- The producer publishes its state change.
    publish :
        (w : World)
        → w.producer ≡ resting
        → Step w (record w { ready = true; producer = published_state })
    -- signalIfWaiting: the fence and the load of the count.
    load :
        (w : World)
        → w.producer ≡ published_state
        → Step w (record w { producer = loaded w.channel.waiters })
    -- signalIfWaiting: the write, if the loaded count is above 0.
    notify :
        (w : World) (seen : ℕ)
        → w.producer ≡ loaded seen
        → Step w
            (record w { producer = resting; channel = signal_if_waiting kernel seen w.channel })
    -- A terminal transition signals without the gate.
    terminate :
        (w : World)
        → w.producer ≡ resting
        → Step w (record w { ready = true; channel = signal kernel w.channel })
    -- Registration's constructor.
    enter :
        (w : World)
        → w.waiter ≡ away
        → Step w (record w { waiter = checking; channel = register kernel w.channel })
    -- The loop's test: it finds the state changed, or goes to poll.
    hit :
        (w : World) → w.waiter ≡ checking → w.ready ≡ true → Step w (record w { waiter = leaving })
    miss :
        (w : World) → w.waiter ≡ checking → w.ready ≡ false → Step w (record w { waiter = polling })
    -- poll returns on a readable descriptor, or times out.
    wake :
        (w : World)
        → w.waiter ≡ polling
        → kernel.readable w.channel.counter ≡ true
        → Step w (record w { waiter = draining })
    expire : (w : World) → w.waiter ≡ polling → Step w (record w { waiter = leaving })
    empty :
        (w : World)
        → w.waiter ≡ draining
        → Step w (record w { waiter = checking; channel = drain kernel w.channel })
    -- Registration's destructor; the consumer takes what was published, or leaves it.
    exit :
        (w : World) (left : Bool)
        → w.waiter ≡ leaving
        → Step w (record w { waiter = away; ready = left; channel = unregister kernel w.channel })

  pub data Reach (s : World) : World → Type 0 where
    here : Reach s s
    next : {t u : World} → Reach s t → Step t u → Reach s u
