-- ===== src/Transfers/Custody.antt =====
-- Where the transfers of src/libusb_uac_driver.cpp are: in flight, or in the FIFO of onIso.
use liballa.Base.{ℕ, ◌+◌, ◌≤◌, ◌≡◌, ◌⊎◌, Bool, true, [], ◌∷◌, ◌++◌, length}
use liballa.Transfers.{Engine, Transfer, Status, playback_signal_if_waiting, cancelled}
use liballa.Transfers.Service.{Service}

-- The transfer was filled, announced and taken by libusb; the FIFO is as it was.
abbrev pub GoesBack : Bool → Engine → Engine → Type 0
GoesBack accepted e e' =
    (accepted ≡ true)
    × (e'.inflight ≡ e.inflight)
    × (e'.pending ≡ e.pending)
    × (e'.wakes ≡ e.wakes ++ playback_signal_if_waiting ∷ [])

-- The transfer itself is the last one in the FIFO of eight.
abbrev pub Waits : ℕ → Transfer → Engine → Engine → Type 0
Waits now xfr e e' =
    (e'.inflight + 1 ≡ e.inflight)
    × (e'.pending ≡ e.pending ++ (xfr, now) ∷ [])
    × (length e'.pending ≤ 8)

-- It no longer counts as in flight, and the FIFO is as it was.
abbrev pub GivenUp : Engine → Engine → Type 0
GivenUp e e' = (e'.inflight + 1 ≡ e.inflight) × (e'.pending ≡ e.pending)

-- One of these, and it is given up only where the stream is stopping.
Keeps : ℕ → Bool → Transfer → Engine → Engine → Type 0
Keeps now accepted xfr e e' =
    GoesBack accepted e e' ⊎ Waits now xfr e e' ⊎ (GivenUp e e' × (e'.stop_requested ≡ true))

-- The same, or the transfer was cancelled.
Settles : ℕ → Status → Bool → Transfer → Engine → Engine → Type 0
Settles now status accepted xfr e e' =
    GoesBack accepted e e'
    ⊎ Waits now xfr e e'
    ⊎ (GivenUp e e' × ((status ≡ cancelled) ⊎ (e'.stop_requested ≡ true)))
