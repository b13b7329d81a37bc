-- ===== src/Session/Closing.antt =====
-- What close and a failed startDuplex of src/libusb_uac_driver.cpp leave.
use liballa.Base.{ℕ, ◌≡◌, Bool, false}
use liballa.Session.{Session}
use liballa.Session.Unwind.{Unwound}
use liballa.Session.Reached.{Reached}

abbrev FailedUnwound : ℕ → Session × Bool → Type 0
FailedUnwound n r = r.1 ≡ false → Unwound n r.0
