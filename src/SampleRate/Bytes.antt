-- ===== src/SampleRate/Bytes.antt =====
-- The rate in a SET_CUR and in a GET_CUR transfer of setSampleRate in src/libusb_uac_driver.cpp.
use liballa.Base.{ℕ, ◌%◌, ◌^◌, ◌<◌, ◌≡◌, ap, some, ◌++◌, [], ◌∷◌, arith}
use liballa.Base.Word.{u32_mod}
use liballa.Descriptors.Playback.{rd24}
use liballa.SampleRate.{le24, le32, rate_of}

-- The four bytes that SET_CUR sends for a 32-bit rate are read back as that rate, as GET_CUR's answer
-- is; the three bytes for a UAC1 device hold it below 2 ^ 24, and so do these and a zero.
pub rate_of-le32 :
    (hz : ℕ)
    → hz < u32_mod
    → (rate_of (some (le32 hz)) ≡ some hz)
      × (rd24 (le24 hz) 0 ≡ hz % 2 ^ 24)
      × (rate_of (some (le24 hz ++ 0 ∷ [])) ≡ some (hz % 2 ^ 24))
unfolding le24 le32 rate_of
rate_of-le32 hz h = (ap some (omega arith), omega arith, ap some (omega arith))
