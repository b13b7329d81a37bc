-- ===== src/FlightRecorder/Events.antt =====
-- PacketFlightRecorder::Event of include/liblowlatencyaudio/PacketFlightRecorder.h and its bit masks.
use liballa.Base.{ℕ, ◌^◌, ◌≡◌, refl, Bool, true, false, bit_and, bit_or, ◌==◌}

pub data Event : Type 0 where
  unknown playback_complete quantum_offered quantum_refused capture_complete : Event
  playback_underrun transfer_deferred deferred_no_metadata deferred_no_pcm : Event
  signal_discontinuity transfer_discontinuity capture_discontinuity capture_modulation : Event
  quantum_lost : Event

-- static_cast<uint16_t>(event)
abbrev pub code : Event → ℕ
code unknown = 0
code playback_complete = 1
code quantum_offered = 2
code quantum_refused = 3
code capture_complete = 4
code playback_underrun = 5
code transfer_deferred = 6
code deferred_no_metadata = 7
code deferred_no_pcm = 8
code signal_discontinuity = 9
code transfer_discontinuity = 10
code capture_discontinuity = 11
code capture_modulation = 12
code quantum_lost = 13

-- maskOf; every code is below 32, so the shift fits.
abbrev pub mask_of : Event → ℕ
mask_of e = 2 ^ code e

-- anomalyMask
unfoldable pub anomaly_mask : ℕ
anomaly_mask = bit_or (mask_of quantum_refused) (
    bit_or (mask_of playback_underrun) (
      bit_or (mask_of transfer_deferred) (
        bit_or (mask_of deferred_no_metadata) (
          bit_or (mask_of deferred_no_pcm) (
            bit_or (mask_of signal_discontinuity) (
              bit_or (mask_of transfer_discontinuity) (
                bit_or (mask_of capture_discontinuity)
                  (bit_or (mask_of capture_modulation) (mask_of quantum_lost)))))))))

-- The steady-state traffic: what the mask is meant to leave out.
abbrev pub is_routine : Event → Bool
is_routine unknown = true
is_routine playback_complete = true
is_routine quantum_offered = true
is_routine capture_complete = true
is_routine _ = false

pub anomaly_mask-routine : (e : Event) → (bit_and anomaly_mask (mask_of e) == 0) ≡ is_routine e
unfolding anomaly_mask
anomaly_mask-routine unknown = refl
anomaly_mask-routine _ = refl
