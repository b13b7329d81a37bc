-- ===== src/FlightRecorder/Journal.antt =====
-- What the recorder of include/liblowlatencyaudio/PacketFlightRecorder.h promises: a journal of all
-- accepted records, oldest first, of which a snapshot shows the newest.
use liballa.Base.{
  ℕ, ◌-◌, Bool, false, ◌||◌, not, List, [], ◌∷◌, ◌++◌, ◌==◌, if◌then◌else◌, length, drop, min,
}
use liballa.FlightRecorder.Events.{Event, code}
use liballa.FlightRecorder.{
  PacketFlightRecorder, Record, Offer, fill, filtered, record_event, reset, set_enabled,
  set_event_mask, set_freeze_trigger,
}

pub record Journal : Type 0 where
  pub log : List Record
  pub enabled : Bool
  pub frozen : Bool
  pub freeze_trigger : Event
  pub event_mask : ℕ

-- The calls of the recorder that change its state.
pub data Call : Type 0 where
  offers : Offer → Call
  resets : Call
  enables : Bool → Call
  masks : ℕ → Call
  triggers : Event → Call

-- The recorder's own step.
unfoldable pub step : Call → PacketFlightRecorder → PacketFlightRecorder
step (offers o) r = record_event o r
step resets r = reset r
step (enables on) r = set_enabled on r
step (masks mask) r = set_event_mask mask r
step (triggers e) r = set_freeze_trigger e r

unfoldable pub run : List Call → PacketFlightRecorder → PacketFlightRecorder
run [] r = r
run (c ∷ cs) r = run cs (step c r)

-- An offer is refused while the recorder is disabled or frozen, and where the mask leaves it out.
abbrev pub refuses : Bool → Bool → ℕ → Event → Bool
refuses enabled frozen mask e = not enabled || frozen || filtered mask e

unfoldable pub append : Offer → Journal → Journal
append o j = record j {
  log = j.log ++ fill (length j.log) o ∷ [];
  frozen = code o.event == code j.freeze_trigger || j.frozen;
}

unfoldable pub offer : Offer → Journal → Journal
offer o j = if refuses j.enabled j.frozen j.event_mask o.event then j else append o j

-- The step of the specification.
unfoldable pub spec_step : Call → Journal → Journal
spec_step (offers o) j = offer o j
spec_step resets j = record j { log = []; frozen = false }
spec_step (enables on) j = record j { log = if on then [] else j.log; frozen = false; enabled = on }
spec_step (masks mask) j = record j { event_mask = mask }
spec_step (triggers e) j = record j { freeze_trigger = e }

unfoldable pub spec_run : List Call → Journal → Journal
spec_run [] j = j
spec_run (c ∷ cs) j = spec_run cs (spec_step c j)

-- The newest records of the journal, as many as the recorder's capacity and the buffer hold.
abbrev pub newest : ℕ → ℕ → List Record → List Record
newest capacity size log = drop (length log - min size (min (length log) capacity)) log
