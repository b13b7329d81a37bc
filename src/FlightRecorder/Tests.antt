-- ===== src/FlightRecorder/Tests.antt =====
-- Runs of include/liblowlatencyaudio/PacketFlightRecorder.h.
use liballa.Base.{ℕ, ◌+◌, ◌≡◌, refl, true, min, List, [], ◌∷◌, map, length, arith}
use liballa.FlightRecorder.Events.{Event, quantum_refused, playback_complete}
use liballa.FlightRecorder.{
  PacketFlightRecorder, Record, Offer, create, snapshot, recorded, dropped, record_event, store,
  set_enabled, round_up, filtered, clear,
}
use liballa.FlightRecorder.Journal.{Call, offers, enables, step, run, spec_run, newest}
use liballa.FlightRecorder.Snapshot.{empty_journal, snapshot-run}
use liballa.FlightRecorder.Freeze.{offer_all, freeze_keeps_run_up}

abbrev offer_of : Event → ℕ → Offer
offer_of e t = record {
  event = e;
  timestamp_ns = t;
  a = 0;
  b = 0;
  ring_frames = 0;
  queued_frames = 0;
}

-- Three completions into two slots.
abbrev three_offers : List Call
three_offers =
    enables true
    ∷ offers (offer_of playback_complete 10)
    ∷ offers (offer_of playback_complete 20)
    ∷ offers (offer_of quantum_refused 30)
    ∷ []

oldest_overwritten :
    map (λ (x : Record). x.timestamp_ns) (snapshot (run three_offers (create 2)) 8) ≡ 20 ∷ 30 ∷ []
unfolding snapshot run step create round_up record_event store filtered set_enabled clear
oldest_overwritten = refl

snapshot-run_example :
    let r = run three_offers (create 2) in
    let log = (spec_run three_offers empty_journal).log in
    (snapshot r 8 ≡ newest (create 2).capacity 8 log)
    × (recorded r ≡ length log)
    × (dropped r + min (length log) (create 2).capacity ≡ length log)
snapshot-run_example = snapshot-run 2 8 three_offers (omega arith)

abbrev armed : PacketFlightRecorder
armed = record (create 4) { enabled = true; freeze_trigger = quantum_refused }

freeze_keeps_run_up_example :
    let o = offer_of quantum_refused 5 in
    (offer_all (o ∷ offer_of playback_complete 6 ∷ []) armed ≡ store o armed)
    × ((store o armed).frozen ≡ true)
unfolding create filtered
freeze_keeps_run_up_example =
    freeze_keeps_run_up (offer_of quantum_refused 5) (offer_of playback_complete 6 ∷ []) armed refl
      refl
