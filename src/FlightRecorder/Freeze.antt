-- ===== src/FlightRecorder/Freeze.antt =====
-- The freeze trigger and the event mask of include/liblowlatencyaudio/PacketFlightRecorder.h.
use liballa.Base.{
  ◌≡◌, refl, ap, ◌∙◌, true, false, List, [], ◌∷◌, arith, inl, inr, Bool-cases, ◌==◌, if◌then◌else◌,
}
use liballa.FlightRecorder.Events.{Event, code, anomaly_mask, is_routine, anomaly_mask-routine}
use liballa.FlightRecorder.{
  PacketFlightRecorder, Offer, store, filtered, record_event, set_event_mask,
}
use liballa.FlightRecorder.Journal.{refuses}
use liballa.FlightRecorder.Refine.{record_event-refused, record_event-stored}

-- The offers of several producers, one after the other.
unfoldable pub offer_all : List Offer → PacketFlightRecorder → PacketFlightRecorder
offer_all [] r = r
offer_all (o ∷ os) r = offer_all os (record_event o r)

frozen_stays : (os : List Offer) (r : PacketFlightRecorder) → r.frozen ≡ true → offer_all os r ≡ r
unfolding offer_all
frozen_stays [] r h = refl
frozen_stays (o ∷ os) r h =
    ap (offer_all os) (record_event-refused r o (ground arith)) ∙ frozen_stays os r h

store-frozen :
    (o : Offer) (r : PacketFlightRecorder)
    → (code o.event == code r.freeze_trigger) ≡ true
    → (store o r).frozen ≡ true
unfolding store
store-frozen o r hit = ground arith

-- Once an accepted event matches the trigger, whatever is offered after it changes nothing: the
-- recorder stays as the trigger's record left it. The trigger Unknown is no exception: an accepted
-- event Unknown freezes the recorder whose trigger it is.
pub freeze_keeps_run_up :
    (o : Offer) (os : List Offer) (r : PacketFlightRecorder)
    → refuses r.enabled r.frozen r.event_mask o.event ≡ false
    → (code o.event == code r.freeze_trigger) ≡ true
    → (offer_all (o ∷ os) r ≡ store o r) × ((store o r).frozen ≡ true)
unfolding offer_all
freeze_keeps_run_up o os r accepted hit =
    let caught = store-frozen o r hit in
    (
      ap (offer_all os) (record_event-stored r o accepted) ∙ frozen_stays os (store o r) caught,
      caught,
    )

anomaly_mask-nonzero : (anomaly_mask == 0) ≡ false
unfolding anomaly_mask
anomaly_mask-nonzero = refl

filtered-anomaly_mask : (e : Event) → filtered anomaly_mask e ≡ is_routine e
unfolding filtered
filtered-anomaly_mask e = rw (anomaly_mask-nonzero, anomaly_mask-routine e)

-- Under the anomaly mask an enabled recorder that is not frozen stores exactly the events that are
-- no steady-state traffic, and leaves itself unchanged at all others.
pub anomaly_mask_selects :
    (o : Offer) (r : PacketFlightRecorder)
    → r.enabled ≡ true
    → r.frozen ≡ false
    → let armed = set_event_mask anomaly_mask r in
      record_event o armed ≡ (if is_routine o.event then armed else store o armed)
unfolding set_event_mask
anomaly_mask_selects o r on free = elim (Bool-cases (is_routine o.event)) [
  | inl routine ↦
      record_event-refused (set_event_mask anomaly_mask r) o
        (ground (arith, filtered-anomaly_mask o.event))
      ∙ rw routine refl
  | inr anomaly ↦
      record_event-stored (set_event_mask anomaly_mask r) o
        (ground (arith, filtered-anomaly_mask o.event))
      ∙ rw anomaly refl
]
