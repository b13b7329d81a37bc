-- ===== src/FlightRecorder/Snapshot.antt =====
-- `snapshot`, `recorded` and `dropped` of include/liblowlatencyaudio/PacketFlightRecorder.h after a
-- run of calls.
use liballa.Base.{
  ℕ, zero, suc, ◌+◌, ◌-◌, ◌≤◌, ◌<◌, ◌≡◌, refl, sym, ap, ap₂, ◌∙◌, Bool-cases, inl, inr, List, [],
  ◌∷◌, bit_and, min, arith, ◌==◌, false, true, length, length-append, get_elem?, get_elem?-exists,
  get_or-eq, drop, drop-cons, drop-length,
}
use liballa.Base.Bits.{two_pow, bit_and-mask}
use liballa.Base.Word.{u64_mod}
use liballa.FlightRecorder.{
  PacketFlightRecorder, Offer, blank, fill, create, copy_from, snapshot, recorded, dropped,
}
use liballa.FlightRecorder.Events.{unknown}
use liballa.FlightRecorder.Capacity.{create_capacity}
use liballa.FlightRecorder.Journal.{
  Journal, Call, step, run, spec_step, spec_run, newest, offer, append, offers, resets, enables,
  masks, triggers,
}
use liballa.FlightRecorder.Refine.{Refines, step-Refines}

copy_from-drop :
    (k : ℕ) (r : PacketFlightRecorder) (j : Journal) (begin count : ℕ)
    → Refines k r j
    → begin + count ≡ length j.log
    → count ≤ two_pow k
    → copy_from r begin count ≡ drop begin j.log
unfolding copy_from
copy_from-drop k r j begin zero v e h =
    let end : length j.log ≡ begin = omega arith in
    sym (ap (λ n. drop n j.log) (sym end) ∙ drop-length j.log)
copy_from-drop k r j begin (suc count) v e h =
    let (x, at) = get_elem?-exists j.log begin (omega arith) in
    let slot = ap (bit_and begin) v.mask ∙ bit_and-mask k begin in
    ap₂ ◌∷◌
      (get_or-eq r.records _ x blank
        (ap (get_elem? r.records) slot ∙ v.held begin (omega arith) (omega arith) ∙ at))
      (copy_from-drop k r j (begin + 1) count v (omega arith) (omega arith)
        ∙ ap (λ n. drop n j.log) {y = suc begin} (omega arith))
    ∙ sym (drop-cons j.log begin x at)

copy_from-eq :
    (r : PacketFlightRecorder) {b c m n : ℕ} → b ≡ c → m ≡ n → copy_from r b m ≡ copy_from r c n
copy_from-eq r p q = ap₂ (copy_from r) p q

-- A snapshot is the newest part of the journal, oldest first.
pub snapshot-newest :
    (k : ℕ) (r : PacketFlightRecorder) (j : Journal) (size : ℕ)
    → Refines k r j
    → snapshot r size ≡ newest (two_pow k) size j.log
unfolding snapshot
snapshot-newest k r j size v = elim (Bool-cases (size == 0)) [
  | inl nothing ↦
      rw nothing
        (sym (ap (λ n. drop n j.log) {y = length j.log} (ground arith) ∙ drop-length j.log))
  | inr some_room ↦
      let wanted = min size (min (length j.log) (two_pow k)) in
      rw some_room (
        copy_from-eq r (ground arith) (ground arith)
        ∙ copy_from-drop k r j (length j.log - wanted) wanted v (omega arith) (omega arith))
]

abbrev pub empty_journal : Journal
empty_journal = record {
  log = [];
  enabled = false;
  frozen = false;
  freeze_trigger = unknown;
  event_mask = 0;
}

create-Refines :
    (requested : ℕ)
    → (k : ℕ) × ((create requested).capacity ≡ two_pow k)
      × Refines k (create requested) empty_journal
unfolding create
create-Refines requested =
    let (k, capacity, mask, slots, small, enough, tight) = create_capacity requested in
    (
      k,
      capacity,
      record {
        capacity = capacity;
        mask = mask;
        slots = slots;
        count = refl;
        held = λ i below near. absurd (omega arith);
        enabled = refl;
        frozen = refl;
        freeze_trigger = refl;
        event_mask = refl;
      },
    )

offer-length : (o : Offer) (j : Journal) → length (offer o j).log ≤ length j.log + 1
unfolding offer append
offer-length o j = ground (arith, length-append j.log (fill (length j.log) o ∷ []))

step-length : (c : Call) (j : Journal) → length (spec_step c j).log ≤ length j.log + 1
unfolding spec_step
step-length (offers o) j = offer-length o j
step-length resets j = omega arith
step-length (enables true) j = omega arith
step-length (enables false) j = omega arith
step-length (masks mask) j = omega arith
step-length (triggers e) j = omega arith

run-Refines :
    (k : ℕ) (cs : List Call) (r : PacketFlightRecorder) (j : Journal)
    → length j.log + length cs < u64_mod
    → Refines k r j
    → Refines k (run cs r) (spec_run cs j)
unfolding run spec_run
run-Refines k [] r j room v = v
run-Refines k (c ∷ cs) r j room v =
    run-Refines k cs (step c r) (spec_step c j) (omega (arith, step-length c j))
      (step-Refines k c r j (omega arith) v)

-- After any fewer than 2 ^ 64 calls on a new recorder, a snapshot into a buffer of any size is the
-- newest part of the journal of accepted records since the last clearing, oldest first: as many as
-- the buffer and the capacity hold. `recorded` counts all of them, and `dropped` those that the
-- ring no longer holds.
pub snapshot-run :
    (requested size : ℕ) (cs : List Call)
    → length cs < u64_mod
    → let r = run cs (create requested) in
      let log = (spec_run cs empty_journal).log in
      (snapshot r size ≡ newest (create requested).capacity size log)
      × (recorded r ≡ length log)
      × (dropped r + min (length log) (create requested).capacity ≡ length log)
unfolding recorded dropped
snapshot-run requested size cs h =
    let (k, capacity, start) = create-Refines requested in
    let v = run-Refines k cs (create requested) empty_journal (omega arith) start in
    (
      snapshot-newest k _ _ size v
          ∙ ap (λ c. newest c size (spec_run cs empty_journal).log) (sym capacity),
      v.count,
      ground arith,
    )
