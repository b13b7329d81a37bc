-- ===== src/FlightRecorder/Refine.antt =====
-- The ring of include/liblowlatencyaudio/PacketFlightRecorder.h against the journal.
use native.Mathlib.Nat.{mod-lt}
use liballa.Base.{
  ℕ, suc, ◌+◌, ◌-◌, ◌%◌, ◌≤◌, ◌<◌, ◌≡◌, refl, sym, ap, ap₂, ◌∙◌, inl, inr, true, false, List, [],
  ◌∷◌, ◌++◌, bit_and, arith, Bool-cases, length, length-append, length-set, get_elem?, set,
  get_elem?-set_self, get_elem?-set_ne, get_elem?-append_left, get_elem?-append_last, dec_lt,
}
use liballa.Base.Bits.{two_pow, two_pow-pos, bit_and-mask, slot_ne}
use liballa.Base.Word.{u64_mod}
use liballa.FlightRecorder.{
  PacketFlightRecorder, Record, Offer, fill, store, record_event, reset, clear, set_enabled,
  set_event_mask, set_freeze_trigger,
}
use liballa.FlightRecorder.Journal.{
  Journal, Call, offers, resets, enables, masks, triggers, step, spec_step, refuses, append, offer,
}

-- The recorder `r` holds the last round of the journal `j`.
pub record Refines (k : ℕ) (r : PacketFlightRecorder) (j : Journal) : Type 0 where
  pub capacity : r.capacity ≡ two_pow k
  pub mask : r.mask ≡ two_pow k - 1
  pub slots : length r.records ≡ two_pow k
  pub count : r.next_sequence ≡ length j.log
  pub held :
      (i : ℕ)
      → i < length j.log
      → length j.log ≤ i + two_pow k
      → get_elem? r.records (i % two_pow k) ≡ get_elem? j.log i
  pub enabled : r.enabled ≡ j.enabled
  pub frozen : r.frozen ≡ j.frozen
  pub freeze_trigger : r.freeze_trigger ≡ j.freeze_trigger
  pub event_mask : r.event_mask ≡ j.event_mask

store-held :
    (k : ℕ) (slots log : List Record) (x : Record) (i : ℕ)
    → length slots ≡ two_pow k
    → ((i : ℕ)
        → i < length log
        → length log ≤ i + two_pow k
        → get_elem? slots (i % two_pow k) ≡ get_elem? log i)
    → i < length (log ++ x ∷ [])
    → length (log ++ x ∷ []) ≤ i + two_pow k
    → get_elem? (set slots (length log % two_pow k) x) (i % two_pow k) ≡ get_elem? (log ++ x ∷ []) i
store-held k slots log x i full held below near = elim (dec_lt i (length log)) [
  | yes old ↦
      get_elem?-set_ne slots x (λ e.
        slot_ne (two_pow k) i (length log - i) (omega arith)
          (omega (arith, length-append log (x ∷ []))) (ap (λ t. t % two_pow k) (omega arith) ∙ e))
      ∙ held i old (omega (arith, length-append log (x ∷ [])))
      ∙ sym (get_elem?-append_left log (x ∷ []) i old)
  | no new ↦
      let last : i ≡ length log = omega (arith, length-append log (x ∷ [])) in
      rw last (
        get_elem?-set_self slots _ x (omega (arith, mod-lt (length log) (two_pow-pos k)))
        ∙ sym (get_elem?-append_last log x))
]

pub record_event-refused :
    (r : PacketFlightRecorder) (o : Offer)
    → refuses r.enabled r.frozen r.event_mask o.event ≡ true
    → record_event o r ≡ r
unfolding record_event
record_event-refused r o h = ground arith

pub record_event-stored :
    (r : PacketFlightRecorder) (o : Offer)
    → refuses r.enabled r.frozen r.event_mask o.event ≡ false
    → record_event o r ≡ store o r
unfolding record_event
record_event-stored r o h = ground arith

same_verdict :
    (k : ℕ) (r : PacketFlightRecorder) (j : Journal) (o : Offer)
    → Refines k r j
    → refuses j.enabled j.frozen j.event_mask o.event
      ≡ refuses r.enabled r.frozen r.event_mask o.event
same_verdict k r j o v = ground arith

store-Refines :
    (k : ℕ) (o : Offer) (r : PacketFlightRecorder) (j : Journal)
    → length j.log + 1 < u64_mod
    → Refines k r j
    → Refines k (store o r) (append o j)
unfolding store append
store-Refines k o r j room v = record {
  capacity = v.capacity;
  mask = v.mask;
  slots = length-set r.records _ _ ∙ v.slots;
  count = ground (arith, length-append j.log (fill (length j.log) o ∷ []));
  held = λ i below near.
      ap₂ (λ t x. get_elem? (set r.records t x) (i % two_pow k))
        (slot r.next_sequence j.log v.count) (ap (λ n. fill n o) v.count)
      ∙ store-held k r.records j.log (fill (length j.log) o) i v.slots v.held below near;
  enabled = v.enabled;
  frozen = ground arith;
  freeze_trigger = v.freeze_trigger;
  event_mask = v.event_mask;
}
  where
    slot : (n : ℕ) (log : List Record) → n ≡ length log → bit_and n r.mask ≡ length log % two_pow k
    slot n log e = ap₂ bit_and e v.mask ∙ bit_and-mask k (length log)

offer-Refines :
    (k : ℕ) (o : Offer) (r : PacketFlightRecorder) (j : Journal)
    → length j.log + 1 < u64_mod
    → Refines k r j
    → Refines k (record_event o r) (offer o j)
unfolding offer
offer-Refines k o r j room v = elim (Bool-cases (refuses r.enabled r.frozen r.event_mask o.event)) [
  | inl skip ↦ rw (record_event-refused r o skip, same_verdict k r j o v, skip) v
  | inr keep ↦
      rw (record_event-stored r o keep, same_verdict k r j o v, keep) (store-Refines k o r j room v)
]

length-clear : (xs : List Record) → length (clear xs) ≡ length xs
unfolding clear
length-clear [] = refl
length-clear (x ∷ xs) = ap suc (length-clear xs)

-- Every call keeps the recorder a ring over the journal, as long as fewer than 2 ^ 64 records
-- are accepted.
pub step-Refines :
    (k : ℕ) (c : Call) (r : PacketFlightRecorder) (j : Journal)
    → length j.log + 1 < u64_mod
    → Refines k r j
    → Refines k (step c r) (spec_step c j)
unfolding step spec_step reset set_enabled set_event_mask set_freeze_trigger
step-Refines k (offers o) r j room v = offer-Refines k o r j room v
step-Refines k resets r j room v = record {
  capacity = v.capacity;
  mask = v.mask;
  slots = length-clear r.records ∙ v.slots;
  count = refl;
  held = λ i below near. absurd (omega arith);
  enabled = v.enabled;
  frozen = refl;
  freeze_trigger = v.freeze_trigger;
  event_mask = v.event_mask;
}
step-Refines k (enables true) r j room v = record {
  capacity = v.capacity;
  mask = v.mask;
  slots = length-clear r.records ∙ v.slots;
  count = refl;
  held = λ i below near. absurd (omega arith);
  enabled = refl;
  frozen = refl;
  freeze_trigger = v.freeze_trigger;
  event_mask = v.event_mask;
}
step-Refines k (enables false) r j room v = record {
  capacity = v.capacity;
  mask = v.mask;
  slots = v.slots;
  count = v.count;
  held = v.held;
  enabled = refl;
  frozen = refl;
  freeze_trigger = v.freeze_trigger;
  event_mask = v.event_mask;
}
step-Refines k (masks mask) r j room v = record {
  capacity = v.capacity;
  mask = v.mask;
  slots = v.slots;
  count = v.count;
  held = v.held;
  enabled = v.enabled;
  frozen = v.frozen;
  freeze_trigger = v.freeze_trigger;
  event_mask = refl;
}
step-Refines k (triggers e) r j room v = record {
  capacity = v.capacity;
  mask = v.mask;
  slots = v.slots;
  count = v.count;
  held = v.held;
  enabled = v.enabled;
  frozen = v.frozen;
  freeze_trigger = refl;
  event_mask = v.event_mask;
}
