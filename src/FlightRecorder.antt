-- ===== src/FlightRecorder.antt =====
-- include/liblowlatencyaudio/PacketFlightRecorder.h: the packet-event flight recorder, a ring of
-- preallocated records. One call at a time: a method returns the new recorder. The padding field
-- `reserved`, which nothing writes, is left out.
pub mod Events
pub mod Capacity
pub mod Journal
pub mod Refine
pub mod Snapshot
pub mod Freeze
mod Tests
use liballa.Base.{
  ℕ, zero, suc, ◌+◌, ◌-◌, ◌*◌, ◌^◌, Bool, true, false, ◌&&◌, not, List, [], ◌∷◌, bit_and, ltb, ◌==◌,
  if◌then◌else◌, get_or, set, replicate,
}
use liballa.Base.Word.{u64, u32}
use Events.{Event, unknown, code, mask_of}

-- PacketFlightRecorder::Record
pub record Record : Type 0 where
  pub sequence : ℕ
  pub timestamp_ns : ℕ
  pub a : ℕ
  pub b : ℕ
  pub ring_frames : ℕ
  pub queued_frames : ℕ
  pub event : Event

abbrev pub blank : Record
blank = record {
  sequence = 0;
  timestamp_ns = 0;
  a = 0;
  b = 0;
  ring_frames = 0;
  queued_frames = 0;
  event = unknown;
}

pub record PacketFlightRecorder : Type 0 where
  pub records : List Record
  pub capacity : ℕ
  pub mask : ℕ
  pub next_sequence : ℕ
  pub enabled : Bool
  pub frozen : Bool
  pub freeze_trigger : Event
  pub event_mask : ℕ

abbrev pub max_capacity : ℕ
max_capacity = 2 ^ 20

-- The constructor's loop, on fuel: `capacity <<= 1` while it is below the request and the maximum.
unfoldable pub round_up : ℕ → ℕ → ℕ → ℕ
round_up zero requested capacity = capacity
round_up (suc fuel) requested capacity =
    let doubled = round_up fuel requested (capacity * 2) in
    if ltb capacity requested && ltb capacity max_capacity then doubled else capacity

-- From 1 the loop doubles twenty times at most.
abbrev pub doublings : ℕ
doublings = 20

-- PacketFlightRecorder(requestedCapacity)
unfoldable pub create : ℕ → PacketFlightRecorder
create requested =
    let capacity = round_up doublings requested 1 in
    record {
      records = replicate capacity blank;
      capacity = capacity;
      mask = capacity - 1;
      next_sequence = 0;
      enabled = false;
      frozen = false;
      freeze_trigger = unknown;
      event_mask = 0;
    }

-- The loop of `reset`, over all slots.
unfoldable pub clear : List Record → List Record
clear [] = []
clear (slot ∷ slots) = record slot { sequence = 0; event = unknown } ∷ clear slots

-- reset
unfoldable pub reset : PacketFlightRecorder → PacketFlightRecorder
reset r = record r { records = clear r.records; next_sequence = 0; frozen = false }

-- setEnabled
unfoldable pub set_enabled : Bool → PacketFlightRecorder → PacketFlightRecorder
unfolding reset
set_enabled on r = record (if on then reset r else r) { frozen = false; enabled = on }

-- setEventMask
unfoldable pub set_event_mask : ℕ → PacketFlightRecorder → PacketFlightRecorder
set_event_mask mask r = record r { event_mask = mask }

-- setFreezeTrigger
unfoldable pub set_freeze_trigger : Event → PacketFlightRecorder → PacketFlightRecorder
set_freeze_trigger trigger r = record r { freeze_trigger = trigger }

-- What a caller of `record` hands over: the event, the time and the four payload fields.
pub record Offer : Type 0 where
  pub event : Event
  pub timestamp_ns : ℕ
  pub a : ℕ
  pub b : ℕ
  pub ring_frames : ℕ
  pub queued_frames : ℕ

-- The third guard of `record`: an event that a nonzero mask does not name is skipped.
unfoldable pub filtered : ℕ → Event → Bool
filtered mask event = not (mask == 0) && bit_and mask (mask_of event) == 0

-- The stores into the claimed slot, its sequence last.
abbrev pub fill : ℕ → Offer → Record
fill sequence o = record {
  sequence = u64 (sequence + 1);
  timestamp_ns = o.timestamp_ns;
  a = o.a;
  b = o.b;
  ring_frames = o.ring_frames;
  queued_frames = o.queued_frames;
  event = o.event;
}

unfoldable pub store : Offer → PacketFlightRecorder → PacketFlightRecorder
store o r = record r {
  records = set r.records (bit_and r.next_sequence r.mask) (fill r.next_sequence o);
  next_sequence = u64 (r.next_sequence + 1);
  frozen = if code o.event == code r.freeze_trigger then true else r.frozen;
}

-- record
unfoldable pub record_event : Offer → PacketFlightRecorder → PacketFlightRecorder
record_event o r =
    if not r.enabled
    then r
    else if r.frozen
    then r
    else if filtered r.event_mask o.event
    then r
    else store o r

-- recorded
unfoldable pub recorded : PacketFlightRecorder → ℕ
recorded r = r.next_sequence

-- dropped
unfoldable pub dropped : PacketFlightRecorder → ℕ
dropped r = if ltb r.capacity r.next_sequence then r.next_sequence - r.capacity else 0

-- The copying loop of `snapshot`: `count` records from the sequence number `begin` on.
unfoldable pub copy_from : PacketFlightRecorder → ℕ → ℕ → List Record
copy_from r begin zero = []
copy_from r begin (suc count) =
    get_or r.records (bit_and begin r.mask) blank ∷ copy_from r (begin + 1) count

-- snapshot into a buffer of `size` records
unfoldable pub snapshot : PacketFlightRecorder → ℕ → List Record
unfolding copy_from
snapshot r size =
    if size == 0
    then []
    else (let total = r.next_sequence in
        let available = if ltb total r.capacity then total else r.capacity in
        let first = total - available in
        let wanted = if ltb available size then available else size in
        copy_from r (first + (available - wanted)) wanted)
