-- ===== src/Transfers/Service.antt =====
-- What LibusbUacDriver::onIso of src/libusb_uac_driver.cpp measures of the service of the playback
-- transfers. The armed test stall, which only waits, is off.
use liballa.Base.{
  ℕ, ◌+◌, ◌-◌, ◌*◌, ◌/◌, Bool, ◌&&◌, not, min, max, List, ltb, ◌==◌, if◌then◌else◌, length, set,
  get_or,
}
use liballa.Base.Int.{ℤ, pos, pos_part, ◌+ℤ◌, max_ℤ}
use liballa.Base.Word.{u32, u64}
use liballa.Scheduling.Rational.{RationalPacketScheduler}
use liballa.Playback.{buffered_frames}
use liballa.Transfers.{Engine}

pub record Service : Type 0 where
  pub nominal_scheduler : RationalPacketScheduler
  pub frac_q16 : ℕ
  pub has_feedback : Bool
  pub nominal_transfer_ns : ℕ
  pub last_completion : ℕ
  pub max_gap : ℕ
  pub worst_gap_inflight : ℕ
  pub worst_gap_pending : ℕ
  pub worst_gap_ring : ℤ
  pub service_gaps : ℕ
  pub max_missing_drains : ℕ
  pub credit : ℤ
  pub drain_min : ℕ
  pub drain_max : ℕ
  pub out_low_water : ℕ
  pub occupancy : List ℕ
  pub occupancy_samples : ℕ
  pub ring_low_water : ℕ
  pub deferred_transfers : ℕ
  pub pending_high_water : ℕ
  pub zero_runway_events : ℕ

abbrev pub occupancy_bucket_frames : ℕ
occupancy_bucket_frames = 8

abbrev pub occupancy_buckets : ℕ
occupancy_buckets = 512

-- The gap since the last completion.
unfoldable pub note_gap : ℕ → Engine → Service → Service
note_gap gap e s =
    let worst = ltb s.max_gap gap in
    let known = not (s.nominal_transfer_ns == 0) in
    record s {
      max_gap = if worst then gap else s.max_gap;
      worst_gap_inflight = if worst then e.inflight else s.worst_gap_inflight;
      worst_gap_pending = if worst then length e.pending else s.worst_gap_pending;
      worst_gap_ring = if worst then buffered_frames e.playback else s.worst_gap_ring;
      service_gaps =
          if known && ltb (2 * s.nominal_transfer_ns) gap
          then u64 (s.service_gaps + 1)
          else s.service_gaps;
      max_missing_drains =
          if known
          then max s.max_missing_drains (gap / s.nominal_transfer_ns)
          else s.max_missing_drains;
    }

-- Frames that were played are what the producer may spend.
unfoldable pub grant_credit : ℕ → Service → Service
grant_credit frames s =
    if ltb 0 frames
    then record s {
      credit = s.credit +ℤ pos frames;
      drain_min = min s.drain_min frames;
      drain_max = max s.drain_max frames;
    }
    else s

-- The occupancy after a drain, in its bucket.
unfoldable pub note_occupancy : ℕ → Service → Service
note_occupancy occupancy s =
    let bucket = min (occupancy_buckets - 1) (occupancy / occupancy_bucket_frames) in
    record s {
      occupancy = set s.occupancy bucket (u32 (get_or s.occupancy bucket 0 + 1));
      occupancy_samples = u64 (s.occupancy_samples + 1);
      ring_low_water = min s.ring_low_water occupancy;
    }

-- The block of onIso for playback that has started.
unfoldable pub note_service : ℕ → ℕ → Engine → Service → Service
note_service now frames e s =
    let gapped =
      if not (s.last_completion == 0) && ltb s.last_completion now
      then note_gap (now - s.last_completion) e s
      else s in
    let granted = grant_credit frames (record gapped { last_completion = now }) in
    note_occupancy (pos_part (max_ℤ (pos 0) (buffered_frames e.playback)))
      (record granted { out_low_water = min granted.out_low_water e.playback.queued_out_frames })
