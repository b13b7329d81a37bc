-- ===== src/Scheduling/Tests.antt =====
-- Runs of include/liblowlatencyaudio/UsbScheduling.h at inputs of its tests.
use liballa.Base.{◌≡◌, refl, false, arith}
use liballa.Base.Int.{pos, negsuc, ◌+ℤ◌, ◌-ℤ◌}
use liballa.Base.Word.{int_max}
use liballa.Scheduling.{
  resolve_optional_frames, checked_frame_sum, is_complete_capture_quantum,
  packets_per_transfer_for_rate, playback_watermark_transfer_count,
  effective_playback_target_frames,
}
use liballa.Scheduling.Runway.{playback_runway_nanoseconds, runway-exact}
use liballa.Scheduling.Rational.{reset, total, total-reset}

explicit_zero : resolve_optional_frames (negsuc 0) (pos 24) ≡ pos 0
unfolding resolve_optional_frames
explicit_zero = refl

sum_overflows : checked_frame_sum (pos int_max) (pos 1) ≡ pos 0
unfolding checked_frame_sum ◌+ℤ◌
sum_overflows = refl

partial_quantum : is_complete_capture_quantum (pos 31) (pos 32) ≡ false
unfolding is_complete_capture_quantum
partial_quantum = refl

half_rate : packets_per_transfer_for_rate (pos 4000) ≡ 4
unfolding packets_per_transfer_for_rate
half_rate = refl

inexact_count : playback_watermark_transfer_count (pos 4) (pos 2) false ≡ pos 6
unfolding playback_watermark_transfer_count ◌+ℤ◌ ◌-ℤ◌
inexact_count = refl

effective : effective_playback_target_frames (pos 64) (pos 96) ≡ pos 96
unfolding effective_playback_target_frames
effective = refl

total-reset_example : total 5 (reset 44100 8000) ≡ 27
total-reset_example = total-reset 5 44100 8000 (omega arith) (omega arith) (omega arith)

runway-exact_example : playback_runway_nanoseconds 96 48000 ≡ 2000000
runway-exact_example = runway-exact 96 48000 (omega arith) (omega arith) (omega arith)
