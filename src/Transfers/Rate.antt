-- ===== src/Transfers/Rate.antt =====
-- onFeedback of src/libusb_uac_driver.cpp.
use liballa.Base.{ℕ, ◌*◌, ◌≤◌, ◌<◌, Bool, List, arith, ◌^◌}
use liballa.Base.Word.{u16_mod}
use liballa.Transfers.{
  Engine, Status, completed, cancelled, no_device, other, take_feedback, mark_transport_failed,
  on_feedback,
}

-- The rate is above 0 and no packet of it outgrows the endpoint's packets.
pub record IsRate (e : Engine) : Type 0 where
  pub some_rate : 0 < e.rate_q16
  pub fits : e.rate_q16 ≤ e.max_frames_per_packet * 2 ^ 16

-- A feedback packet, whatever its status, length and bytes, leaves a usable rate usable: a rate of 0
-- or one that outgrows the endpoint's packets is never taken over.
pub on_feedback-IsRate :
    (status : Status) (packets : ℕ) (first_completed : Bool) (bytes : List ℕ) (accepted : Bool)
    (e : Engine)
    → e.max_frames_per_packet < u16_mod
    → IsRate e
    → IsRate (on_feedback status packets first_completed bytes accepted e)
unfolding on_feedback take_feedback mark_transport_failed
on_feedback-IsRate completed packets first bytes accepted e small v = ground (arith, v)
on_feedback-IsRate cancelled packets first bytes accepted e small v = ground (arith, v)
on_feedback-IsRate no_device packets first bytes accepted e small v = ground (arith, v)
on_feedback-IsRate other packets first bytes accepted e small v = ground (arith, v)
