-- ===== src/Session/Starting.antt =====
-- The laws of a session through start of src/libusb_uac_driver.cpp.
use liballa.Base.{◌≡◌, sym, subst, Bool, true, false, not, arith, if◌then◌else◌, Option, none, some}
use liballa.Base.Int.{pos}
use liballa.Descriptors.Playback.{StreamFormat}
use liballa.Session.{
  Session, World, ok, no_device, no_matching_alt, set_alt_failed, set_sample_rate_failed,
  iso_pump_alloc_failed,
}
use liballa.Session.Start.{
  claim_stream, claim_control, clock_after, is_refused, start_iso_pump, start_format,
  start_selected, reconfigure, start,
}
use liballa.Session.Held.{IsSession, IsWorld, either, First}
use liballa.Session.Pumps.{start_iso_pump-IsSession}
use liballa.Session.Idle.{IsIdle}
use liballa.Session.Resumed.{reconfigure-IsSession, with_error, with_streaming}
use liballa.Session.Claims.{
  claim_stream_failed, claim_stream-IsSession, claim_control-IsSession, claim_control-format,
}
use liballa.Session.Prepared.{
  IsPrepared, PreparedIf, reconfigure-IsPrepared, claim_stream-IsPrepared, claim_control-IsPrepared,
}

-- The reset in start.
abbrev reset : World → StreamFormat → Session → Session
reset w fmt s = record s {
  format = record fmt { clock_source_id = clock_after w fmt };
  buffered = pos 0;
  playback_started = false;
  stop_requested = false;
  transport_failed = false;
}

reset-IsSession :
    (w : World) (fmt : StreamFormat) (s : Session)
    → IsIdle s
    → IsSession (record s { format = fmt })
    → IsSession (reset w fmt s)
reset-IsSession w fmt s idle v =
    let (_, _, none_flying) = idle.out in
    record {
      counts = v.counts;
      closed = v.closed;
      flying = v.flying;
      capture_flying = v.capture_flying;
      ready = ground arith;
    }

start_format-IsSession :
    (w : World) (deferred : Bool) (fmt : StreamFormat) (s : Session)
    → IsWorld w
    → IsPrepared s
    → IsSession (record s { format = fmt })
    → First (start_format w deferred fmt s)
unfolding start_format
start_format-IsSession w deferred fmt s h p v =
    let s2 = reset w fmt s in
    let v2 = reset-IsSession w fmt s p.idle v in
    let (no_transfers, no_feedback, none_flying) = p.idle.out in
    let v3 = start_iso_pump-IsSession w true s2 h v2 no_transfers no_feedback none_flying in
    either First (not w.sets_alt) (λ t. with_error _ set_alt_failed v)
      (λ f.
        either First (is_refused w.sets_rate) (λ t. with_error _ set_sample_rate_failed v)
          (λ g.
            either First deferred (λ t. with_streaming _ false v2)
              (λ x.
                either First (not (start_iso_pump w true s2).1) (λ t. with_error _ _ v3)
                  (λ y. with_streaming _ true v3))))

start_format-IsPrepared :
    (w : World) (fmt : StreamFormat) (s : Session)
    → IsPrepared s
    → PreparedIf (start_format w true fmt s)
unfolding start_format
start_format-IsPrepared w fmt s p =
    either PreparedIf (not w.sets_alt) (λ t e. cc)
      (λ f.
        either PreparedIf (is_refused w.sets_rate) (λ t e. cc)
          (λ g e. record {
            idle = record { out = p.idle.out; capture = p.idle.capture };
            opened = p.opened;
            unclaimed = p.unclaimed;
          }))

-- What start and its parts come to: the laws hold, and a deferred success leaves the session prepared.
unfoldable pub Comes : Bool → Session × Bool → Type 0
Comes deferred r = IsSession r.0 × ((deferred ≡ true) → (r.1 ≡ true) → IsPrepared r.0)

start_format-Comes :
    (w : World) (deferred : Bool) (fmt : StreamFormat) (s : Session)
    → IsWorld w
    → IsPrepared s
    → IsSession (record s { format = fmt })
    → Comes deferred (start_format w deferred fmt s)
unfolding Comes
start_format-Comes w true fmt s h p v =
    (start_format-IsSession w true fmt s h p v, λ d e. start_format-IsPrepared w fmt s p e)
start_format-Comes w false fmt s h p v = (start_format-IsSession w false fmt s h p v, λ d e. cc)

start_selected-Comes :
    (w : World) (deferred : Bool) (s : Session)
    → IsWorld w
    → IsPrepared s
    → IsSession s
    → Comes deferred (start_selected w deferred s)
unfolding start_selected Comes
start_selected-Comes w deferred s h p v = select w.selected
  where
    select :
        (selected : Option StreamFormat)
        → Comes deferred (elim selected as (λ x. Session × Bool) [
          | none ↦ (record s { last_error = no_matching_alt }, false)
          | some fmt ↦
              let (s', claimed) = claim_stream w fmt s in
              if not claimed
              then (s', false)
              else start_format w deferred fmt (claim_control w fmt s')
        ])
    select none = (with_error s no_matching_alt v, λ d e. cc)
    select (some fmt) =
        let s' = (claim_stream w fmt s).0 in
        let p1 = claim_stream-IsPrepared w fmt s p in
        either (Comes deferred) (not (claim_stream w fmt s).1)
          (λ t.
            let failed : (claim_stream w fmt s).1 ≡ false = ground arith in
            (claim_stream_failed w fmt s v failed, λ d e. cc))
          (λ f.
            let claimed : (claim_stream w fmt s).1 ≡ true = ground arith in
            let v1 = claim_stream-IsSession w fmt s p.opened v claimed in
            start_format-Comes w deferred fmt (claim_control w fmt s') h
              (claim_control-IsPrepared w fmt s' p1)
              (subst IsSession (sym (claim_control-format w fmt s'))
                (claim_control-IsSession w fmt (record s' { format = fmt }) p1.opened v1)))

pub start-Comes :
    (w : World) (deferred : Bool) (s : Session)
    → IsWorld w
    → IsSession s
    → Comes deferred (start w deferred s)
unfolding start Comes
start-Comes w deferred s h v =
    let s1 = record s { last_error = ok } in
    let v1 = with_error s ok v in
    either (Comes deferred) (not s.is_open) (λ t. (with_error _ no_device v1, λ d e. cc))
      (λ f.
        let opened : s.is_open ≡ true = ground arith in
        either (Comes deferred) (not w.wakes)
          (λ t. (with_error _ iso_pump_alloc_failed v1, λ d e. cc))
          (λ g.
            either (Comes deferred) (not (reconfigure w s1).1)
              (λ t. (reconfigure-IsSession w s1 h v1, λ d e. cc))
              (λ x.
                let halted : (reconfigure w s1).1 ≡ true = ground arith in
                start_selected-Comes w deferred (reconfigure w s1).0 h
                  (reconfigure-IsPrepared w s1 opened halted) (reconfigure-IsSession w s1 h v1))))
