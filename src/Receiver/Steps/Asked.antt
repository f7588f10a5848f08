-- ===== src/Receiver/Steps/Asked.antt =====
-- From a lost packet to the datagram that asks for it.
use bilbycast_rist.Prelude.{
  ℕ, ◌+◌, ◌^◌, ◌≤◌, ◌<◌, ◌≡◌, ◌∙◌, refl, ap, sym, subst, Bool, true, false, some, List, [], ◌∷◌,
  wrapping_add, wrapping_sub,
}
use bilbycast_rist.Wire.{Buf, received}
use bilbycast_rist.Guard.{SocketAddr, source_allowed}
use bilbycast_rist.Nack.Builder.{contains}
use bilbycast_rist.Compound.{serialize_compound}
use bilbycast_rist.Scheduler.{NackScheduler, tracks, slot_of, get_pending_nacks, max_trackable_gap}
use bilbycast_rist.Scheduler.Count.{IsCounted}
use bilbycast_rist.Scheduler.Asked.{Waits, on_packet_received-Waits, get_pending_nacks-asks}
use bilbycast_rist.Receiver.Steps.Waiting.{Holds, Meanwhile, run-Holds}
use bilbycast_rist.Receiver.State.{Receiver, RistSocketConfig}
use bilbycast_rist.Receiver.Media.{ParsedRtp, Datagram, parse_rtp, on_rtp}
use bilbycast_rist.Receiver.Media.One.{on_rtp-one}
use bilbycast_rist.Receiver.Pump.{nack_packets, request_pending, pump_to, on_pump}
use bilbycast_rist.Receiver.Steps.{Event, rtp, pump, step, run}

module _ {Net : Type 0} (config : RistSocketConfig) (w : Buf)
    (send_rtcp : Net → List ℕ → SocketAddr → Net × Bool) (ssrc : ℕ) where
  -- A request that is not empty goes out.
  sent-pending :
      (jitter now : ℕ) (pending : List ℕ) (x : ℕ) (dest : SocketAddr) (st : Receiver) (net : Net)
      → contains pending x ≡ true
      → (request_pending config w send_rtcp ssrc jitter now pending dest st net).1
        ≡ (send_rtcp net (serialize_compound w (nack_packets ssrc jitter now pending st)) dest).0
  sent-pending jitter now [] x dest st net c = cc
  sent-pending jitter now (p ∷ ps) x dest st net c = refl

  -- When a datagram that the receiver admits and parses, with nothing ready behind it, is ahead of
  -- the number expected next by at most the trackable gap, where the scheduler's counter covers its
  -- active slots and has room for one more gap below 2 ^ 32, its ring is at least that gap, and
  -- requests are allowed, then for each number of the gap that was not tracked before: whatever
  -- comes until its delay is over (pumps, reports, RTCP datagrams, refused RTP datagrams, and
  -- packets, one by one, that are not the missing one and skip no number that maps to its slot),
  -- the first pump from then on, if the receiver knows its peer's control address, sends a NACK
  -- datagram to that address, for pending numbers that contain this one.
  pub run-asks :
      (utf8 : List ℕ → List ℕ) (d : Datagram) (p : ParsedRtp)
      (arrived_at now jitter now' expected i : ℕ) (dest : SocketAddr) (st : Receiver) (net : Net)
      (es : List Event)
      → source_allowed d.src config.pinned_source_ip st.sender_rtp_addr st.rtp_peer_live arrived_at
        ≡ true
      → parse_rtp w (received d.bytes) d.arrival_us ≡ some p
      → IsCounted st.nack_scheduler
      → st.nack_scheduler.active_count + max_trackable_gap < 2 ^ 32
      → max_trackable_gap ≤ st.nack_scheduler.capacity
      → 0 < st.nack_scheduler.max_retries
      → expected < 2 ^ 16
      → st.nack_scheduler.expected_seq ≡ some expected
      → wrapping_sub p.seq expected ≤ max_trackable_gap
      → i < wrapping_sub p.seq expected
      → tracks (slot_of st.nack_scheduler (wrapping_add expected i)) (wrapping_add expected i)
        ≡ false
      → Meanwhile config w utf8 send_rtcp ssrc
          (wrapping_add expected i)
          (now + st.nack_scheduler.base_delay)
          (step config w utf8 send_rtcp ssrc (st, net) (rtp d [] arrived_at now))
          es
      → now + st.nack_scheduler.base_delay ≤ now'
      → let mid = run config w utf8 send_rtcp ssrc (st, net) (rtp d [] arrived_at now ∷ es) in
        mid.0.sender_rtcp_addr ≡ some dest
        → (pending : List ℕ) × (contains pending (wrapping_add expected i) ≡ true)
          × ((step config w utf8 send_rtcp ssrc mid (pump jitter now')).1
              ≡ (send_rtcp mid.1
                  (serialize_compound w (nack_packets ssrc jitter now' pending mid.0))
                  dest).0)
  unfolding run step on_pump nack_packets
  run-asks utf8 d p arrived_at now jitter now' expected i dest st net es allowed parses c room big
        tries he e hi within new meanwhile late known =
      let x = wrapping_add expected i in
      let due = now + st.nack_scheduler.base_delay in
      let first : Holds (on_rtp config w d [] arrived_at now st) x due =
        subst (λ (s : NackScheduler). Waits s x due)
          (sym (on_rtp-one config w d p arrived_at now st allowed parses).2)
          (on_packet_received-Waits st.nack_scheduler expected p.seq now i c room big tries he e hi
            within new) in
      let mid = run config w utf8 send_rtcp ssrc (on_rtp config w d [] arrived_at now st, net) es in
      let waits : Holds mid.0 x due =
        run-Holds config w utf8 send_rtcp ssrc x due meanwhile first in
      let r = get_pending_nacks mid.0.nack_scheduler now' mid.0.rtt_estimator.srtt in
      let asked : contains r.1 x ≡ true =
        get_pending_nacks-asks mid.0.nack_scheduler x due now' mid.0.rtt_estimator.srtt waits
          late in
      (
        r.1,
        asked,
        ap (λ t. (pump_to config w send_rtcp ssrc jitter now' t mid.0 mid.1).1) known
            ∙ sent-pending jitter now' r.1 x dest (record mid.0 { nack_scheduler = r.0 }) mid.1
                asked,
      )
