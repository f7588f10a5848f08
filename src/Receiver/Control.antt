-- ===== src/Receiver/Control.antt =====
-- The handler for RTCP datagrams (rist-transport/src/receiver.rs, the second branch of
-- `receiver_loop`).
use bilbycast_rist.Prelude.{
  ℕ, ◌+◌, ◌-◌, ◌/◌, max, Bool, Option, none, some, List, [], ◌∷◌, if◌then◌else◌, u64,
}
use bilbycast_rist.Wire.{Buf, received, Result, ok, err, panic}
use bilbycast_rist.Guard.{SocketAddr, source_allowed}
use bilbycast_rist.App.{echo_request, echo_response, range_nack, unknown}
use bilbycast_rist.Compound.{
  RtcpPacket, sender_report, receiver_report, sdes, nack, app, unknown_packet, parse_compound,
  echo_reply,
}
use bilbycast_rist.Rtt.{RttEstimator, on_response}
use bilbycast_rist.Scheduler.{update_base_delay}
use bilbycast_rist.ReceiverState.{on_sr_received}
use bilbycast_rist.Receiver.State.{Receiver, RistSocketConfig, min_nack_retry_delay}

-- What an estimate changes: the statistics and the delay between requests.
abbrev pub tighten : Option ℕ → Receiver → Receiver
tighten none st = st
tighten (some rtt) st = record st {
  stats = record st.stats { rtt_us = u64 (rtt / 1000) };
  nack_scheduler = update_base_delay st.nack_scheduler (max (rtt / 2) min_nack_retry_delay);
}

abbrev pub measured : RttEstimator → Receiver → Receiver
measured e st = tighten e.srtt (record st { rtt_estimator = e })

-- `max` of two instants that may be missing.
abbrev pub later_of : Option ℕ → Option ℕ → Option ℕ
later_of none b = b
later_of (some a) none = some a
later_of (some a) (some b) = some (max a b)

unfoldable pub latch_rtcp : SocketAddr → ℕ → Receiver → Receiver
latch_rtcp from now st = record st { sender_rtcp_addr = some from; rtcp_peer_live = some now }

module _ {Net : Type 0} (config : RistSocketConfig) (w : Buf) (from_utf8_lossy : List ℕ → List ℕ)
    (send_rtcp : Net → List ℕ → SocketAddr → Net × Bool) (ssrc : ℕ) (from : SocketAddr)
    (now : ℕ) where
  -- One packet of the datagram, handled at the instant `at`.
  unfoldable pub on_packet : RtcpPacket → ℕ → Receiver × Net → Receiver × Net
  on_packet (sender_report sr) at (st, net) =
      (record st { rtcp_state = on_sr_received st.rtcp_state sr now }, net)
  on_packet (app (echo_request q)) at (st, net) =
      (st, (send_rtcp net (echo_reply w ssrc q (at - now)) from).0)
  on_packet (app (echo_response r)) at (st, net) = (
    measured
        (on_response st.rtt_estimator now r.timestamp_msw r.timestamp_lsw r.processing_delay_us) st,
    net,
  )
  on_packet (app (range_nack n)) at st = st
  on_packet (app (unknown subtype bytes)) at st = st
  on_packet (receiver_report r) at st = st
  on_packet (sdes d) at st = st
  on_packet (nack n) at st = st
  on_packet (unknown_packet t bytes) at st = st

  unfoldable pub on_packets : List RtcpPacket → (ℕ → ℕ) → ℕ → Receiver × Net → Receiver × Net
  unfolding on_packet
  on_packets [] clock i st = st
  on_packets (p ∷ ps) clock i st = on_packets ps clock (i + 1) (on_packet p (clock i) st)

  unfoldable pub on_compound : Result (List RtcpPacket) → (ℕ → ℕ) → Receiver × Net → Receiver × Net
  unfolding on_packets latch_rtcp
  on_compound (ok []) clock st = st
  on_compound (ok (p ∷ ps)) clock (st, net) =
      on_packets (p ∷ ps) clock 0 (latch_rtcp from now st, net)
  on_compound (err e) clock st = st
  on_compound panic clock st = st

  -- The handler. `clock i` is the instant at which it handles the packet `i`.
  unfoldable pub on_rtcp : List ℕ → (ℕ → ℕ) → Receiver × Net → Receiver × Net
  unfolding on_compound
  on_rtcp bytes clock (st, net) =
      if source_allowed from config.pinned_source_ip st.sender_rtcp_addr
        (later_of st.rtcp_peer_live st.rtp_peer_live) now
      then on_compound (parse_compound w from_utf8_lossy (received bytes)) clock (st, net)
      else (st, net)
