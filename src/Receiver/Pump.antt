-- ===== src/Receiver/Pump.antt =====
-- The two timers of `receiver_loop` (rist-transport/src/receiver.rs): NACKs, and the periodic
-- reports.
pub mod Requests
use bilbycast_rist.Prelude.{
  ℕ, ◌+◌, Bool, true, false, Option, none, some, List, [], ◌∷◌, ◌++◌, if◌then◌else◌, ◌&&◌, length,
}
use bilbycast_rist.Wire.{Buf}
use bilbycast_rist.Guard.{SocketAddr}
use bilbycast_rist.App.{RistApp, echo_request}
use bilbycast_rist.Nack.{NackListBuilder, build_bitmask}
use bilbycast_rist.Compound.{
  RtcpPacket, receiver_report, sdes, nack, app, echo_packets, serialize_compound,
}
use bilbycast_rist.Rtt.{RttEstimator, should_send_request, generate_request}
use bilbycast_rist.Scheduler.{NackScheduler, get_pending_nacks}
use bilbycast_rist.ReceiverState.{generate_rr, generate_sdes}
use bilbycast_rist.Receiver.State.{Receiver, ReceiverStats, RistSocketConfig, fetch_add}

-- `sender_ssrc.or(observed_media_ssrc).unwrap_or(0)`
abbrev pub media_ssrc_of : Option ℕ → Option ℕ → ℕ
media_ssrc_of (some ssrc) observed = ssrc
media_ssrc_of none (some ssrc) = ssrc
media_ssrc_of none none = 0

-- The packets of a NACK datagram for these numbers.
unfoldable pub nack_packets : ℕ → ℕ → ℕ → List ℕ → Receiver → List RtcpPacket
nack_packets ssrc jitter now pending st =
    receiver_report (generate_rr st.rtcp_state jitter now).0
    ∷ nack (
        build_bitmask
          (record {
            sender_ssrc = ssrc;
            media_ssrc = media_ssrc_of st.rtcp_state.sender_ssrc st.observed_media_ssrc;
          })
          pending)
    ∷ []

module _ {Net : Type 0} (config : RistSocketConfig) (w : Buf)
    (send_rtcp : Net → List ℕ → SocketAddr → Net × Bool) (ssrc jitter now : ℕ) where
  -- The datagram sent, the report's state, and the count of a send that succeeds.
  abbrev pub request : List ℕ → SocketAddr → Receiver → Net → Receiver × Net
  request pending dest st net =
      let (net', sent) =
        send_rtcp net (serialize_compound w (nack_packets ssrc jitter now pending st)) dest in
      let asked = record st { rtcp_state = (generate_rr st.rtcp_state jitter now).1 } in
      (
        if sent
            then record asked {
              stats = record st.stats {
                nacks_sent = fetch_add st.stats.nacks_sent (length pending);
              };
            }
            else asked,
        net',
      )

  abbrev pub request_pending : List ℕ → SocketAddr → Receiver → Net → Receiver × Net
  request_pending [] dest st net = (st, net)
  request_pending (s ∷ seqs) dest st net = request (s ∷ seqs) dest st net

  abbrev pub pump_to : Option SocketAddr → Receiver → Net → Receiver × Net
  pump_to none st net = (st, net)
  pump_to (some dest) st net =
      let (scheduler, pending) = get_pending_nacks st.nack_scheduler now st.rtt_estimator.srtt in
      request_pending pending dest (record st { nack_scheduler = scheduler }) net

  unfoldable pub on_pump : Receiver × Net → Receiver × Net
  unfolding nack_packets
  on_pump (st, net) = pump_to st.sender_rtcp_addr st net

  abbrev pub report_to : Option SocketAddr → Receiver → Net → Receiver × Net
  report_to none st net = (st, net)
  report_to (some dest) st net =
      let (rr, state) = generate_rr st.rtcp_state jitter now in
      let (echoes, estimator) = echo_packets config.rtt_echo_enabled ssrc now st.rtt_estimator in
      let datagram =
        serialize_compound w (receiver_report rr ∷ sdes (generate_sdes st.rtcp_state) ∷ echoes) in
      (record st { rtcp_state = state; rtt_estimator = estimator }, (send_rtcp net datagram dest).0)

  unfoldable pub on_report : Receiver × Net → Receiver × Net
  on_report (st, net) = report_to st.sender_rtcp_addr st net
