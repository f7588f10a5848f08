-- ===== src/SenderLoop.antt =====
-- The sender task as a machine, rist-transport/src/sender.rs (`sender_loop`): the variables of the
-- loop, its three branches, and the run of a sequence of events. A socket error in the RTCP branch
-- and a closed channel end the task, and so end the sequence.
pub mod Run
use bilbycast_rist.Prelude.{ℕ, ◌-◌, ◌*◌, ◌/◌, Bool, none, List, [], ◌∷◌, if◌then◌else◌, length}
use bilbycast_rist.Wire.{Buf}
use bilbycast_rist.Guard.{SocketAddr, NackWorkBudget, for_capacity}
use bilbycast_rist.Retransmit
use bilbycast_rist.Rtt
use bilbycast_rist.Compound.{RtcpPacket, sender_report, sdes, echo_packets, serialize_compound}
use bilbycast_rist.Sender.{MediaState, PeerSlot, on_media, ntp_to_rtp90k}
use bilbycast_rist.SenderState.{RtcpSenderState, on_packet_sent, generate_sr, generate_sdes}
use bilbycast_rist.SenderState
use bilbycast_rist.Dispatch.{Handling, Control, on_rtcp}
use bilbycast_rist.Receiver.State.{fetch_add}
use bilbycast_rist.Receiver.Media.{rtcp_addr_for}

-- Of `RistSocketConfig`, what the sender reads.
pub record SenderConfig : Type 0 where
  pub rtcp_interval : ℕ
  pub retransmit_buffer_capacity : ℕ
  pub rtt_echo_enabled : Bool

pub record SenderLoop (Net : Type 0) : Type 0 where
  pub ts_epoch : ℕ
  pub ts_epoch_system : ℕ
  pub nack_budget_template : NackWorkBudget
  pub media : MediaState
  pub rtcp_state : RtcpSenderState
  pub control : Control Net
  pub packets_sent : ℕ
  pub bytes_sent : ℕ

-- The variables before the loop, for the SSRC, name, first number and epoch of the session.
unfoldable pub start :
    {Net : Type 0} → SenderConfig → SocketAddr → ℕ → List ℕ → ℕ → ℕ → ℕ → Net → SenderLoop Net
start config remote_rtp_addr ssrc cname seq ts_epoch ts_epoch_system net =
    let retransmit_buf = Retransmit.new config.retransmit_buffer_capacity in
    let template = for_capacity retransmit_buf.capacity in
    record {
      ts_epoch = ts_epoch;
      ts_epoch_system = ts_epoch_system;
      nack_budget_template = template;
      media = record { seq = seq; retransmit_buf = retransmit_buf };
      rtcp_state = SenderState.new ssrc cname config.rtcp_interval ts_epoch ts_epoch_system;
      control = record {
        slot = record { remote_rtcp_addr = rtcp_addr_for remote_rtp_addr; rtcp_peer_live = none };
        handling = record {
          budget = template;
          nacks_received = 0;
          packets_retransmitted = 0;
          rtt_us = 0;
          rtt_estimator = Rtt.new (config.rtcp_interval * 10);
          net = net;
        };
      };
      packets_sent = 0;
      bytes_sent = 0;
    }

-- The RTP timestamp of a packet sent at this instant.
abbrev pub timestamp_at : {Net : Type 0} → SenderLoop Net → ℕ → ℕ
timestamp_at st now = ntp_to_rtp90k (st.ts_epoch_system / 1000) ((now - st.ts_epoch) / 1000)

-- The branches of the `select!`, with what the environment chooses: a payload, a datagram of the
-- RTCP socket with its source and the clock, and the instants of a periodic report by both clocks.
pub data Event : Type 0 where
  payload : List ℕ → ℕ → Event
  rtcp : List ℕ → SocketAddr → ℕ → (ℕ → ℕ) → Event
  report : ℕ → ℕ → Event

module _ {Net : Type 0} (config : SenderConfig) (w : Buf) (from_utf8_lossy : List ℕ → List ℕ)
    (send_rtp send_rtcp : Net → List ℕ → SocketAddr → Net × Bool) (remote_rtp_addr : SocketAddr)
    (ssrc : ℕ) where
  -- The media branch, with the send and what follows it.
  unfoldable pub on_payload : List ℕ → ℕ → SenderLoop Net → SenderLoop Net
  on_payload bytes now st =
      let rtp_timestamp = timestamp_at st now in
      let (datagram, media) = on_media w ssrc st.media rtp_timestamp bytes in
      let (net, sent) = send_rtp st.control.handling.net datagram remote_rtp_addr in
      record st {
        media = media;
        rtcp_state = on_packet_sent st.rtcp_state (length bytes) rtp_timestamp now;
        control = record st.control { handling = record st.control.handling { net = net } };
        packets_sent = if sent then fetch_add st.packets_sent 1 else st.packets_sent;
        bytes_sent = if sent then fetch_add st.bytes_sent (length datagram) else st.bytes_sent;
      }

  -- The periodic report.
  unfoldable pub on_report : ℕ → ℕ → SenderLoop Net → SenderLoop Net
  on_report now system_now st =
      let h = st.control.handling in
      let (sr, state) = generate_sr st.rtcp_state now system_now in
      let (echoes, estimator) = echo_packets config.rtt_echo_enabled ssrc now h.rtt_estimator in
      let datagram =
        serialize_compound w (sender_report sr ∷ sdes (generate_sdes st.rtcp_state) ∷ echoes) in
      let (net, sent) = send_rtcp h.net datagram st.control.slot.remote_rtcp_addr in
      record st {
        rtcp_state = state;
        control = record st.control {
          handling = record h { rtt_estimator = estimator; net = net };
        };
      }

  unfoldable pub step : SenderLoop Net → Event → SenderLoop Net
  unfolding on_payload on_report
  step st (payload bytes now) = on_payload bytes now st
  step st (rtcp bytes from recv_at clock) = record st {
    control =
        on_rtcp w from_utf8_lossy send_rtp send_rtcp remote_rtp_addr from ssrc recv_at
          st.media.retransmit_buf st.nack_budget_template bytes clock st.control;
  }
  step st (report now system_now) = on_report now system_now st

  unfoldable pub run : SenderLoop Net → List Event → SenderLoop Net
  unfolding step
  run st [] = st
  run st (e ∷ es) = run (step st e) es
