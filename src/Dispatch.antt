-- ===== src/Dispatch.antt =====
-- The sender's handling of one RTCP datagram, rist-transport/src/sender.rs: the loop over the
-- packets of a compound that has been admitted. Each packet comes with the instant at which it is
-- handled. The two sockets are parameters.
pub mod Budget
pub mod Tests
use bilbycast_rist.Prelude.{
  ℕ, zero, suc, ◌+◌, ◌-◌, ◌*◌, ◌/◌, ◌%◌, ◌^◌, min, Bool, true, false, Option, none, some, List, [],
  ◌∷◌, ◌++◌, if◌then◌else◌, not,
}
use bilbycast_rist.Wire.{Buf, received, Result, ok, err, panic}
use bilbycast_rist.Guard.{SocketAddr, NackWorkBudget, nack_targets_us, for_capacity}
use bilbycast_rist.Retransmit.{RetransmitBuffer}
use bilbycast_rist.Compound.{
  RtcpPacket, echo_reply, parse_compound, sender_report, receiver_report, sdes, nack, app,
  unknown_packet,
}
use bilbycast_rist.Nack.{NackPacket, packet_seqs, range_from}
use bilbycast_rist.App.{
  RistApp, RttEchoRequest, RttEchoResponse, AppRangeNack, echo_request, echo_response, range_nack,
  unknown, serialize,
}
use bilbycast_rist.Rtt.{RttEstimator, on_response}
use bilbycast_rist.Sender.{Work, serve_nack_entries, PeerSlot, admit_rtcp}

-- The numbers of an APP packet's ranges.
abbrev pub app_requests : List (ℕ × ℕ) → List ℕ
app_requests [] = []
app_requests (e ∷ es) = range_from (e.1 + 1) 0 e.0 ++ app_requests es

-- What the loop changes: the datagram's budget, the statistics, the estimator and the network.
pub record Handling (Net : Type 0) : Type 0 where
  pub budget : NackWorkBudget
  pub nacks_received : ℕ
  pub packets_retransmitted : ℕ
  pub rtt_us : ℕ
  pub rtt_estimator : RttEstimator
  pub net : Net

-- `stats.rtt_us.store`, where there is an estimate.
abbrev pub stored_rtt : Option ℕ → ℕ → ℕ
stored_rtt none before = before
stored_rtt (some srtt) before = srtt / 1000 % 2 ^ 64

module _ {Net : Type 0} (w : Buf) (send_rtp send_rtcp : Net → List ℕ → SocketAddr → Net × Bool)
    (remote_rtp_addr from : SocketAddr) (ssrc recv_at : ℕ) (retransmit_buf : RetransmitBuffer) where
  -- A NACK's requests, served; the flag is a `break`.
  unfoldable pub serve : List ℕ → Handling Net → Handling Net × Bool
  serve seqs st =
      let (done, spent) =
        serve_nack_entries send_rtp remote_rtp_addr retransmit_buf seqs
          (record { budget = st.budget; requested = 0; retransmitted = 0; net = st.net }) in
      (
        record st {
          budget = done.budget;
          nacks_received = (st.nacks_received + done.requested) % 2 ^ 64;
          packets_retransmitted = (st.packets_retransmitted + done.retransmitted) % 2 ^ 64;
          net = done.net;
        },
        spent,
      )

  -- The answer to an echo request, after a turnaround of `now - recv_at`.
  abbrev pub echo_answer : RttEchoRequest → ℕ → List ℕ
  echo_answer q now = echo_reply w ssrc q (now - recv_at)

  abbrev pub measured : RttEstimator → Handling Net → Handling Net
  measured e st = record st { rtt_estimator = e; rtt_us = stored_rtt e.srtt st.rtt_us }

  unfoldable pub handle_app : RistApp → ℕ → Handling Net → Handling Net × Bool
  unfolding serve
  handle_app (echo_request q) now st =
      (record st { net = (send_rtcp st.net (echo_answer q now) from).0 }, false)
  handle_app (echo_response r) now st = (
    measured
        (on_response st.rtt_estimator now r.timestamp_msw r.timestamp_lsw r.processing_delay_us) st,
    false,
  )
  handle_app (range_nack n) now st =
      let served = serve (app_requests n.entries) st in
      if nack_targets_us n.media_ssrc ssrc then served else (st, false)
  handle_app (unknown subtype bytes) now st = (st, false)

  unfoldable pub handle : RtcpPacket → ℕ → Handling Net → Handling Net × Bool
  unfolding handle_app serve
  handle (nack n) now st =
      let served = serve (packet_seqs n) st in
      if nack_targets_us n.media_ssrc ssrc then served else (st, false)
  handle (app a) now st = handle_app a now st
  handle (sender_report r) now st = (st, false)
  handle (receiver_report r) now st = (st, false)
  handle (sdes d) now st = (st, false)
  handle (unknown_packet t bytes) now st = (st, false)

  unfoldable pub handle_all : List (RtcpPacket × ℕ) → Handling Net → Handling Net
  unfolding handle
  handle_all [] st = st
  handle_all (p ∷ ps) st =
      let (st', stop) = handle p.0 p.1 st in
      let rest = handle_all ps st' in if stop then st' else rest

-- The packets of a datagram with the instants at which they are handled.
abbrev pub timed : (ℕ → ℕ) → ℕ → List RtcpPacket → List (RtcpPacket × ℕ)
timed clock i [] = []
timed clock i (p ∷ ps) = (p, clock i) ∷ timed clock (i + 1) ps

-- The variables of `sender_loop` that a datagram on its RTCP socket changes.
pub record Control (Net : Type 0) : Type 0 where
  pub slot : PeerSlot
  pub handling : Handling Net

module _ {Net : Type 0} (w : Buf) (from_utf8_lossy : List ℕ → List ℕ)
    (send_rtp send_rtcp : Net → List ℕ → SocketAddr → Net × Bool)
    (remote_rtp_addr from : SocketAddr) (ssrc recv_at : ℕ) (retransmit_buf : RetransmitBuffer)
    (template : NackWorkBudget) where
  -- A datagram with at least one packet.
  unfoldable pub admitted : List RtcpPacket → (ℕ → ℕ) → Control Net → Control Net
  unfolding admit_rtcp handle_all
  admitted ps clock c =
      let (slot, processed) = admit_rtcp c.slot from recv_at in
      let handling =
        handle_all w send_rtp send_rtcp remote_rtp_addr from ssrc recv_at retransmit_buf
          (timed clock 0 ps) (record c.handling { budget = template }) in
      if processed then record { slot = slot; handling = handling } else c

  abbrev pub on_parsed : Result (List RtcpPacket) → (ℕ → ℕ) → Control Net → Control Net
  on_parsed (ok []) clock c = c
  on_parsed (ok (p ∷ ps)) clock c = admitted (p ∷ ps) clock c
  on_parsed (err e) clock c = c
  on_parsed panic clock c = c

  -- The branch of `sender_loop` for its RTCP socket.
  unfoldable pub on_rtcp : List ℕ → (ℕ → ℕ) → Control Net → Control Net
  unfolding admitted
  on_rtcp bytes clock c = on_parsed (parse_compound w from_utf8_lossy (received bytes)) clock c
