-- ===== src/Arq/Resent.antt =====
-- The sender's whole run and the receiver's request: a recent datagram that is missing comes again.
use bilbycast_rist.Prelude.{
  ℕ, ◌+◌, ◌-◌, ◌^◌, ◌≤◌, ◌<◌, ◌≡◌, ◌∙◌, arith, Bool, true, some, List, [], ◌∷◌, ◌++◌, map, length,
  wrapping_add, get_elem?, get_elem?-length, All,
}
use bilbycast_rist.Ring.{IsRing}
use bilbycast_rist.Wire.{Buf, max_udp_recv}
use bilbycast_rist.Wire.BigEndian.{IsBigEndian}
use bilbycast_rist.Guard.{SocketAddr, nack_targets_us, peer_move_allowed}
use bilbycast_rist.Nack.Builder.{IsU16, contains}
use bilbycast_rist.Compound.{serialize_compound}
use bilbycast_rist.Sender.{retx_copy}
use bilbycast_rist.Sender.Served.{hits}
use bilbycast_rist.Sender.Media.{media_run, length-media_run}
use bilbycast_rist.SenderLoop.{SenderConfig, SenderLoop, Event, rtcp, step, run}
use bilbycast_rist.SenderLoop.Run.{stamped, get-run}
use bilbycast_rist.Receiver.State.{Receiver}
use bilbycast_rist.Receiver.Pump.{nack_packets, media_ssrc_of}
use bilbycast_rist.Receiver.Pump.Requests.{ReceiverFits}
use bilbycast_rist.Arq.Served.{Among, on_rtcp-nack_packets}

module _ {w : Buf} (be : IsBigEndian w) (utf8 : List ℕ → List ℕ) {Net : Type 0}
    (send_rtp send_rtcp : Net → List ℕ → SocketAddr → Net × Bool) (sent : Net → List (List ℕ))
    (logged : (net : Net) (d : List ℕ) (to : SocketAddr)
      → sent (send_rtp net d to).0 ≡ sent net ++ d ∷ [])
    (config : SenderConfig) (remote from : SocketAddr) (ssrc recv_at : ℕ) where
  -- With big-endian byte buffers, a capacity of the ring that is a power of two and divides the
  -- sequence space, words of 32 bits in the receiver, and pending numbers of 16 bits, no more of
  -- them than either of the sender's budgets allows and few enough for the pump's datagram to fit
  -- the sender's buffer of 2048 bytes: after any run of the sender's events, when the sender admits
  -- the source of the datagram that the receiver's pump sends and takes the NACK for its own, then
  -- it sends retransmits to the RTP socket, and among them that of each of its last `capacity`
  -- datagrams whose number is pending.
  pub run-resends :
      (st : SenderLoop Net) (es : List Event) (receiver : Receiver) (peer_ssrc jitter now : ℕ)
      (pending : List ℕ) (clock : ℕ → ℕ)
      → IsRing (st.media.retransmit_buf.capacity - 1) st.media.retransmit_buf.capacity
      → st.media.seq < 2 ^ 16
      → ReceiverFits receiver peer_ssrc jitter
      → All IsU16 pending
      → length pending < 2 ^ 16 - 2
      → length (serialize_compound w (nack_packets peer_ssrc jitter now pending receiver))
        ≤ max_udp_recv
      → let st' = run config w utf8 send_rtp send_rtcp remote ssrc st es in
        let bytes = serialize_compound w (nack_packets peer_ssrc jitter now pending receiver) in
        let st'' =
          step config w utf8 send_rtp send_rtcp remote ssrc st' (rtcp bytes from recv_at clock) in
        let media = stamped st.ts_epoch_system st.ts_epoch es in
        length pending ≤ st'.nack_budget_template.scan
        → length pending ≤ st'.nack_budget_template.retx
        → peer_move_allowed from st'.control.slot.remote_rtcp_addr st'.control.slot.rtcp_peer_live
            recv_at
          ≡ true
        → nack_targets_us
            (media_ssrc_of receiver.rtcp_state.sender_ssrc receiver.observed_media_ssrc)
            ssrc
          ≡ true
        → (resent : List (List ℕ)) × (sent st''.control.handling.net
            ≡ sent st'.control.handling.net ++ resent)
          × ((j : ℕ) (datagram : List ℕ)
              → length media ≤ j + st.media.retransmit_buf.capacity
              → get_elem? (media_run w ssrc st.media media).0 j ≡ some datagram
              → contains pending (wrapping_add st.media.seq j) ≡ true
              → Among (retx_copy datagram) resent)
  unfolding step
  run-resends st es receiver peer_ssrc jitter now pending clock ring low fits u n short scan retx
        moves ours =
      let st' = run config w utf8 send_rtp send_rtcp remote ssrc st es in
      let served =
        on_rtcp-nack_packets be utf8 send_rtp send_rtcp sent logged remote from ssrc recv_at
          st'.media.retransmit_buf receiver peer_ssrc jitter now pending clock
          st'.nack_budget_template st'.control fits u n short scan retx moves ours in
      (
        map retx_copy (hits st'.media.retransmit_buf served.0),
        served.2,
        λ j datagram recent here asked.
            let media = stamped st.ts_epoch_system st.ts_epoch es in
            let within : j < length media = omega (
              arith,
              get_elem?-length (media_run w ssrc st.media media).0 j here,
              length-media_run w ssrc st.media media,
            ) in
            served.3 (wrapping_add st.media.seq j) datagram (omega arith) asked (
              get-run config w utf8 send_rtp send_rtcp remote ssrc st es j ring low within recent
              ∙ here),
      )
