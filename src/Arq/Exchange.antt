-- ===== src/Arq/Exchange.antt =====
-- The whole exchange: a datagram that was lost is asked for, sent again, and put where it was
-- missing.
use bilbycast_rist.Prelude.{
  ℕ, ◌+◌, ◌-◌, ◌*◌, ◌^◌, ◌≤◌, ◌<◌, ◌≡◌, ◌≢◌, sym, subst, Bool, true, false, some, List, [], ◌∷◌,
  ◌++◌, length, wrapping_add, get_elem?, All,
}
use bilbycast_rist.Ring.{IsRing}
use bilbycast_rist.Wire.{Buf, max_udp_recv}
use bilbycast_rist.Wire.BigEndian.{IsBigEndian}
use bilbycast_rist.Guard.{SocketAddr, nack_targets_us, peer_move_allowed, source_allowed}
use bilbycast_rist.Nack.Builder.{IsU16, contains}
use bilbycast_rist.Compound.{serialize_compound}
use bilbycast_rist.Reorder.{is_filled, filled}
use bilbycast_rist.Reorder.Window.{Window, content}
use bilbycast_rist.Sender.{retx_copy, write_rtp_header}
use bilbycast_rist.Sender.Media.{get_elem?-media_run}
use bilbycast_rist.SenderLoop.{SenderConfig, SenderLoop, Event, rtcp, step, run}
use bilbycast_rist.SenderLoop.Run.{stamped, stamped_lt}
use bilbycast_rist.Receiver.State.{Receiver, RistSocketConfig}
use bilbycast_rist.Receiver.Media.{on_rtp}
use bilbycast_rist.Receiver.Pump.{nack_packets, media_ssrc_of}
use bilbycast_rist.Receiver.Pump.Requests.{ReceiverFits}
use bilbycast_rist.Arq.Served.{Among}
use bilbycast_rist.Arq.Resent.{run-resends}
use bilbycast_rist.Arq.Recovered.{on_rtp-recovers}

module _ {w : Buf} (be : IsBigEndian w) (utf8 : List ℕ → List ℕ) {Net : Type 0}
    (send_rtp send_rtcp : Net → List ℕ → SocketAddr → Net × Bool) (sent : Net → List (List ℕ))
    (logged : (net : Net) (d : List ℕ) (to : SocketAddr)
      → sent (send_rtp net d to).0 ≡ sent net ++ d ∷ [])
    (config : SenderConfig) (receiver_config : RistSocketConfig) (remote from : SocketAddr)
    (half recv_at : ℕ) where
  -- With big-endian byte buffers, an even SSRC of 32 bits, a capacity of the ring that is a power
  -- of two and divides the sequence space, words of 32 bits in the receiver, and pending numbers of
  -- 16 bits, no more of them than either of the sender's budgets allows and few enough for the
  -- pump's datagram to fit the sender's buffer of 2048 bytes: when, after any run of the sender's
  -- events, it admits the source of the datagram that the receiver's pump sends and takes the NACK
  -- for its own, and the number of one of the last `capacity` payloads is pending, a payload whose
  -- datagram fits the receiver's buffer of 2048 bytes, then a datagram among those that the sender
  -- answers with brings that payload back: a receiver whose window has a gap at that number, and
  -- that admits the datagram's source, with nothing ready behind it, holds the payload there
  -- afterwards, and the rest of its window as before.
  pub lost-comes_back :
      (st : SenderLoop Net) (es : List Event) (receiver : Receiver) (peer_ssrc jitter now : ℕ)
      (pending : List ℕ) (clock : ℕ → ℕ) (j : ℕ) {timestamp : ℕ} {payload : List ℕ}
      (later : Receiver) {base highest n : ℕ} (o : ℕ) (src : SocketAddr)
      (arrival_us arrived_at again : ℕ)
      → half < 2 ^ 31
      → IsRing (st.media.retransmit_buf.capacity - 1) st.media.retransmit_buf.capacity
      → st.media.seq < 2 ^ 16
      → ReceiverFits receiver peer_ssrc jitter
      → All IsU16 pending
      → length pending < 2 ^ 16 - 2
      → length (serialize_compound w (nack_packets peer_ssrc jitter now pending receiver))
        ≤ max_udp_recv
      → let st' = run config w utf8 send_rtp send_rtcp remote (half * 2) st es in
        let bytes = serialize_compound w (nack_packets peer_ssrc jitter now pending receiver) in
        let st'' =
          step config w utf8 send_rtp send_rtcp remote
            (half * 2)
            st'
            (rtcp bytes from recv_at clock) in
        let media = stamped st.ts_epoch_system st.ts_epoch es in
        length pending ≤ st'.nack_budget_template.scan
        → length pending ≤ st'.nack_budget_template.retx
        → peer_move_allowed from st'.control.slot.remote_rtcp_addr st'.control.slot.rtcp_peer_live
            recv_at
          ≡ true
        → nack_targets_us
            (media_ssrc_of receiver.rtcp_state.sender_ssrc receiver.observed_media_ssrc)
            (half * 2)
          ≡ true
        → length media ≤ j + st.media.retransmit_buf.capacity
        → get_elem? media j ≡ some (timestamp, payload)
        → 12 + length payload ≤ max_udp_recv
        → contains pending (wrapping_add st.media.seq j) ≡ true
        → Window later.reorder base highest n
        → o < n
        → wrapping_add base o ≡ wrapping_add st.media.seq j
        → is_filled (content later.reorder base o) ≡ false
        → source_allowed src receiver_config.pinned_source_ip later.sender_rtp_addr
            later.rtp_peer_live arrived_at
          ≡ true
        → (resent : List (List ℕ)) × (sent st''.control.handling.net
            ≡ sent st'.control.handling.net ++ resent)
          × (d : List ℕ) × Among d resent
          × (let end =
                on_rtp receiver_config w
                  (record { bytes = d; src = src; arrival_us = arrival_us })
                  []
                  arrived_at
                  again
                  later in
              Window end.reorder base highest n
              × (content end.reorder base o ≡ filled payload again)
              × ((y : ℕ)
                  → y < later.reorder.capacity
                  → y ≢ o
                  → content end.reorder base y ≡ content later.reorder base y))
  lost-comes_back st es receiver peer_ssrc jitter now pending clock j {timestamp} {payload} later
        {base} {highest} {n} o src arrival_us arrived_at again hh ring low fits u few short scan
        retx moves ours recent here room asked v ho same missing allowed =
      let media = stamped st.ts_epoch_system st.ts_epoch es in
      let back =
        run-resends be utf8 send_rtp send_rtcp sent logged config remote from (half * 2) recv_at st
          es receiver peer_ssrc jitter now pending clock ring low fits u few short scan retx moves
          ours in
      let datagram : ℕ → List ℕ = λ seq. write_rtp_header w (half * 2) seq timestamp ++ payload in
      let fills =
        on_rtp-recovers be receiver_config half timestamp payload src arrival_us arrived_at again o
          later hh (stamped_lt st.ts_epoch_system st.ts_epoch es j here) room v ho missing
          allowed in
      (
        back.0,
        back.1,
        retx_copy (datagram (wrapping_add base o)),
        subst (λ k. Among (retx_copy (datagram k)) back.0) (sym same)
            (back.2 j _ recent (get_elem?-media_run w (half * 2) st.media media j low here) asked),
        (fills.0, fills.1, fills.2),
      )
