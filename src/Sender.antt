-- ===== src/Sender.antt =====
-- The sender task of rist-transport/src/sender.rs: the packets it writes, and the retransmits it
-- serves. The sockets are parameters: `send_to` is given the state of the network, a datagram and an
-- address, and answers whether the call was `Ok`.
pub mod Tests
pub mod Served
pub mod Media
pub mod Recover
pub mod Peer
use bilbycast_rist.Prelude.{
  ℕ, zero, suc, ◌+◌, ◌-◌, ◌*◌, ◌/◌, ◌%◌, ◌^◌, Bool, true, false, Option, none, some, List, [], ◌∷◌,
  ◌++◌, if◌then◌else◌, ltb, not, bit_or, length, wrapping_add, u32, u64,
}
use bilbycast_rist.Wire.{Buf}
use bilbycast_rist.Guard.{SocketAddr, NackWorkBudget, charge_scan, charge_retx, peer_move_allowed}
use bilbycast_rist.Retransmit.{RetransmitBuffer, insert, get}

-- `write_rtp_header`
unfoldable pub write_rtp_header : Buf → ℕ → ℕ → ℕ → List ℕ
write_rtp_header w ssrc seq timestamp =
    w.put_u8 0x80 ++ (w.put_u8 33 ++ (w.put_u16 seq ++ (w.put_u32 timestamp ++ w.put_u32 ssrc)))

-- The two variables of `sender_loop` that a media packet changes, and the branch of the loop for it
-- up to the send: the datagram, and the new state.
pub record MediaState : Type 0 where
  pub seq : ℕ
  pub retransmit_buf : RetransmitBuffer

unfoldable pub on_media : Buf → ℕ → MediaState → ℕ → List ℕ → List ℕ × MediaState
unfolding write_rtp_header
on_media w ssrc st rtp_timestamp payload =
    let datagram = write_rtp_header w ssrc st.seq rtp_timestamp ++ payload in
    (
      datagram,
      record {
        seq = wrapping_add st.seq 1;
        retransmit_buf = insert st.retransmit_buf st.seq datagram;
      },
    )

-- The RTCP peer of `sender_loop`, and what a datagram that decoded as RTCP with at least one packet
-- does to it: the new slot, and whether the datagram is processed.
pub record PeerSlot : Type 0 where
  pub remote_rtcp_addr : SocketAddr
  pub rtcp_peer_live : Option ℕ

unfoldable pub admit_rtcp : PeerSlot → SocketAddr → ℕ → PeerSlot × Bool
admit_rtcp slot from recv_at =
    if peer_move_allowed from slot.remote_rtcp_addr slot.rtcp_peer_live recv_at
    then (record { remote_rtcp_addr = from; rtcp_peer_live = some recv_at }, true)
    else (slot, false)

-- `ntp_to_rtp90k`, from the microseconds of the epoch and since it, which are cast to `u64`.
unfoldable pub ntp_to_rtp90k : ℕ → ℕ → ℕ
ntp_to_rtp90k epoch_unix_us elapsed_us =
    let ntp_us = u64 (u64 (u64 epoch_unix_us + 2_208_988_800 * 1_000_000) + u64 elapsed_us) in
    u32 (u64 (ntp_us * 90) / 1000)

-- `retx_buf[i] |= 0x01`
unfoldable pub flag_byte : ℕ → List ℕ → List ℕ
flag_byte i [] = []
flag_byte zero (b ∷ bs) = bit_or b 0x01 ∷ bs
flag_byte (suc i) (b ∷ bs) = b ∷ flag_byte i bs

-- The copy of a buffered packet that a retransmit sends.
unfoldable pub retx_copy : List ℕ → List ℕ
unfolding flag_byte
retx_copy pkt_data = if ltb 11 (length pkt_data) then flag_byte 11 pkt_data else pkt_data

-- What a walk over requested numbers changes: the budget and the counters that the caller lends, and
-- the network.
pub record Work (Net : Type 0) : Type 0 where
  pub budget : NackWorkBudget
  pub requested : ℕ
  pub retransmitted : ℕ
  pub net : Net

module _ {Net : Type 0} (send_to : Net → List ℕ → SocketAddr → Net × Bool)
    (remote_rtp_addr : SocketAddr) where
  unfoldable pub send_copy : List ℕ → Work Net → Work Net
  unfolding retx_copy
  send_copy pkt_data st =
      let (net, sent) = send_to st.net (retx_copy pkt_data) remote_rtp_addr in
      record st {
        retransmitted = if sent then st.retransmitted + 1 else st.retransmitted;
        net = net;
      }

  -- The body of the loop: the new state, and whether the budget has run out.
  abbrev pub serve_hit : Option (List ℕ) → Work Net → Work Net × Bool
  serve_hit none st = (st, false)
  serve_hit (some pkt_data) st =
      let (budget, granted) = charge_retx st.budget in
      let charged = record st { budget = budget } in
      if granted then (send_copy pkt_data charged, false) else (charged, true)

  unfoldable pub serve_one : RetransmitBuffer → ℕ → Work Net → Work Net × Bool
  unfolding charge_scan charge_retx send_copy
  serve_one buf lost_seq st =
      let (budget, granted) = charge_scan st.budget in
      let charged = record st { budget = budget } in
      let served = serve_hit (get buf lost_seq) (record charged { requested = st.requested + 1 }) in
      if granted then served else (charged, true)

  unfoldable pub serve_nack_entries : RetransmitBuffer → List ℕ → Work Net → Work Net × Bool
  unfolding serve_one
  serve_nack_entries buf [] st = (st, false)
  serve_nack_entries buf (lost_seq ∷ seqs) st =
      let (st', spent) = serve_one buf lost_seq st in
      let rest = serve_nack_entries buf seqs st' in if spent then (st', true) else rest
