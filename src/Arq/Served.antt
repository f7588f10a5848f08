-- ===== src/Arq/Served.antt =====
-- From the receiver's pending numbers to the sender's retransmits.
use bilbycast_rist.Prelude.{
  ℕ, ◌+◌, ◌-◌, ◌^◌, ◌≤◌, ◌<◌, ◌≡◌, ◌∙◌, refl, ap, sym, arith, Bool, true, false, some, List, [],
  ◌∷◌, ◌++◌, map, append_assoc, append-nil, if◌then◌else◌, ◌==◌, ==_iff, length, take, take-all,
  All, inl, inr, Bool-cases, Option-cases,
}
use bilbycast_rist.Wire.{Buf, max_udp_recv, received-whole}
use bilbycast_rist.Wire.BigEndian.{IsBigEndian}
use bilbycast_rist.Guard.{SocketAddr, NackWorkBudget, nack_targets_us, peer_move_allowed}
use bilbycast_rist.Retransmit.{RetransmitBuffer, get}
use bilbycast_rist.Report.{ReceiverReport}
use bilbycast_rist.ReceiverState.{generate_rr}
use bilbycast_rist.Nack.{NackPacket, NackListBuilder, build_bitmask, packet_seqs}
use bilbycast_rist.Nack.Builder.{IsU16, contains}
use bilbycast_rist.Nack.Bitmask.{contains-build_bitmask}
use bilbycast_rist.Nack.Count.{length-build_bitmask}
use bilbycast_rist.Compound.{RtcpPacket, parse_compound, nack, receiver_report, serialize_compound}
use bilbycast_rist.Sender.{Work, retx_copy, admit_rtcp}
use bilbycast_rist.Sender.Served.{hits, length-hits, send_all, serve_nack_entries_lem}
use bilbycast_rist.Dispatch.{
  Handling, Control, serve, handle, handle_all, admitted, on_parsed, on_rtcp,
}
use bilbycast_rist.Receiver.State.{Receiver}
use bilbycast_rist.Receiver.Pump.{nack_packets, media_ssrc_of}
use bilbycast_rist.Receiver.Pump.Requests.{ReceiverFits, parse-nack_packets}

-- The datagram `d` is among these.
abbrev pub Among : List ℕ → List (List ℕ) → Type 0
Among d ds = (before : List (List ℕ)) × (after : List (List ℕ)) × (ds ≡ before ++ (d ∷ after))

Among-hits :
    (buf : RetransmitBuffer) (seqs : List ℕ) (s : ℕ) (pkt : List ℕ)
    → contains seqs s ≡ true
    → get buf s ≡ some pkt
    → Among (retx_copy pkt) (map retx_copy (hits buf seqs))
Among-hits buf [] s pkt c g = cc
Among-hits buf (x ∷ seqs) s pkt c g = elim (Bool-cases (x == s)) [
  | inl e ↦
      let same : get buf x ≡ some pkt = ap (get buf) ((==_iff x s).0 e) ∙ g in
      rw same ([], map retx_copy (hits buf seqs), refl)
  | inr e ↦
      let rest = Among-hits buf seqs s pkt (ground (arith, c, e)) g in
      elim (Option-cases (get buf x)) [
        | inl h ↦ rw h rest
        | inr h ↦ rw h.1 (retx_copy h.0 ∷ rest.0, rest.1, ap (λ t. retx_copy h.0 ∷ t) rest.2)
      ]
]

module _ {w : Buf} (be : IsBigEndian w) (utf8 : List ℕ → List ℕ) {Net : Type 0}
    (send_rtp send_rtcp : Net → List ℕ → SocketAddr → Net × Bool) (sent : Net → List (List ℕ))
    (logged : (net : Net) (d : List ℕ) (to : SocketAddr)
      → sent (send_rtp net d to).0 ≡ sent net ++ d ∷ [])
    (remote_rtp_addr from : SocketAddr) (ssrc recv_at : ℕ) (buf : RetransmitBuffer) where
  sent-send_all :
      (ps : List (List ℕ)) (net : Net) (n : ℕ)
      → sent (send_all send_rtp remote_rtp_addr ps net n).0 ≡ sent net ++ map retx_copy ps
  sent-send_all [] net n = sym (append-nil (sent net))
  sent-send_all (p ∷ ps) net n =
      let next = send_rtp net (retx_copy p) remote_rtp_addr in
      sent-send_all ps next.0 (if next.1 then n + 1 else n)
      ∙ ap (λ t. t ++ map retx_copy ps) (logged net (retx_copy p) remote_rtp_addr)
      ∙ append_assoc (sent net) (retx_copy p ∷ []) (map retx_copy ps)

  -- Within the budget every request is served.
  sent-serve :
      (seqs : List ℕ) (st : Handling Net)
      → length seqs ≤ st.budget.scan
      → length seqs ≤ st.budget.retx
      → sent (serve w send_rtp send_rtcp remote_rtp_addr from ssrc recv_at buf seqs st).0.net
        ≡ sent st.net ++ map retx_copy (hits buf seqs)
  unfolding serve
  sent-serve seqs st h k =
      let start : Work Net = record {
        budget = st.budget;
        requested = 0;
        retransmitted = 0;
        net = st.net;
      } in
      let o = serve_nack_entries_lem send_rtp remote_rtp_addr buf seqs start in
      let all_read : take st.budget.scan seqs ≡ seqs = take-all st.budget.scan seqs h in
      let all_sent : take st.budget.retx (hits buf seqs) ≡ hits buf seqs =
        take-all st.budget.retx (hits buf seqs) (omega (arith, length-hits buf seqs, k)) in
      ap (λ t. sent t.0) o.1
      ∙ ap
          (λ t.
            sent (send_all send_rtp remote_rtp_addr (take st.budget.retx (hits buf t)) st.net 0).0)
          all_read
      ∙ ap (λ t. sent (send_all send_rtp remote_rtp_addr t st.net 0).0) all_sent
      ∙ sent-send_all (hits buf seqs) st.net 0

  -- A last packet may stop the loop or not.
  handle_all-last :
      (p : RtcpPacket) (t : ℕ) (st : Handling Net)
      → handle_all w send_rtp send_rtcp remote_rtp_addr from ssrc recv_at buf ((p, t) ∷ []) st
        ≡ (handle w send_rtp send_rtcp remote_rtp_addr from ssrc recv_at buf p t st).0
  unfolding handle_all
  handle_all-last p t st =
      either (handle w send_rtp send_rtcp remote_rtp_addr from ssrc recv_at buf p t st).1 _
    where
      either : (b : Bool) (x : Handling Net) → (if b then x else x) ≡ x
      either true x = refl
      either false x = refl

  -- A report before a NACK changes nothing.
  sent-report_nack :
      (r : ReceiverReport) (n : NackPacket) (t t' : ℕ) (st : Handling Net)
      → nack_targets_us n.media_ssrc ssrc ≡ true
      → length (packet_seqs n) ≤ st.budget.scan
      → length (packet_seqs n) ≤ st.budget.retx
      → sent
          (handle_all w send_rtp send_rtcp remote_rtp_addr from ssrc recv_at buf
            ((receiver_report r, t) ∷ (nack n, t') ∷ [])
            st).net
        ≡ sent st.net ++ map retx_copy (hits buf (packet_seqs n))
  unfolding handle_all handle
  sent-report_nack r n t t' st ours h k =
      ap (λ x. sent x.net) (handle_all-last (nack n) t' st)
      ∙ ap
          (λ b.
            sent
              (if b
                then serve w send_rtp send_rtcp remote_rtp_addr from ssrc recv_at buf
                    (packet_seqs n) st
                else (st, false)).0.net)
          ours
      ∙ sent-serve (packet_seqs n) st h k

  sent-admitted :
      (r : ReceiverReport) (n : NackPacket) (clock : ℕ → ℕ) (template : NackWorkBudget)
      (c : Control Net)
      → nack_targets_us n.media_ssrc ssrc ≡ true
      → length (packet_seqs n) ≤ template.scan
      → length (packet_seqs n) ≤ template.retx
      → peer_move_allowed from c.slot.remote_rtcp_addr c.slot.rtcp_peer_live recv_at ≡ true
      → sent
          (admitted w utf8 send_rtp send_rtcp remote_rtp_addr from ssrc recv_at buf template
            (receiver_report r ∷ nack n ∷ [])
            clock
            c).handling.net
        ≡ sent c.handling.net ++ map retx_copy (hits buf (packet_seqs n))
  unfolding admitted admit_rtcp
  sent-admitted r n clock template c ours h k moves = rw moves (
      sent-report_nack r n (clock 0) (clock (0 + 1)) (record c.handling { budget = template }) ours
        h k)

  -- With big-endian byte buffers and words of 32 bits in the receiver, and for pending numbers of
  -- 16 bits, no more of them than either of the sender's two budgets allows and few enough for the
  -- pump's datagram to fit the sender's buffer of 2048 bytes: when the sender admits the source of
  -- the datagram that the receiver's pump sends and takes the NACK for its own, there is a sequence
  -- of numbers with the same members as the pending ones, and the sender sends to the RTP socket
  -- retransmits of exactly the packets that its ring holds of them, in that sequence's order; so a
  -- pending number that the ring holds is retransmitted.
  pub on_rtcp-nack_packets :
      (st : Receiver) (peer_ssrc jitter now : ℕ) (pending : List ℕ) (clock : ℕ → ℕ)
      (template : NackWorkBudget) (c : Control Net)
      → ReceiverFits st peer_ssrc jitter
      → All IsU16 pending
      → length pending < 2 ^ 16 - 2
      → length (serialize_compound w (nack_packets peer_ssrc jitter now pending st)) ≤ max_udp_recv
      → length pending ≤ template.scan
      → length pending ≤ template.retx
      → peer_move_allowed from c.slot.remote_rtcp_addr c.slot.rtcp_peer_live recv_at ≡ true
      → nack_targets_us (media_ssrc_of st.rtcp_state.sender_ssrc st.observed_media_ssrc) ssrc ≡ true
      → let bytes = serialize_compound w (nack_packets peer_ssrc jitter now pending st) in
        let c' =
          on_rtcp w utf8 send_rtp send_rtcp remote_rtp_addr from ssrc recv_at buf template bytes
            clock c in
        (seqs : List ℕ) × ((s : ℕ) → IsU16 s → contains seqs s ≡ contains pending s)
        × (sent c'.handling.net ≡ sent c.handling.net ++ map retx_copy (hits buf seqs))
        × ((s : ℕ) (pkt : List ℕ)
            → IsU16 s
            → contains pending s ≡ true
            → get buf s ≡ some pkt
            → Among (retx_copy pkt) (map retx_copy (hits buf seqs)))
  unfolding on_rtcp nack_packets build_bitmask
  on_rtcp-nack_packets st peer_ssrc jitter now pending clock template c f u n short scan retx moves
        ours =
      let b : NackListBuilder = record {
        sender_ssrc = peer_ssrc;
        media_ssrc = media_ssrc_of st.rtcp_state.sender_ssrc st.observed_media_ssrc;
      } in
      let few = length-build_bitmask b pending in
      let same : (s : ℕ)
          → IsU16 s
          → contains (packet_seqs (build_bitmask b pending)) s ≡ contains pending s =
        λ s h. contains-build_bitmask b pending s u h in
      (
        packet_seqs (build_bitmask b pending),
        same,
        ap
              (λ t.
                sent
                  (on_parsed w utf8 send_rtp send_rtcp remote_rtp_addr from ssrc recv_at buf
                    template (parse_compound w utf8 t) clock c).handling.net)
              (received-whole (serialize_compound w (nack_packets peer_ssrc jitter now pending st))
                short)
            ∙ ap
                (λ t.
                  sent
                    (on_parsed w utf8 send_rtp send_rtcp remote_rtp_addr from ssrc recv_at buf
                      template t clock c).handling.net)
                (parse-nack_packets be utf8 peer_ssrc jitter now pending st f u n)
            ∙ sent-admitted (generate_rr st.rtcp_state jitter now).0 (build_bitmask b pending) clock
                template c ours (omega (arith, few, scan)) (omega (arith, few, retx)) moves,
        λ s pkt h p g.
            Among-hits buf (packet_seqs (build_bitmask b pending)) s pkt (same s h ∙ p) g,
      )
