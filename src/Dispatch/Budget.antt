-- ===== src/Dispatch/Budget.antt =====
-- The work budget that the packets of one RTCP datagram share.
use bilbycast_rist.Prelude.{
  ℕ, zero, suc, ◌+◌, ◌-◌, ◌*◌, ◌^◌, ◌≤◌, ◌<◌, ◌≡◌, refl, ap, arith, Bool, true, false, List, [],
  ◌∷◌, if◌then◌else◌, length, take,
}
use bilbycast_rist.Wire.{Buf}
use bilbycast_rist.Guard.{SocketAddr, NackWorkBudget, nack_targets_us, for_capacity, max_retx}
use bilbycast_rist.Guard.Budget.{for_capacity_bounds}
use bilbycast_rist.Retransmit.{RetransmitBuffer}
use bilbycast_rist.App.{RistApp, echo_request, echo_response, range_nack, unknown}
use bilbycast_rist.Sender.{Work, retx_copy}
use bilbycast_rist.Sender.Served.{hits, send_all, serve_nack_entries_lem}
use bilbycast_rist.Nack.{packet_seqs}
use bilbycast_rist.Dispatch.{Handling, app_requests, serve, handle_app, handle, handle_all}
use bilbycast_rist.Compound.{
  RtcpPacket, sender_report, receiver_report, sdes, nack, app, unknown_packet,
}

length-take-split {ℓ} :
    {A : Type ℓ} (n : ℕ) (xs : List A) → length (take n xs) + (n - length xs) ≡ n
length-take-split zero [] = refl
length-take-split zero (x ∷ xs) = omega arith
length-take-split (suc n) [] = omega arith
length-take-split (suc n) (x ∷ xs) = omega (arith, length-take-split n xs)

module _ {Net : Type 0} (w : Buf) (send_rtp send_rtcp : Net → List ℕ → SocketAddr → Net × Bool)
    (remote_rtp_addr from : SocketAddr) (ssrc recv_at : ℕ) (retransmit_buf : RetransmitBuffer)
    (sent : Net → ℕ)
    (counted : (net : Net) (d : List ℕ) (to : SocketAddr)
      → sent (send_rtp net d to).0 ≡ sent net + 1)
    (uncounted : (net : Net) (d : List ℕ) (to : SocketAddr)
      → sent (send_rtcp net d to).0 ≡ sent net) where
  sent-send_all :
      (ps : List (List ℕ)) (net : Net) (n : ℕ)
      → sent (send_all send_rtp remote_rtp_addr ps net n).0 ≡ sent net + length ps
  sent-send_all [] net n = omega arith
  sent-send_all (p ∷ ps) net n =
      let next = send_rtp net (retx_copy p) remote_rtp_addr in
      omega (
        arith,
        sent-send_all ps next.0 (if next.1 then n + 1 else n),
        counted net (retx_copy p) remote_rtp_addr,
      )

  -- What is sent and what is looked up is taken off the budget.
  abbrev pub Paid : Handling Net → Handling Net → Type 0
  Paid st st' =
      (sent st'.net + st'.budget.retx ≡ sent st.net + st.budget.retx)
      × (st'.nacks_received + st'.budget.scan ≡ st.nacks_received + st.budget.scan)

  -- The same, of a state whose count stays below 2 ^ 64.
  abbrev Kept : Handling Net → Handling Net → Type 0
  Kept st st' =
      (sent st'.net + st'.budget.retx ≡ sent st.net + st.budget.retx)
      × (st.nacks_received + st.budget.scan < 2 ^ 64
          → st'.nacks_received + st'.budget.scan ≡ st.nacks_received + st.budget.scan)

  Kept-serve :
      (seqs : List ℕ) (st : Handling Net)
      → Kept st
          (serve w send_rtp send_rtcp remote_rtp_addr from ssrc recv_at retransmit_buf seqs st).0
  unfolding serve
  Kept-serve seqs st =
      let start : Work Net = record {
        budget = st.budget;
        requested = 0;
        retransmitted = 0;
        net = st.net;
      } in
      let found = hits retransmit_buf (take st.budget.scan seqs) in
      let o = serve_nack_entries_lem send_rtp remote_rtp_addr retransmit_buf seqs start in
      (
        omega (
          arith,
          ap (λ t. sent t.0) o.1,
          o.3,
          sent-send_all (take st.budget.retx found) st.net 0,
          length-take-split st.budget.retx found,
        ),
        λ room. omega (arith, room, o.2),
      )

  -- A NACK, served or not.
  Kept-targeted :
      (b : Bool) (seqs : List ℕ) (st : Handling Net)
      → Kept st
          (if b
            then serve w send_rtp send_rtcp remote_rtp_addr from ssrc recv_at retransmit_buf seqs st
            else (st, false)).0
  Kept-targeted true seqs st = Kept-serve seqs st
  Kept-targeted false seqs st = (refl, λ room. refl)

  Kept-handle_app :
      (a : RistApp) (now : ℕ) (st : Handling Net)
      → Kept st
          (handle_app w send_rtp send_rtcp remote_rtp_addr from ssrc recv_at retransmit_buf a now
            st).0
  unfolding handle_app
  Kept-handle_app (echo_request q) now st =
      (ap (λ n. n + st.budget.retx) (uncounted st.net _ from), λ room. refl)
  Kept-handle_app (echo_response r) now st = (refl, λ room. refl)
  Kept-handle_app (range_nack n) now st =
      Kept-targeted (nack_targets_us n.media_ssrc ssrc) (app_requests n.entries) st
  Kept-handle_app (unknown subtype bytes) now st = (refl, λ room. refl)

  Kept-handle :
      (p : RtcpPacket) (now : ℕ) (st : Handling Net)
      → Kept st
          (handle w send_rtp send_rtcp remote_rtp_addr from ssrc recv_at retransmit_buf p now st).0
  unfolding handle
  Kept-handle (nack n) now st = Kept-targeted (nack_targets_us n.media_ssrc ssrc) (packet_seqs n) st
  Kept-handle (app a) now st = Kept-handle_app a now st
  Kept-handle (sender_report r) now st = (refl, λ room. refl)
  Kept-handle (receiver_report r) now st = (refl, λ room. refl)
  Kept-handle (sdes d) now st = (refl, λ room. refl)
  Kept-handle (unknown_packet t bytes) now st = (refl, λ room. refl)

  Kept-if :
      (b : Bool) (st st' st'' : Handling Net)
      → Kept st st'
      → Kept st st''
      → Kept st (if b then st' else st'')
  Kept-if true st st' st'' p q = p
  Kept-if false st st' st'' p q = q

  Kept-trans : (st st' st'' : Handling Net) → Kept st st' → Kept st' st'' → Kept st st''
  Kept-trans st st' st'' p q = (
    omega (arith, p.0, q.0),
    λ room. let first = p.1 room in omega (arith, first, q.1 (omega (arith, room, first))),
  )

  Kept-handle_all :
      (ps : List (RtcpPacket × ℕ)) (st : Handling Net)
      → Kept st
          (handle_all w send_rtp send_rtcp remote_rtp_addr from ssrc recv_at retransmit_buf ps st)
  unfolding handle_all
  Kept-handle_all [] st = (refl, λ room. refl)
  Kept-handle_all (p ∷ ps) st =
      let (st', stop) =
        handle w send_rtp send_rtcp remote_rtp_addr from ssrc recv_at retransmit_buf p.0 p.1 st in
      let last =
        handle_all w send_rtp send_rtcp remote_rtp_addr from ssrc recv_at retransmit_buf ps st' in
      let first : Kept st st' = Kept-handle p.0 p.1 st in
      Kept-if stop st st' last first (Kept-trans st st' last first (Kept-handle_all ps st'))

  -- For any network state with a count of the datagrams that the RTP socket was given, which a send
  -- on that socket raises by one and a send on the RTCP socket leaves alone: however many packets
  -- the datagram holds, each retransmit sent while they are handled is taken off the one budget
  -- that they share, and each number counted as received off its lookups, where that 64-bit count
  -- has room for 32768 more; so, with the budget of a ring of any capacity, one datagram makes the
  -- sender send at most 8192 packets and look up at most four times as many numbers.
  pub handle_all_bounded :
      (c : ℕ) (ps : List (RtcpPacket × ℕ)) (st : Handling Net)
      → st.budget ≡ for_capacity c
      → st.nacks_received + 4 * max_retx < 2 ^ 64
      → Paid st
          (handle_all w send_rtp send_rtcp remote_rtp_addr from ssrc recv_at retransmit_buf ps st)
        × (sent
              (handle_all w send_rtp send_rtcp remote_rtp_addr from ssrc recv_at retransmit_buf ps
                st).net
            ≤ sent st.net + max_retx)
        × ((handle_all w send_rtp send_rtcp remote_rtp_addr from ssrc recv_at retransmit_buf ps
              st).nacks_received
            ≤ st.nacks_received + 4 * max_retx)
  handle_all_bounded c ps st e room =
      let bounds = for_capacity_bounds c in
      let retx = ap NackWorkBudget.retx e in
      let scan = ap NackWorkBudget.scan e in
      let kept = Kept-handle_all ps st in
      let counted_off = kept.1 (omega (arith, room, scan, bounds)) in
      (
        (kept.0, counted_off),
        omega (arith, kept.0, retx, bounds),
        omega (arith, counted_off, scan, bounds),
      )
