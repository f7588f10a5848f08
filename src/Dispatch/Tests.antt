-- ===== src/Dispatch/Tests.antt =====
-- A datagram with two requests for the same packets and an echo request between them.
use bilbycast_rist.Prelude.{
  ℕ, ◌+◌, ◌*◌, ◌≤◌, ◌≡◌, refl, arith, Bool, true, List, [], ◌∷◌, next_power_of_two, length,
}
use bilbycast_rist.Wire.BigEndian.{big_endian}
use bilbycast_rist.Guard.{SocketAddr, v4, for_capacity, max_retx, nack_targets_us}
use bilbycast_rist.Retransmit.{RetransmitBuffer, new, insert, get}
use bilbycast_rist.Nack.{range, range_lost_seqs}
use bilbycast_rist.Sender.{serve_nack_entries}
use bilbycast_rist.App.{echo_request, range_nack}
use bilbycast_rist.Rtt
use bilbycast_rist.Dispatch.{Handling, handle_all}
use bilbycast_rist.Compound.{RtcpPacket, nack, app}
use bilbycast_rist.Dispatch.Budget.{Paid, handle_all_bounded}

-- The datagrams of the two sockets, the RTP socket's first.
abbrev Logs : Type 0
Logs = List (List ℕ) × List (List ℕ)

abbrev log_rtp : Logs → List ℕ → SocketAddr → Logs × Bool
log_rtp logs datagram to = ((datagram ∷ logs.0, logs.1), true)

abbrev log_rtcp : Logs → List ℕ → SocketAddr → Logs × Bool
log_rtcp logs datagram to = ((logs.0, datagram ∷ logs.1), true)

abbrev rtp_count : Logs → ℕ
rtp_count logs = length logs.0

abbrev peer : SocketAddr
peer = record { ip = v4 0x0a000001; port = 5000 }

abbrev ring : RetransmitBuffer
ring = insert (insert (new 64) 7 (1 ∷ [])) 8 (2 ∷ [])

abbrev packets : List (RtcpPacket × ℕ)
packets =
    (
      nack (record {
        sender_ssrc = 1;
        media_ssrc = 6;
        entries = range (record { start = 7; extra = 1 } ∷ []);
      }),
      0,
    )
    ∷ (app (echo_request (record { ssrc = 6; timestamp_msw = 1; timestamp_lsw = 2 })), 3000)
    ∷ (app (range_nack (record { media_ssrc = 6; entries = (8, 0) ∷ [] })), 4000)
    ∷ []

abbrev start : Handling Logs
start = record {
  budget = for_capacity 64;
  nacks_received = 0;
  packets_retransmitted = 0;
  rtt_us = 0;
  rtt_estimator = Rtt.new 100;
  net = ([], []);
}

abbrev final : Handling Logs
final = handle_all big_endian log_rtp log_rtcp peer peer 6 1000 ring packets start

handle_all_bounded_example :
    Paid big_endian log_rtp log_rtcp peer peer 6 1000 ring rtp_count
      (λ net d to. omega arith)
      (λ net d to. refl)
      start
      final
    × (rtp_count final.net ≤ 0 + max_retx)
    × (final.nacks_received ≤ 0 + 4 * max_retx)
handle_all_bounded_example =
    handle_all_bounded big_endian log_rtp log_rtcp peer peer 6 1000 ring rtp_count
      (λ net d to. omega arith) (λ net d to. refl) 64 packets start refl (omega arith)

-- Three retransmits are sent, and three numbers looked up.
three_sent :
    final.packets_retransmitted ∷ final.nacks_received ∷ rtp_count final.net ∷ [] ≡ 3 ∷ 3 ∷ 3 ∷ []
unfolding handle_all for_capacity insert new next_power_of_two get Rtt.new nack_targets_us
    serve_nack_entries range_lost_seqs
three_sent = refl
