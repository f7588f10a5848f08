-- ===== src/Sender/Tests.antt =====
-- Runs of the sender.
use bilbycast_rist.Prelude.{
  ℕ, ◌*◌, ◌≡◌, ◌≢◌, inl, inr, refl, ap, arith, Bool, true, false, some, List, [], ◌∷◌, ◌++◌,
  next_power_of_two, wrapping_add, get_elem?,
}
use bilbycast_rist.Ring.Tests.{ring_64}
use bilbycast_rist.Wire.{ok}
use bilbycast_rist.Wire.BigEndian.{big_endian, big_endian-IsBigEndian}
use bilbycast_rist.Guard.{IpAddr, SocketAddr, v4}
use bilbycast_rist.Retransmit.{RetransmitBuffer, new, insert, get}
use bilbycast_rist.Rtp.{RtpPacket, parse, is_retransmit, logical_ssrc}
use bilbycast_rist.Sender.{MediaState, Work, write_rtp_header, retx_copy, serve_nack_entries}
use bilbycast_rist.Sender.Served.{serve_nack_entries_lem, Outcome, hits}
use bilbycast_rist.Sender.Media.{media_run, get-media_run}
use bilbycast_rist.Sender.Recover.{parse-retransmit}
use bilbycast_rist.Sender.Peer.{admit_run, accepted, admit_run-holds, AllFrom}

-- A network that takes every datagram.
abbrev Log : Type 0
Log = List (List ℕ)

abbrev log_send : Log → List ℕ → SocketAddr → Log × Bool
log_send log datagram to = (log ++ (datagram ∷ []), true)

abbrev peer : SocketAddr
peer = record { ip = v4 0x0a000001; port = 5000 }

abbrev stranger : SocketAddr
stranger = record { ip = v4 0x0a0000ff; port = 9 }

-- The ring holds 7 and 8.
abbrev two_packets : RetransmitBuffer
two_packets = insert (insert (new 64) 7 (1 ∷ [])) 8 (2 ∷ [])

abbrev start_work : Work Log
start_work = record {
  budget = record { scan = 3; retx = 2 };
  requested = 0;
  retransmitted = 0;
  net = [];
}

serve_nack_entries_example :
    Outcome log_send peer
      (serve_nack_entries log_send peer two_packets (7 ∷ 9 ∷ 8 ∷ 7 ∷ []) start_work)
      4
      (hits two_packets (7 ∷ 9 ∷ 8 ∷ []))
      start_work
serve_nack_entries_example =
    serve_nack_entries_lem log_send peer two_packets (7 ∷ 9 ∷ 8 ∷ 7 ∷ []) start_work

both_found : hits two_packets (7 ∷ 9 ∷ 8 ∷ []) ≡ (1 ∷ []) ∷ (2 ∷ []) ∷ []
unfolding get insert new next_power_of_two
both_found = refl

abbrev fresh_state : MediaState
fresh_state = record { seq = 65535; retransmit_buf = new 64 }

abbrev three_payloads : List (ℕ × List ℕ)
three_payloads = (1, 5 ∷ []) ∷ (2, 6 ∷ []) ∷ (3, 7 ∷ []) ∷ []

get-media_run_example :
    get (media_run big_endian 8 fresh_state three_payloads).1.retransmit_buf (wrapping_add 65535 1)
    ≡ get_elem? (media_run big_endian 8 fresh_state three_payloads).0 1
unfolding new next_power_of_two
get-media_run_example =
    get-media_run big_endian 8 fresh_state three_payloads 1 ring_64 (omega arith) (omega arith)
      (omega arith)

parse-retransmit_example :
    (fresh : RtpPacket) × (again : RtpPacket) × (parse big_endian
        (write_rtp_header big_endian (21 * 2) 65535 90000 ++ (1 ∷ 2 ∷ []))
      ≡ ok fresh)
    × (parse big_endian
          (retx_copy (write_rtp_header big_endian (21 * 2) 65535 90000 ++ (1 ∷ 2 ∷ [])))
        ≡ ok again)
    × (is_retransmit fresh.header ≡ false)
    × (is_retransmit again.header ≡ true)
    × (logical_ssrc again.header ≡ fresh.header.ssrc)
    × (again.header.sequence_number ≡ fresh.header.sequence_number)
    × (again.header.timestamp ≡ fresh.header.timestamp)
    × (again.payload ≡ fresh.payload)
parse-retransmit_example =
    parse-retransmit big_endian-IsBigEndian 21 65535 90000 (1 ∷ 2 ∷ []) (omega arith) (omega arith)
      (omega arith)

abbrev number : IpAddr → ℕ
number (v4 a) = a
number _ = 0

other_ip : stranger.ip ≢ peer.ip
other_ip e = absurd (omega (arith, bits e))
  where
    bits : stranger.ip ≡ peer.ip → number stranger.ip ≡ number peer.ip
    bits e = ap number e

-- A stranger's datagram between two of the peer's.
abbrev run : List (SocketAddr × ℕ)
run = (stranger, 11_000_000_000) ∷ (peer, 11_500_000_000) ∷ (stranger, 20_000_000_000) ∷ []

admit_run-holds_example :
    ((admit_run
        (record { remote_rtcp_addr = peer; rtcp_peer_live = some 0 })
        run).remote_rtcp_addr.ip
      ≡ peer.ip)
    × AllFrom peer.ip (accepted (record { remote_rtcp_addr = peer; rtcp_peer_live = some 0 }) run)
admit_run-holds_example =
    admit_run-holds peer 0 run
      (inr (other_ip, omega arith, inl (refl, inr (other_ip, omega arith, tt))))
