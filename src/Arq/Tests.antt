-- ===== src/Arq/Tests.antt =====
-- An exchange: packets 7 and 9 are missing at the receiver, and the sender's ring holds 7 and 8.
use bilbycast_rist.Prelude.{
  ℕ, ◌+◌, ◌-◌, ◌*◌, ◌^◌, ◌<◌, ◌≤◌, ◌≡◌, ◌≢◌, refl, arith, Bool, true, false, none, some, List, [],
  ◌∷◌, ◌++◌, map, length, get_elem?, wrapping_add, next_power_of_two,
}
use bilbycast_rist.Wire.{max_udp_recv}
use bilbycast_rist.Wire.BigEndian.{big_endian, big_endian-IsBigEndian}
use bilbycast_rist.Guard.{
  SocketAddr, v4, for_capacity, peer_move_allowed, nack_targets_us, source_allowed,
}
use bilbycast_rist.Retransmit.{RetransmitBuffer, insert, get}
use bilbycast_rist.Retransmit
use bilbycast_rist.Nack.Builder.{IsU16, contains}
use bilbycast_rist.Rtt
use bilbycast_rist.Reorder.{is_filled, filled}
use bilbycast_rist.Reorder
use bilbycast_rist.Reorder.Window.{Window, content}
use bilbycast_rist.Reorder.Tests.{two, two-Window}
use bilbycast_rist.Nack
use bilbycast_rist.Report
use bilbycast_rist.Compound.{packet_bytes, serialize_compound, parse_compound, parse_packets}
use bilbycast_rist.Sender.{retx_copy, write_rtp_header}
use bilbycast_rist.Sender.Served.{hits}
use bilbycast_rist.Dispatch.{Control, on_rtcp}
use bilbycast_rist.Receiver.State.{Receiver, RistSocketConfig, start, fetch_add}
use bilbycast_rist.ReceiverState
use bilbycast_rist.Receiver.Media.{on_rtp}
use bilbycast_rist.Receiver.Pump.{nack_packets}
use bilbycast_rist.Receiver.Pump.Requests.{ReceiverFits}
use bilbycast_rist.Arq.Served.{Among, on_rtcp-nack_packets}
use bilbycast_rist.Arq.Recovered.{on_rtp-recovers}
use bilbycast_rist.Arq.Resent.{run-resends}
use bilbycast_rist.Arq.Exchange.{lost-comes_back}
use bilbycast_rist.SenderLoop.{SenderConfig, SenderLoop, Event, payload, rtcp, report}
use bilbycast_rist.SenderLoop
use bilbycast_rist.SenderLoop.Run.{stamped}
use bilbycast_rist.Sender.Media.{media_run}
use bilbycast_rist.Ring.Tests.{ring_64}
use bilbycast_rist.Ring.{IsRing}

abbrev Log : Type 0
Log = List (List ℕ)

abbrev log_rtp : Log → List ℕ → SocketAddr → Log × Bool
log_rtp log datagram to = (log ++ (datagram ∷ []), true)

abbrev no_rtcp : Log → List ℕ → SocketAddr → Log × Bool
no_rtcp log datagram to = (log, true)

abbrev as_is : List ℕ → List ℕ
as_is bytes = bytes

abbrev peer : SocketAddr
peer = record { ip = v4 1; port = 5000 }

abbrev config : RistSocketConfig
config = record {
  buffer_size = 80;
  rtcp_interval = 100;
  max_nack_retries = 5;
  rtt_echo_enabled = true;
  pinned_source_ip = none;
}

-- The receiver has seen media of the SSRC 6.
abbrev receiver : Receiver
receiver = record (start config 4 [] 0) { observed_media_ssrc = some 6; reorder = two }

abbrev ring : RetransmitBuffer
ring = insert (insert (Retransmit.new 64) 7 (1 ∷ [])) 8 (2 ∷ [])

abbrev sender : Control Log
sender = record {
  slot = record { remote_rtcp_addr = peer; rtcp_peer_live = none };
  handling = record {
    budget = for_capacity 64;
    nacks_received = 0;
    packets_retransmitted = 0;
    rtt_us = 0;
    rtt_estimator = Rtt.new 100;
    net = [];
  };
}

abbrev missing : List ℕ
missing = 7 ∷ 9 ∷ []

abbrev answered : Control Log
answered =
    on_rtcp big_endian as_is log_rtp no_rtcp peer peer 6 1000 ring (for_capacity 64)
      (serialize_compound big_endian (nack_packets 4 0 900 missing receiver)) (λ i. 1001) sender

receiver_fits : ReceiverFits receiver 4 0
unfolding start ReceiverState.new
receiver_fits = record {
  state_fits = record {
    ssrc_fits = omega arith;
    sender_fits = omega arith;
    highest_fits = omega arith;
    ntp_fits = omega arith;
  };
  media_fits = omega arith;
  ssrc_fits = omega arith;
  jitter_fits = omega arith;
}

one_short :
    length (serialize_compound big_endian (nack_packets 4 0 900 (11 ∷ []) receiver)) ≤ max_udp_recv
unfolding start ReceiverState.new nack_packets serialize_compound packet_bytes
    ReceiverState.generate_rr Nack.build_bitmask Nack.serialize Report.serialize_rr
one_short = omega arith

missing_short :
    length (serialize_compound big_endian (nack_packets 4 0 900 missing receiver)) ≤ max_udp_recv
unfolding start ReceiverState.new nack_packets serialize_compound packet_bytes
    ReceiverState.generate_rr Nack.build_bitmask Nack.serialize Report.serialize_rr
missing_short = omega arith

admitted_here :
    peer_move_allowed peer sender.slot.remote_rtcp_addr sender.slot.rtcp_peer_live 1000 ≡ true
unfolding peer_move_allowed
admitted_here = refl

ours_here : nack_targets_us 6 6 ≡ true
unfolding nack_targets_us
ours_here = refl

on_rtcp-nack_packets_example :
    (seqs : List ℕ) × ((s : ℕ) → IsU16 s → contains seqs s ≡ contains missing s)
    × (answered.handling.net ≡ [] ++ map retx_copy (hits ring seqs))
    × ((s : ℕ) (pkt : List ℕ)
        → IsU16 s
        → contains missing s ≡ true
        → get ring s ≡ some pkt
        → Among (retx_copy pkt) (map retx_copy (hits ring seqs)))
unfolding start ReceiverState.new for_capacity
on_rtcp-nack_packets_example =
    on_rtcp-nack_packets big_endian-IsBigEndian as_is log_rtp no_rtcp (λ log. log)
      (λ net d to. refl) peer peer 6 1000 ring receiver 4 0 900 missing (λ i. 1001)
      (for_capacity 64) sender receiver_fits (omega arith, (omega arith, tt)) (omega arith)
      missing_short (omega arith) (omega arith) admitted_here ours_here

gap_there : is_filled (content two 10 1) ≡ false
unfolding Reorder.insert Reorder.new next_power_of_two
gap_there = refl

allowed_here : source_allowed peer none none none 2000 ≡ true
unfolding source_allowed
allowed_here = refl

abbrev repaired : Receiver
repaired =
    on_rtp config big_endian
      (record {
        bytes =
            retx_copy (write_rtp_header big_endian (3 * 2) (wrapping_add 10 1) 90_000 ++ 71 ∷ []);
        src = peer;
        arrival_us = 5;
      })
      [] 2000 2001 receiver

on_rtp-recovers_example :
    Window repaired.reorder 10 12 3
    × (content repaired.reorder 10 1 ≡ filled (71 ∷ []) 2001)
    × ((y : ℕ) → y < two.capacity → y ≢ 1 → content repaired.reorder 10 y ≡ content two 10 y)
    × (repaired.stats ≡ record receiver.stats {
      packets_received = fetch_add receiver.stats.packets_received 1;
      bytes_received = fetch_add receiver.stats.bytes_received (length {A = ℕ} (71 ∷ []));
      retransmits_received = fetch_add receiver.stats.retransmits_received 1;
      packets_recovered = fetch_add receiver.stats.packets_recovered 1;
    })
unfolding start
on_rtp-recovers_example =
    on_rtp-recovers big_endian-IsBigEndian config 3 90_000 (71 ∷ []) peer 5 2000 2001 1 receiver
      (omega arith) (omega arith) (omega arith) two-Window (omega arith) gap_there allowed_here

abbrev sender_config : SenderConfig
sender_config = record {
  rtcp_interval = 100;
  retransmit_buffer_capacity = 64;
  rtt_echo_enabled = true;
}

abbrev session : SenderLoop Log
session = SenderLoop.start sender_config peer 6 [] 10 0 1000 []

-- Two payloads, with a report and a datagram that does not decode between them.
abbrev events : List Event
events =
    payload (1 ∷ []) 10
    ∷ report 20 1020
    ∷ rtcp (0 ∷ []) peer 30 (λ i. 31)
    ∷ payload (2 ∷ []) 40
    ∷ []

abbrev session' : SenderLoop Log
session' = SenderLoop.run sender_config big_endian as_is log_rtp no_rtcp peer 6 session events

abbrev session'' : SenderLoop Log
session'' = SenderLoop.step sender_config big_endian as_is log_rtp no_rtcp peer 6 session' (
    rtcp (serialize_compound big_endian (nack_packets 4 0 900 (11 ∷ []) receiver)) peer 1000
      (λ i. 1001))

ring_here : IsRing (session.media.retransmit_buf.capacity - 1) session.media.retransmit_buf.capacity
unfolding SenderLoop.start Retransmit.new next_power_of_two
ring_here = ring_64

low_here : session.media.seq < 2 ^ 16
unfolding SenderLoop.start
low_here = omega arith

budget_here : (1 ≤ session'.nack_budget_template.scan) × (1 ≤ session'.nack_budget_template.retx)
unfolding SenderLoop.start SenderLoop.run for_capacity Retransmit.new next_power_of_two
budget_here = (omega arith, omega arith)

moves_here :
    peer_move_allowed peer session'.control.slot.remote_rtcp_addr
      session'.control.slot.rtcp_peer_live 1000
    ≡ true
unfolding SenderLoop.start SenderLoop.run peer_move_allowed on_rtcp parse_compound parse_packets
moves_here = refl

run-resends_example :
    (resent : List (List ℕ)) × (session''.control.handling.net
      ≡ session'.control.handling.net ++ resent)
    × ((j : ℕ) (datagram : List ℕ)
        → length (stamped session.ts_epoch_system session.ts_epoch events)
          ≤ j + session.media.retransmit_buf.capacity
        → get_elem?
            (media_run big_endian 6 session.media
              (stamped session.ts_epoch_system session.ts_epoch events)).0
            j
          ≡ some datagram
        → contains (11 ∷ []) (wrapping_add session.media.seq j) ≡ true
        → Among (retx_copy datagram) resent)
unfolding start ReceiverState.new
run-resends_example =
    run-resends big_endian-IsBigEndian as_is log_rtp no_rtcp (λ log. log) (λ net d to. refl)
      sender_config peer peer 6 1000 session events receiver 4 0 900 (11 ∷ []) (λ i. 1001) ring_here
      low_here receiver_fits (omega arith, tt) (omega arith) one_short budget_here.0 budget_here.1
      moves_here ours_here

lost-comes_back_example :
    (resent : List (List ℕ)) × (session''.control.handling.net
      ≡ session'.control.handling.net ++ resent)
    × (d : List ℕ) × Among d resent
    × (let end =
          on_rtp config big_endian
            (record { bytes = d; src = peer; arrival_us = 5 })
            []
            2000
            2001
            receiver in
        Window end.reorder 10 12 3
        × (content end.reorder 10 1 ≡ filled (2 ∷ []) 2001)
        × ((y : ℕ) → y < two.capacity → y ≢ 1 → content end.reorder 10 y ≡ content two 10 y))
unfolding start ReceiverState.new SenderLoop.start Retransmit.new next_power_of_two
lost-comes_back_example =
    lost-comes_back big_endian-IsBigEndian as_is log_rtp no_rtcp (λ log. log) (λ net d to. refl)
      sender_config config peer peer 3 1000 session events receiver 4 0 900 (11 ∷ []) (λ i. 1001) 1
      receiver 1 peer 5 2000 2001 (omega arith) ring_here low_here receiver_fits (omega arith, tt)
      (omega arith) one_short budget_here.0 budget_here.1 moves_here ours_here (omega arith) refl
      (omega arith) refl two-Window (omega arith) refl gap_there allowed_here
