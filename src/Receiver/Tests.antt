-- ===== src/Receiver/Tests.antt =====
-- Runs of the receiver.
use bilbycast_rist.Prelude.{
  ℕ, zero, suc, ◌+◌, ◌<◌, ◌^◌, ◌≡◌, ◌≢◌, sym, subst, refl, arith, Bool, true, false, none, some,
  Option, List, [], ◌∷◌, ◌++◌, if◌then◌else◌, ◌∙◌,
}
use bilbycast_rist.Wire.BigEndian.{big_endian}
use bilbycast_rist.Guard.{SocketAddr, v4, source_allowed, peer_move_allowed}
use bilbycast_rist.Reorder.Drain.{Drained}
use bilbycast_rist.Reorder.Tests.{one, one-Window}
use bilbycast_rist.Receiver.State.{Receiver, RistSocketConfig, start}
use bilbycast_rist.Receiver.Media.{ParsedRtp, Datagram, parse_rtp, rtcp_addr_for}
use bilbycast_rist.Receiver.Delivery.{RistDelivered, Wait, turn}
use bilbycast_rist.Receiver.Delivery.Conserved.{turn_conserves}
use bilbycast_rist.Receiver.Steps.{Event, rtp, rtcp, pump, report, step, run}
use bilbycast_rist.Receiver.Steps.Asked.{run-asks}
use bilbycast_rist.Receiver.Steps.Waiting.{Meanwhile, spared, pumped, reported}
use bilbycast_rist.Receiver.Steps.Waiting
use bilbycast_rist.Wire.{received}
use bilbycast_rist.Receiver.Pump.{
  nack_packets, on_pump, on_report, pump_to, report_to, request_pending,
}
use bilbycast_rist.Scheduler.{get_pending_nacks}
use bilbycast_rist.Compound.{serialize_compound}
use bilbycast_rist.Nack.Builder.{contains}
use bilbycast_rist.Rtp
use bilbycast_rist.Scheduler
use bilbycast_rist.Scheduler.{NackScheduler}
use bilbycast_rist.Scheduler.Asked.{Spares}
use bilbycast_rist.Reorder
use bilbycast_rist.Scheduler.Count.{IsCounted, new-IsCounted}
use bilbycast_rist.Receiver.Steps.Inert.{HeldBy, own, stranger, mixed, done, run_strangers}

abbrev config : RistSocketConfig
config = record {
  buffer_size = 80;
  rtcp_interval = 100;
  max_nack_retries = 5;
  rtt_echo_enabled = true;
  pinned_source_ip = none;
}

abbrev peer : SocketAddr
peer = record { ip = v4 1; port = 5000 }

abbrev other : SocketAddr
other = record { ip = v4 2; port = 5000 }

other-ne-peer : other.ip ≢ peer.ip
other-ne-peer e = cc

abbrev as_is : List ℕ → List ℕ
as_is bytes = bytes

-- A socket that takes every datagram.
abbrev log_send : List (List ℕ) → List ℕ → SocketAddr → List (List ℕ) × Bool
log_send log datagram to = (log ++ (datagram ∷ []), true)

-- Media has come from the peer at 1000.
abbrev live : Receiver
live = record (start config 4 [] 0) {
  sender_rtp_addr = some peer;
  rtp_peer_live = some 1000;
  sender_rtcp_addr = some (rtcp_addr_for peer);
}

abbrev forged_rtp : Event
forged_rtp = rtp (record { bytes = []; src = other; arrival_us = 0 }) [] 2000 2001

abbrev forged_rtcp : Event
forged_rtcp = rtcp (0x80 ∷ 77 ∷ 0 ∷ 0 ∷ []) other 3000 (λ i. 3001)

abbrev after : Receiver × List (List ℕ) → Event → Receiver × List (List ℕ)
after st e = step config big_endian as_is log_send 4 st e

held : HeldBy peer.ip live 2000
unfolding start
held = (peer, rtcp_addr_for peer, 1000, refl, refl, refl, refl, refl, omega arith)

still_held : HeldBy peer.ip (after (live, []) forged_rtp).0 3000
unfolding start step source_allowed peer_move_allowed
still_held = (peer, rtcp_addr_for peer, 1000, refl, refl, refl, refl, refl, omega arith)

abbrev own_rtp : Datagram
own_rtp = record { bytes = 0x80 ∷ 33 ∷ []; src = peer; arrival_us = 5 }

abbrev behind : List Datagram
behind = record { bytes = []; src = other; arrival_us = 6 } ∷ []

abbrev forged_both : Receiver × List (List ℕ)
forged_both = after (after (live, []) forged_rtp) forged_rtcp

-- A forged datagram to each socket, a pump, and a burst with a forged datagram behind the peer's.
run_strangers_example :
    run config big_endian as_is log_send 4
      (live, [])
      (forged_rtp ∷ forged_rtcp ∷ pump 0 4000 ∷ rtp own_rtp behind 5000 5001 ∷ [])
    ≡ run config big_endian as_is log_send 4
        (live, [])
        (pump 0 4000 ∷ rtp own_rtp [] 5000 5001 ∷ [])
run_strangers_example = run_strangers config big_endian as_is log_send 4 peer.ip (
    stranger (live, []) forged_rtp _ _ other-ne-peer held
      (stranger (after (live, []) forged_rtp) forged_rtcp _ _ other-ne-peer still_held (
        own forged_both (pump 0 4000) _ _ (
          mixed (after forged_both (pump 0 4000)) own_rtp behind 5000 5001 [] [] (omega arith)
            (done _)))))

-- A channel that takes one packet.
abbrev take_one : ℕ → RistDelivered → ℕ × Bool
take_one zero d = (1, true)
take_one (suc n) d = (suc n, false)

abbrev holding : Receiver
holding = record live { reorder = one }

turn_conserves_example :
    (st' : Receiver) × (to' : ℕ) × (wait : Option Wait) × (k : ℕ) × (turn take_one 200 201 202
        (holding, 0)
      ≡ some ((st', to'), wait))
    × Drained one st'.reorder 10 10 1 k 200
    × (to' + st'.stats.reorder_drops + st'.stats.packets_lost ≡ 0 + 0 + 0 + k)
unfolding start
turn_conserves_example =
    turn_conserves take_one (λ n. n) taken 200 201 202 holding 0 one-Window (omega arith)
      (omega arith)
  where
    taken : (n : ℕ) (d : RistDelivered) → (take_one n d).0 ≡ n + (if (take_one n d).1 then 1 else 0)
    taken zero d = omega arith
    taken (suc n) d = omega arith

-- The receiver expects 10 next, and gets 12.
abbrev expecting : Receiver
expecting = record live {
  nack_scheduler = record (Scheduler.new 0 5 20_000_000) { expected_seq = some 10 };
}

abbrev twelve : Datagram
twelve = record {
  bytes = 0x80 ∷ 33 ∷ 0 ∷ 12 ∷ 0 ∷ 0 ∷ 0 ∷ 9 ∷ 0 ∷ 0 ∷ 0 ∷ 6 ∷ 71 ∷ [];
  src = peer;
  arrival_us = 5;
}

abbrev twelve_parsed : ParsedRtp
twelve_parsed = record {
  seq = 12;
  ssrc = 6;
  rtp_ts = 9;
  payload = 71 ∷ [];
  arrival_us = 5;
  payload_len = 1;
  is_retransmit = false;
}

twelve_parses : parse_rtp big_endian (received twelve.bytes) twelve.arrival_us ≡ some twelve_parsed
unfolding parse_rtp Rtp.parse_header Rtp.is_retransmit
twelve_parses = refl

twelve_allowed : source_allowed peer none (some peer) (some 1000) 2000 ≡ true
unfolding source_allowed peer_move_allowed
twelve_allowed = refl

expecting-IsCounted : IsCounted expecting.nack_scheduler
expecting-IsCounted =
    let c = new-IsCounted 0 5 20_000_000 in
    record { ring = c.ring; counted = c.counted; bounded = c.bounded }

-- The next packet comes before the delay is over, and so do a pump and a report.
abbrev thirteen : Datagram
thirteen = record {
  bytes = 0x80 ∷ 33 ∷ 0 ∷ 13 ∷ 0 ∷ 0 ∷ 0 ∷ 9 ∷ 0 ∷ 0 ∷ 0 ∷ 6 ∷ 72 ∷ [];
  src = peer;
  arrival_us = 6;
}

abbrev gapped : Receiver × List (List ℕ)
gapped = after (expecting, []) (rtp twelve [] 2000 2001)

abbrev between : List Event
between = rtp thirteen [] 3000 3001 ∷ pump 0 10_000_000 ∷ report 0 11_000_000 ∷ []

abbrev later : Receiver × List (List ℕ)
later = run config big_endian as_is log_send 4 (expecting, []) (rtp twelve [] 2000 2001 ∷ between)

thirteen_allowed :
    source_allowed peer none gapped.0.sender_rtp_addr gapped.0.rtp_peer_live 3000 ≡ true
unfolding start step parse_rtp Rtp.parse_header Rtp.is_retransmit source_allowed peer_move_allowed
    Scheduler.new Scheduler.on_packet_received Reorder.new Reorder.insert
thirteen_allowed = refl

abbrev thirteen_parsed : ParsedRtp
thirteen_parsed = record twelve_parsed { seq = 13; payload = 72 ∷ []; arrival_us = 6 }

thirteen_parses :
    parse_rtp big_endian (received thirteen.bytes) thirteen.arrival_us ≡ some thirteen_parsed
unfolding parse_rtp Rtp.parse_header Rtp.is_retransmit
thirteen_parses = refl

gapped_room : gapped.0.nack_scheduler.active_count + Scheduler.max_trackable_gap < 2 ^ 32
unfolding start step parse_rtp Rtp.parse_header Rtp.is_retransmit source_allowed peer_move_allowed
    Scheduler.new Scheduler.on_packet_received Reorder.new Reorder.insert
gapped_room = omega arith

gapped_next : gapped.0.nack_scheduler.expected_seq ≡ some 13
unfolding start step parse_rtp Rtp.parse_header Rtp.is_retransmit source_allowed peer_move_allowed
    Scheduler.new Scheduler.on_packet_received Reorder.new Reorder.insert
gapped_next = refl

thirteen-Spares : Spares gapped.0.nack_scheduler gapped.0.nack_scheduler.expected_seq 11 13
thirteen-Spares =
    subst (λ e. Spares gapped.0.nack_scheduler e 11 13) (sym gapped_next)
      (omega arith, (λ e. absurd (omega (arith, e))), λ i h k. absurd (omega arith))

meanwhile : Meanwhile config big_endian as_is log_send 4 11 20_002_001 gapped between
unfolding start Scheduler.new
meanwhile =
    spared gapped thirteen thirteen_parsed 3000 3001 _ thirteen_allowed thirteen_parses gapped_room
      thirteen-Spares
      (pumped _ 0 10_000_000 _ (omega arith) (reported _ 0 11_000_000 _ (Waiting.done _)))

-- Pumps and reports keep the address of the sender.
pump_to-dest :
    (now : ℕ) (dest : Option SocketAddr) (st : Receiver) (net : List (List ℕ))
    → (pump_to config big_endian log_send 4 0 now dest st net).0.sender_rtcp_addr
      ≡ st.sender_rtcp_addr
pump_to-dest now none st net = refl
pump_to-dest now (some dest) st net =
    requested (get_pending_nacks st.nack_scheduler now st.rtt_estimator.srtt).1 _
  where
    requested :
        (pending : List ℕ) (t : Receiver)
        → (request_pending config big_endian log_send 4 0 now pending dest t net).0.sender_rtcp_addr
          ≡ t.sender_rtcp_addr
    requested [] t = refl
    requested (p ∷ ps) t = refl

report_to-dest :
    (now : ℕ) (dest : Option SocketAddr) (st : Receiver) (net : List (List ℕ))
    → (report_to config big_endian log_send 4 0 now dest st net).0.sender_rtcp_addr
      ≡ st.sender_rtcp_addr
report_to-dest now none st net = refl
report_to-dest now (some dest) st net = refl

abbrev both : Receiver × List (List ℕ)
both = after gapped (rtp thirteen [] 3000 3001)

known_both : both.0.sender_rtcp_addr ≡ some (rtcp_addr_for peer)
unfolding start step parse_rtp Rtp.parse_header Rtp.is_retransmit source_allowed peer_move_allowed
    Scheduler.new Scheduler.on_packet_received Reorder.new Reorder.insert
known_both = refl

known_later : later.0.sender_rtcp_addr ≡ some (rtcp_addr_for peer)
unfolding run step on_pump on_report
known_later = report_to-dest 11_000_000 _ _ _ ∙ pump_to-dest 10_000_000 _ _ _ ∙ known_both

run-asks_example :
    (pending : List ℕ) × (contains pending 11 ≡ true)
    × ((after later (pump 0 20_002_001)).1
        ≡ (log_send later.1
            (serialize_compound big_endian (nack_packets 4 0 20_002_001 pending later.0))
            (rtcp_addr_for peer)).0)
unfolding start Scheduler.new
run-asks_example =
    run-asks config big_endian log_send 4 as_is twelve twelve_parsed 2000 2001 0 20_002_001 10 1
      (rtcp_addr_for peer) expecting [] between twelve_allowed twelve_parses expecting-IsCounted
      (omega arith) (omega arith) (omega arith) (omega arith) refl (omega arith) (omega arith) refl
      meanwhile (omega arith) known_later
