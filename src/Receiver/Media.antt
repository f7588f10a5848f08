-- ===== src/Receiver/Media.antt =====
-- The handler for RTP datagrams: admission, the burst, and what a batch of packets changes
-- (rist-transport/src/receiver.rs, `parse_rtp` and the first branch of `receiver_loop`).
pub mod One
use bilbycast_rist.Prelude.{
  ℕ, ◌+◌, ◌-◌, ◌%◌, ◌^◌, Bool, true, Option, none, some, List, [], ◌∷◌, ◌++◌, if◌then◌else◌, ltb,
  ◌&&◌, not, length, drop,
}
use bilbycast_rist.Wire.{Buf, received, Result, ok, err, panic}
use bilbycast_rist.Guard.{SocketAddr, same_addr, source_allowed}
use bilbycast_rist.Rtp.{RtpHeader, is_retransmit}
use bilbycast_rist.Rtp
use bilbycast_rist.Reorder.{ReorderBuffer, InsertOutcome, insert}
use bilbycast_rist.Scheduler
use bilbycast_rist.ReceiverState
use bilbycast_rist.Receiver.State.{Receiver, ReceiverStats, RistSocketConfig, fetch_add}

pub record ParsedRtp : Type 0 where
  pub seq : ℕ
  pub ssrc : ℕ
  pub rtp_ts : ℕ
  pub payload : List ℕ
  pub arrival_us : ℕ
  pub payload_len : ℕ
  pub is_retransmit : Bool

-- `.ok()?`; the header's parser does not panic.
abbrev pub parsed : Result (RtpHeader × ℕ) → List ℕ → ℕ → Option ParsedRtp
parsed (ok (header, header_size)) buf arrival_us = some (record {
  seq = header.sequence_number;
  ssrc = header.ssrc;
  rtp_ts = header.timestamp;
  payload = drop header_size buf;
  arrival_us = arrival_us;
  payload_len = length buf - header_size;
  is_retransmit = is_retransmit header;
})
parsed (err e) buf arrival_us = none
parsed panic buf arrival_us = none

unfoldable pub parse_rtp : Buf → List ℕ → ℕ → Option ParsedRtp
parse_rtp w buf arrival_us = parsed (Rtp.parse_header w buf) buf arrival_us

-- `RistChannel::rtcp_addr_for`, a `u16` sum.
abbrev pub rtcp_addr_for : SocketAddr → SocketAddr
rtcp_addr_for a = record { ip = a.ip; port = (a.port + 1) % 2 ^ 16 }

-- `current != Some(from)`
abbrev pub differs : Option SocketAddr → SocketAddr → Bool
differs none from = true
differs (some current) from = not (same_addr current from)

unfoldable pub latch_rtp : SocketAddr → Receiver → Receiver
latch_rtp from st =
    if differs st.sender_rtp_addr from
    then record st { sender_rtp_addr = some from; sender_rtcp_addr = some (rtcp_addr_for from) }
    else st

abbrev pub max_batch : ℕ
max_batch = 32

-- A datagram, its source, and its time in microseconds since the epoch.
pub record Datagram : Type 0 where
  pub bytes : List ℕ
  pub src : SocketAddr
  pub arrival_us : ℕ

abbrev pub push : List ParsedRtp → Option ParsedRtp → List ParsedRtp
push batch none = batch
push batch (some p) = batch ++ p ∷ []

-- The loop over the datagrams that the socket has ready.
unfoldable pub burst : Buf → SocketAddr → List Datagram → List ParsedRtp → ℕ → List ParsedRtp
burst w from [] batch drained = batch
burst w from (d ∷ ready) batch drained =
    let kept =
      if same_addr d.src from
      then push batch (parse_rtp w (received d.bytes) d.arrival_us)
      else batch in
    let rest = burst w from ready kept (drained + 1) in
    if ltb (length batch) max_batch && ltb drained max_batch then rest else batch

-- The first datagram's packet also names the media SSRC, once.
abbrev pub observe : Option ℕ → Option ParsedRtp → Option ℕ
observe (some ssrc) first = some ssrc
observe none none = none
observe none (some p) = some p.ssrc

-- The insertion of a batch under one lock.
unfoldable pub insert_all : ReorderBuffer → List ParsedRtp → ℕ → ReorderBuffer × List InsertOutcome
insert_all b [] now = (b, [])
insert_all b (p ∷ ps) now =
    let (b', o) = insert b p.seq p.payload now in
    let (last, os) = insert_all b' ps now in (last, o ∷ os)

-- The statistics of one packet.
unfoldable pub count_packet : ReceiverStats → ParsedRtp → InsertOutcome → ReceiverStats
count_packet s p o = record s {
  packets_received = fetch_add s.packets_received 1;
  bytes_received = fetch_add s.bytes_received p.payload_len;
  retransmits_received =
      if p.is_retransmit then fetch_add s.retransmits_received 1 else s.retransmits_received;
  duplicates = if o.duplicate then fetch_add s.duplicates 1 else s.duplicates;
  packets_recovered = if o.recovered then fetch_add s.packets_recovered 1 else s.packets_recovered;
  reorder_drops = if o.stale then fetch_add s.reorder_drops 1 else s.reorder_drops;
  packets_lost =
      if ltb 0 o.overflow_flushed
      then fetch_add s.packets_lost o.overflow_flushed
      else s.packets_lost;
}

-- The loop over the packets and their outcomes.
unfoldable pub account : List ParsedRtp → List InsertOutcome → ℕ → Receiver → Receiver
unfolding count_packet
account [] os now st = st
account (p ∷ ps) [] now st = st
account (p ∷ ps) (o ∷ os) now st = account ps os now (record st {
  rtcp_state = ReceiverState.on_packet_received st.rtcp_state p.seq o.duplicate;
  nack_scheduler = (Scheduler.on_packet_received st.nack_scheduler p.seq now).0;
  stats = count_packet st.stats p o;
})

unfoldable pub on_batch : List ParsedRtp → ℕ → Receiver → Receiver
unfolding insert_all account
on_batch [] now st = st
on_batch (p ∷ ps) now st =
    let (b, os) = insert_all st.reorder (p ∷ ps) now in
    account (p ∷ ps) os now (record st { rtp_peer_live = some now; reorder = b })

-- The handler. `ready` is what `try_recv_from` gives after the datagram `d`; `now` is read after it.
unfoldable pub on_rtp :
    RistSocketConfig → Buf → Datagram → List Datagram → ℕ → ℕ → Receiver → Receiver
unfolding latch_rtp parse_rtp burst on_batch
on_rtp config w d ready arrived_at now st =
    let first = parse_rtp w (received d.bytes) d.arrival_us in
    let latched = latch_rtp d.src st in
    let observed = record latched {
      observed_media_ssrc = observe latched.observed_media_ssrc first;
    } in
    if source_allowed d.src config.pinned_source_ip st.sender_rtp_addr st.rtp_peer_live arrived_at
    then on_batch (burst w d.src ready (push [] first) 1) now observed
    else st
