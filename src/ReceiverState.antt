-- ===== src/ReceiverState.antt =====
-- The receiver's RTCP state, rist-protocol/src/protocol/rtcp_state.rs (`RtcpReceiverState`). The
-- jitter estimate, which is floating point and which nothing else reads, is left out: a report
-- takes its value as an argument. The two other divisions of floats are of numbers so small that
-- they are exact up to their truncation, and are divisions of ℕ here.
pub mod Tests
pub mod Extended
pub mod Loss
pub mod Fits
use bilbycast_rist.Prelude.{
  ℕ, ◌+◌, ◌-◌, ◌%◌, ◌^◌, Bool, true, false, Option, none, some, if◌then◌else◌, leb, ltb,
  wrapping_sub, wrapping_sub32, bit_or, bit_and, u16, u32, ◌*◌, ◌/◌, ◌==◌, ◌||◌, min, List, [], ◌∷◌,
}
use bilbycast_rist.Prelude.Int.{signed16, is_positive, ℤ, pos, negsuc}
use bilbycast_rist.Report.{SenderReport, ReceiverReport, ReportBlock, Sdes, empty_report}

pub record RtcpReceiverState : Type 0 where
  pub ssrc : ℕ
  pub cname : List ℕ
  pub sender_ssrc : Option ℕ
  pub extended_max_seq : ℕ
  pub seq_cycles : ℕ
  pub max_seq : ℕ
  pub first_packet_received : Bool
  pub base_seq : ℕ
  pub packets_received : ℕ
  pub expected_prior : ℕ
  pub received_prior : ℕ
  pub last_sr_ntp : ℕ
  pub last_sr_time : Option ℕ
  pub last_rtcp_time : Option ℕ
  pub rtcp_interval : ℕ

unfoldable pub new : ℕ → List ℕ → ℕ → RtcpReceiverState
new ssrc cname rtcp_interval = record {
  ssrc = ssrc;
  cname = cname;
  sender_ssrc = none;
  extended_max_seq = 0;
  seq_cycles = 0;
  max_seq = 0;
  first_packet_received = false;
  base_seq = 0;
  packets_received = 0;
  expected_prior = 0;
  received_prior = 0;
  last_sr_ntp = 0;
  last_sr_time = none;
  last_rtcp_time = none;
  rtcp_interval = rtcp_interval;
}

-- The branch for every packet after the first.
unfoldable pub progress : RtcpReceiverState → ℕ → RtcpReceiverState
progress s seq =
    let cycles = if ltb seq s.max_seq then u16 (s.seq_cycles + 1) else s.seq_cycles in
    if is_positive (signed16 (wrapping_sub seq s.max_seq))
    then record s {
      seq_cycles = cycles;
      max_seq = seq;
      extended_max_seq = bit_or (cycles * 2 ^ 16) seq;
    }
    else s

unfoldable pub start : RtcpReceiverState → ℕ → RtcpReceiverState
start s seq = record s {
  first_packet_received = true;
  base_seq = seq;
  max_seq = seq;
  extended_max_seq = seq;
}

unfoldable pub on_packet_received : RtcpReceiverState → ℕ → Bool → RtcpReceiverState
unfolding progress start
on_packet_received s seq is_duplicate =
    let counted = if s.first_packet_received then progress s seq else start s seq in
    if is_duplicate
    then s
    else record counted { packets_received = u32 (counted.packets_received + 1) }

abbrev pub due_after : Option ℕ → RtcpReceiverState → ℕ → Bool
due_after none s now = s.first_packet_received
due_after (some last) s now = leb s.rtcp_interval (now - last)

unfoldable pub should_send_rtcp : RtcpReceiverState → ℕ → Bool
should_send_rtcp s now = due_after s.last_rtcp_time s now

-- `SenderReport::compact_ntp`
unfoldable pub compact_ntp : SenderReport → ℕ
compact_ntp sr = bit_or (bit_and sr.ntp_msw 0xffff * 2 ^ 16) (bit_and (sr.ntp_lsw / 2 ^ 16) 0xffff)

unfoldable pub on_sr_received : RtcpReceiverState → SenderReport → ℕ → RtcpReceiverState
unfolding compact_ntp
on_sr_received s sr now = record s {
  sender_ssrc = some sr.ssrc;
  last_sr_ntp = compact_ntp sr;
  last_sr_time = some now;
}

-- `expected`: the numbers from the first packet's to the highest.
abbrev pub expected_packets : RtcpReceiverState → ℕ
expected_packets s = u32 (wrapping_sub32 s.extended_max_seq s.base_seq + 1)

-- Of 256 parts, those lost.
abbrev pub fraction_of : ℕ → ℕ → ℕ
fraction_of expected_interval received_interval =
    if expected_interval == 0 || leb expected_interval received_interval
    then 0
    else min ((expected_interval - received_interval) * 256 / expected_interval) 255

-- `(expected as i64 - received as i64).clamp(-8_388_608, 8_388_607)`
abbrev pub cumulative_of : ℕ → ℕ → ℤ
cumulative_of expected received =
    if leb received expected
    then pos (min (expected - received) 8388607)
    else negsuc (min (received - expected - 1) 8388607)

-- In 1/65536 seconds, from nanoseconds.
abbrev pub delay_of : Option ℕ → ℕ → ℕ
delay_of none now = 0
delay_of (some sr_time) now = min ((now - sr_time) * 65536 / 1_000_000_000) (2 ^ 32 - 1)

abbrev pub unwrap_or : Option ℕ → ℕ → ℕ
unwrap_or none d = d
unwrap_or (some v) d = v

-- The branch for a state that has received a packet.
abbrev pub report_block : RtcpReceiverState → ℕ → ℕ → ReportBlock
report_block s jitter now = record {
  ssrc = unwrap_or s.sender_ssrc 0;
  fraction_lost =
      fraction_of (wrapping_sub32 (expected_packets s) s.expected_prior)
        (wrapping_sub32 s.packets_received s.received_prior);
  cumulative_lost = cumulative_of (expected_packets s) s.packets_received;
  extended_highest_seq = s.extended_max_seq;
  jitter = jitter;
  last_sr = s.last_sr_ntp;
  delay_since_last_sr = delay_of s.last_sr_time now;
}

unfoldable pub generate_rr : RtcpReceiverState → ℕ → ℕ → ReceiverReport × RtcpReceiverState
generate_rr s jitter now =
    let sent = record s { last_rtcp_time = some now } in
    if s.first_packet_received
    then (
      record { ssrc = s.ssrc; reports = report_block s jitter now ∷ [] },
      record sent { expected_prior = expected_packets s; received_prior = s.packets_received },
    )
    else (empty_report s.ssrc, sent)

unfoldable pub generate_sdes : RtcpReceiverState → Sdes
generate_sdes s = record { ssrc = s.ssrc; cname = s.cname }
