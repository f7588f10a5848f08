-- ===== src/ReceiverState/Fits.antt =====
-- Every report of the receiver can be sent.
use bilbycast_rist.Prelude.{
  ℕ, ◌^◌, ◌<◌, arith, Option, none, some, leb, ◌==◌, ◌||◌, All, wrapping_sub32, Bool-cases, inl,
  inr, length,
}
use bilbycast_rist.Report.Blocks.{BlockFits, Fits24}
use bilbycast_rist.ReceiverState.{
  RtcpReceiverState, generate_rr, expected_packets, fraction_of, cumulative_of, delay_of, unwrap_or,
  report_block,
}

pub record StateFits (s : RtcpReceiverState) : Type 0 where
  pub ssrc_fits : s.ssrc < 2 ^ 32
  pub sender_fits : unwrap_or s.sender_ssrc 0 < 2 ^ 32
  pub highest_fits : s.extended_max_seq < 2 ^ 32
  pub ntp_fits : s.last_sr_ntp < 2 ^ 32

fraction_lt : (e c : ℕ) → fraction_of e c < 2 ^ 8
fraction_lt e c = elim (Bool-cases (e == 0 || leb e c)) [
  | inl h ↦ rw h (omega arith)
  | inr h ↦ rw h (omega arith)
]

cumulative-Fits24 : (e c : ℕ) → Fits24 (cumulative_of e c)
cumulative-Fits24 e c = elim (Bool-cases (leb c e)) [
  | inl h ↦ rw h (omega arith)
  | inr h ↦ rw h (omega arith)
]

delay_lt : (sr : Option ℕ) (now : ℕ) → delay_of sr now < 2 ^ 32
delay_lt none now = omega arith
delay_lt (some t) now = omega arith

report_block-BlockFits :
    (s : RtcpReceiverState) (jitter now : ℕ)
    → StateFits s
    → jitter < 2 ^ 32
    → BlockFits (report_block s jitter now)
report_block-BlockFits s jitter now f j = record {
  ssrc_fits = f.sender_fits;
  fraction_fits =
      fraction_lt (wrapping_sub32 (expected_packets s) s.expected_prior)
        (wrapping_sub32 s.packets_received s.received_prior);
  lost_fits = cumulative-Fits24 (expected_packets s) s.packets_received;
  highest_fits = f.highest_fits;
  jitter_fits = j;
  last_sr_fits = f.ntp_fits;
  delay_fits = delay_lt s.last_sr_time now;
}

pub generate_rr-Fits :
    (s : RtcpReceiverState) (jitter now : ℕ)
    → StateFits s
    → jitter < 2 ^ 32
    → ((generate_rr s jitter now).0.ssrc < 2 ^ 32)
      × All BlockFits (generate_rr s jitter now).0.reports
      × (length (generate_rr s jitter now).0.reports < 2 ^ 5)
unfolding generate_rr
generate_rr-Fits s jitter now f j = elim (Bool-cases s.first_packet_received) [
  | inl h ↦ rw h (f.ssrc_fits, (report_block-BlockFits s jitter now f j, tt), omega arith)
  | inr h ↦ rw h (f.ssrc_fits, tt, omega arith)
]
