-- ===== src/SenderState.antt =====
-- The sender's RTCP state, rist-protocol/src/protocol/rtcp_state.rs (`RtcpSenderState`). A wall-clock
-- time is its nanoseconds since the Unix epoch, and is an argument where the code reads the clock.
pub mod Counts
pub mod Tests
use bilbycast_rist.Prelude.{
  ℕ, ◌+◌, ◌-◌, ◌*◌, ◌/◌, ◌%◌, ◌^◌, Bool, true, Option, none, some, List, leb, u32, u64,
}
use bilbycast_rist.Report.{SenderReport, Sdes}

pub record RtcpSenderState : Type 0 where
  pub ssrc : ℕ
  pub cname : List ℕ
  pub packet_count : ℕ
  pub octet_count : ℕ
  pub last_rtp_timestamp : ℕ
  pub last_rtp_wallclock : Option ℕ
  pub rtp_ts_epoch : ℕ
  pub rtp_ts_epoch_system : ℕ
  pub last_rtcp_time : Option ℕ
  pub rtcp_interval : ℕ

unfoldable pub new : ℕ → List ℕ → ℕ → ℕ → ℕ → RtcpSenderState
new ssrc cname rtcp_interval rtp_ts_epoch rtp_ts_epoch_system = record {
  ssrc = ssrc;
  cname = cname;
  packet_count = 0;
  octet_count = 0;
  last_rtp_timestamp = 0;
  last_rtp_wallclock = none;
  rtp_ts_epoch = rtp_ts_epoch;
  rtp_ts_epoch_system = rtp_ts_epoch_system;
  last_rtcp_time = none;
  rtcp_interval = rtcp_interval;
}

unfoldable pub on_packet_sent : RtcpSenderState → ℕ → ℕ → ℕ → RtcpSenderState
on_packet_sent s payload_size rtp_timestamp now = record s {
  packet_count = u32 (s.packet_count + 1);
  octet_count = u32 (s.octet_count + u32 payload_size);
  last_rtp_timestamp = rtp_timestamp;
  last_rtp_wallclock = some now;
}

abbrev pub due_after : Option ℕ → ℕ → ℕ → Bool
due_after none interval now = true
due_after (some last) interval now = leb interval (now - last)

unfoldable pub should_send_rtcp : RtcpSenderState → ℕ → Bool
should_send_rtcp s now = due_after s.last_rtcp_time s.rtcp_interval now

abbrev pub ntp_epoch_offset : ℕ
ntp_epoch_offset = 2_208_988_800

unfoldable pub system_time_to_ntp : ℕ → ℕ × ℕ
system_time_to_ntp time =
    let secs = u64 (time / 1_000_000_000 + ntp_epoch_offset) in
    let frac = time % 1_000_000_000 * 2 ^ 32 / 1_000_000_000 in (u32 secs, u32 frac)

unfoldable pub generate_sr : RtcpSenderState → ℕ → ℕ → SenderReport × RtcpSenderState
unfolding system_time_to_ntp
generate_sr s now system_now =
    let (ntp_msw, ntp_lsw) = system_time_to_ntp system_now in
    let elapsed = now - s.rtp_ts_epoch in
    let ntp_us = u64 (
      u64 (u64 (s.rtp_ts_epoch_system / 1000) + ntp_epoch_offset * 1_000_000)
      + u64 (elapsed / 1000)) in
    (
      record {
        ssrc = s.ssrc;
        ntp_msw = ntp_msw;
        ntp_lsw = ntp_lsw;
        rtp_timestamp = u32 (u64 (ntp_us * 90) / 1000);
        sender_packet_count = s.packet_count;
        sender_octet_count = s.octet_count;
      },
      record s { last_rtcp_time = some now },
    )

unfoldable pub generate_sdes : RtcpSenderState → Sdes
generate_sdes s = record { ssrc = s.ssrc; cname = s.cname }
