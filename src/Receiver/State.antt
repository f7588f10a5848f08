-- ===== src/Receiver/State.antt =====
-- The variables of `receiver_loop`, with the shared reorder buffer and the statistics
-- (rist-transport/src/receiver.rs). The jitter estimate is left out.
use bilbycast_rist.Prelude.{ℕ, ◌+◌, ◌*◌, Bool, Option, none, List, u64}
use bilbycast_rist.Guard.{IpAddr, SocketAddr}
use bilbycast_rist.Reorder.{ReorderBuffer}
use bilbycast_rist.Reorder
use bilbycast_rist.Scheduler.{NackScheduler}
use bilbycast_rist.Scheduler
use bilbycast_rist.Rtt.{RttEstimator}
use bilbycast_rist.Rtt
use bilbycast_rist.ReceiverState.{RtcpReceiverState}
use bilbycast_rist.ReceiverState

-- 20 ms
abbrev pub min_nack_retry_delay : ℕ
min_nack_retry_delay = 20_000_000

-- The counters of `RistConnStats` that the receiver changes.
pub record ReceiverStats : Type 0 where
  pub packets_received : ℕ
  pub bytes_received : ℕ
  pub retransmits_received : ℕ
  pub duplicates : ℕ
  pub packets_recovered : ℕ
  pub reorder_drops : ℕ
  pub packets_lost : ℕ
  pub nacks_sent : ℕ
  pub rtt_us : ℕ

-- `fetch_add`
abbrev pub fetch_add : ℕ → ℕ → ℕ
fetch_add counter n = u64 (counter + n)

pub record Receiver : Type 0 where
  pub rtcp_state : RtcpReceiverState
  pub nack_scheduler : NackScheduler
  pub rtt_estimator : RttEstimator
  pub observed_media_ssrc : Option ℕ
  pub reorder : ReorderBuffer
  pub sender_rtp_addr : Option SocketAddr
  pub rtp_peer_live : Option ℕ
  pub sender_rtcp_addr : Option SocketAddr
  pub rtcp_peer_live : Option ℕ
  pub stats : ReceiverStats

abbrev pub no_stats : ReceiverStats
no_stats = record {
  packets_received = 0;
  bytes_received = 0;
  retransmits_received = 0;
  duplicates = 0;
  packets_recovered = 0;
  reorder_drops = 0;
  packets_lost = 0;
  nacks_sent = 0;
  rtt_us = 0;
}

-- Of `RistSocketConfig`, what the receiver reads.
pub record RistSocketConfig : Type 0 where
  pub buffer_size : ℕ
  pub rtcp_interval : ℕ
  pub max_nack_retries : ℕ
  pub rtt_echo_enabled : Bool
  pub pinned_source_ip : Option IpAddr

-- The variables before the loop, for the SSRC and name that the code takes at random and from the
-- socket.
unfoldable pub start : RistSocketConfig → ℕ → List ℕ → ℕ → Receiver
start config ssrc cname now = record {
  rtcp_state = ReceiverState.new ssrc cname config.rtcp_interval;
  nack_scheduler = Scheduler.new now config.max_nack_retries min_nack_retry_delay;
  rtt_estimator = Rtt.new (config.rtcp_interval * 10);
  observed_media_ssrc = none;
  reorder = Reorder.new config.buffer_size;
  sender_rtp_addr = none;
  rtp_peer_live = none;
  sender_rtcp_addr = none;
  rtcp_peer_live = none;
  stats = no_stats;
}
