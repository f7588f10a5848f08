-- ===== src/Rtt.antt =====
-- The round-trip estimator, rist-protocol/src/protocol/rtt.rs. Durations and instants are
-- nanoseconds.
pub mod Tests
pub mod Smoothing
use bilbycast_rist.Prelude.{
  ℕ, ◌+◌, ◌-◌, ◌*◌, ◌/◌, ◌%◌, ◌^◌, Bool, true, false, Option, none, some, if◌then◌else◌, leb, u32,
  u64,
}

pub record RttEstimator : Type 0 where
  pub srtt : Option ℕ
  pub rttvar : Option ℕ
  pub last_request_time : Option ℕ
  pub last_request_timestamp : Option ℕ
  pub request_interval : ℕ
  pub next_request_at : Option ℕ

unfoldable pub new : ℕ → RttEstimator
new request_interval = record {
  srtt = none;
  rttvar = none;
  last_request_time = none;
  last_request_timestamp = none;
  request_interval = request_interval;
  next_request_at = none;
}

abbrev pub unwrap_or : Option ℕ → ℕ → ℕ
unwrap_or none d = d
unwrap_or (some x) d = x

-- `map_or(0, |t| t + elapsed)`
abbrev pub next_timestamp : Option ℕ → ℕ → ℕ
next_timestamp none elapsed = 0
next_timestamp (some t) elapsed = u64 (t + elapsed)

-- The estimator, and the two words of the timestamp.
unfoldable pub generate_request : RttEstimator → ℕ → RttEstimator × (ℕ × ℕ)
generate_request e now =
    let elapsed = u64 ((now - unwrap_or e.last_request_time now) / 1000) in
    let ts = next_timestamp e.last_request_timestamp elapsed in
    (
      record e {
        last_request_time = some now;
        last_request_timestamp = some ts;
        next_request_at = some (now + e.request_interval);
      },
      (u32 (ts / 2 ^ 32), u32 ts),
    )

-- `Duration::abs_diff`
abbrev pub abs_diff : ℕ → ℕ → ℕ
abs_diff a b = if leb b a then a - b else b - a

abbrev pub smoothed : Option ℕ → ℕ → ℕ
smoothed none sample = sample
smoothed (some srtt) sample = srtt * 7 / 8 + sample / 8

abbrev pub varied : Option ℕ → Option ℕ → ℕ → ℕ
varied none rttvar sample = sample / 2
varied (some srtt) rttvar sample = unwrap_or rttvar (sample / 2) * 3 / 4 + abs_diff sample srtt / 4

unfoldable pub update_rtt : RttEstimator → ℕ → RttEstimator
update_rtt e sample = record e {
  srtt = some (smoothed e.srtt sample);
  rttvar = some (varied e.srtt e.rttvar sample);
}

-- The sample of a response: the time since the request, less the responder's share of it.
abbrev pub sample_of : ℕ → ℕ → ℕ → ℕ
sample_of sent_time now processing_delay_us = now - sent_time - processing_delay_us * 1000

abbrev pub respond : Option ℕ → RttEstimator → ℕ → ℕ → RttEstimator
respond none e now processing_delay_us = e
respond (some sent_time) e now processing_delay_us =
    update_rtt e (sample_of sent_time now processing_delay_us)

unfoldable pub on_response : RttEstimator → ℕ → ℕ → ℕ → ℕ → RttEstimator
unfolding update_rtt
on_response e now request_msw request_lsw processing_delay_us =
    respond e.last_request_time e now processing_delay_us

abbrev pub halved : Option ℕ → Option ℕ
halved none = none
halved (some s) = some (s / 2)

abbrev pub nack_delay : RttEstimator → Option ℕ
nack_delay e = halved e.srtt

abbrev pub due_at : Option ℕ → ℕ → Bool
due_at none now = true
due_at (some next) now = leb next now

unfoldable pub should_send_request : RttEstimator → ℕ → Bool
should_send_request e now = due_at e.next_request_at now
