-- ===== src/Scheduler/Tests.antt =====
-- A run of the scheduler, after the unit tests of rist-protocol/src/protocol/nack_tracker.rs.
use bilbycast_rist.Prelude.{
  ℕ, ◌+◌, ◌-◌, ◌^◌, ◌<◌, ◌≤◌, ◌≡◌, ◌≢◌, refl, arith, true, none, some, wrapping_add, wrapping_sub,
}
use bilbycast_rist.Ring.{slot_index}
use bilbycast_rist.Scheduler.{
  NackScheduler, new, on_packet_received, on_packet_recovered, get_pending_nacks, update_base_delay,
  unwrap_or, tracks, max_trackable_gap,
}
use bilbycast_rist.Scheduler.Count.{
  IsCounted, new-IsCounted, on_packet_received-IsCounted, operations-IsCounted,
}
use bilbycast_rist.Scheduler.Pending.{Round, get_pending_nacks_lem}
use bilbycast_rist.Scheduler.Gaps.{untracked, on_packet_received-gap}

-- Packet 10 arrives, then 13.
abbrev first : NackScheduler
first = (on_packet_received (new 0 5 100) 10 0).0

abbrev gapped : NackScheduler
gapped = (on_packet_received first 13 5).0

first_room : (new 0 5 100).active_count + max_trackable_gap < 2 ^ 32
unfolding new
first_room = omega arith

first-IsCounted : IsCounted first
first-IsCounted = on_packet_received-IsCounted (new 0 5 100) 10 0 first_room (new-IsCounted 0 5 100)

first_count : first.active_count + max_trackable_gap < 2 ^ 32
unfolding new on_packet_received
first_count = omega arith

gapped-IsCounted : IsCounted gapped
gapped-IsCounted = on_packet_received-IsCounted first 13 5 first_count first-IsCounted

operations-IsCounted_example :
    IsCounted (new 0 5 100)
    × (IsCounted gapped × (gapped.active_count ≤ first.active_count + max_trackable_gap))
    × (IsCounted (on_packet_recovered first 13)
        × ((on_packet_recovered first 13).active_count ≤ first.active_count))
    × (IsCounted (get_pending_nacks first 5 none).0
        × ((get_pending_nacks first 5 none).0.active_count ≤ first.active_count))
    × (IsCounted (update_base_delay first 50)
        × ((update_base_delay first 50).active_count ≤ first.active_count))
operations-IsCounted_example =
    operations-IsCounted 0 5 100 first 13 5 50 none first-IsCounted first_count

get_pending_nacks_example :
    Round gapped 200 (unwrap_or none gapped.base_delay) (get_pending_nacks gapped 200 none)
get_pending_nacks_example = get_pending_nacks_lem gapped 200 none gapped-IsCounted

on_packet_received-gap_example :
    ((i : ℕ)
      → i < wrapping_sub 13 11
      → tracks
          ((on_packet_received first 13 5).0.slots
            (slot_index (first.capacity - 1) (wrapping_add 11 i)))
          (wrapping_add 11 i)
        ≡ true)
    × ((j : ℕ)
        → ((i : ℕ)
            → i < wrapping_sub 13 11
            → j ≢ slot_index (first.capacity - 1) (wrapping_add 11 i))
        → (on_packet_received first 13 5).0.slots j ≡ first.slots j)
    × ((on_packet_received first 13 5).1 ≡ untracked (wrapping_sub 13 11) first 11)
    × ((on_packet_received first 13 5).0.expected_seq ≡ some (wrapping_add 13 1))
unfolding on_packet_received new
on_packet_received-gap_example =
    on_packet_received-gap first 11 13 5
      (record { masked = refl; exponent = 12; power = refl; turns = 16; divides = refl })
      (omega arith) (omega arith) refl (omega arith) (omega arith)
