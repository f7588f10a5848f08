-- ===== src/Scheduler.antt =====
-- The receiver's NACK scheduler, rist-protocol/src/protocol/nack_tracker.rs. Times are nanoseconds.
pub mod Tests
pub mod Sort
pub mod Gaps
pub mod Count
pub mod Pending
pub mod Asked
use bilbycast_rist.Prelude.{
  ℕ, zero, suc, ◌+◌, ◌-◌, ◌*◌, ◌^◌, Bool, true, false, Option, none, some, List, [], ◌∷◌, ◌++◌,
  if◌then◌else◌, ltb, leb, ◌==◌, ◌&&◌, ◌||◌, not, bit_and, wrapping_add, wrapping_sub, update, u32,
}
use bilbycast_rist.Prelude.Int.{signed16, is_positive, is_zero}

pub record NackSlot : Type 0 where
  pub seq : ℕ
  pub active : Bool
  pub next_nack_at : ℕ
  pub nack_count : ℕ

pub record NackScheduler : Type 0 where
  pub slots : ℕ → NackSlot
  pub capacity : ℕ
  pub max_retries : ℕ
  pub base_delay : ℕ
  pub expected_seq : Option ℕ
  pub scan_lo : ℕ
  pub active_count : ℕ

abbrev pub max_trackable_gap : ℕ
max_trackable_gap = 1000

-- `created_at` is the instant that `new` reads.
unfoldable pub new : ℕ → ℕ → ℕ → NackScheduler
new created_at max_retries base_delay = record {
  slots = λ _. record { seq = 0; active = false; next_nack_at = created_at; nack_count = 0 };
  capacity = 4096;
  max_retries = max_retries;
  base_delay = base_delay;
  expected_seq = none;
  scan_lo = 0;
  active_count = 0;
}

abbrev pub slot_of : NackScheduler → ℕ → NackSlot
slot_of s seq = s.slots (bit_and seq (s.capacity - 1))

-- `slot.active && slot.seq == seq`
abbrev pub tracks : NackSlot → ℕ → Bool
tracks slot seq = slot.active && slot.seq == seq

-- One turn of the loop over a gap: the scheduler, and whether `missing` is new.
unfoldable pub track : NackScheduler → ℕ → ℕ → NackScheduler × Bool
track s missing now =
    let created = record s {
      slots = update s.slots (bit_and missing (s.capacity - 1)) (record {
        seq = missing;
        active = true;
        next_nack_at = now + s.base_delay;
        nack_count = 0;
      });
      active_count = u32 (s.active_count + 1);
    } in
    if not (slot_of s missing).active || not ((slot_of s missing).seq == missing)
    then (created, true)
    else (s, false)

-- The loop, for `n` numbers from `missing` on.
unfoldable pub track_gap : ℕ → NackScheduler → ℕ → ℕ → NackScheduler × List ℕ
unfolding track
track_gap zero s missing now = (s, [])
track_gap (suc n) s missing now =
    let (s1, fresh) = track s missing now in
    let (s2, gaps) = track_gap n s1 (wrapping_add missing 1) now in
    (s2, if fresh then missing ∷ gaps else gaps)

unfoldable pub deactivate : NackScheduler → ℕ → NackScheduler
deactivate s seq =
    let slot = slot_of s seq in
    let cleared = record s {
      slots = update s.slots (bit_and seq (s.capacity - 1)) (record slot { active = false });
      active_count = s.active_count - 1;
    } in
    if tracks slot seq then cleared else s

unfoldable pub received_after : NackScheduler → ℕ → ℕ → ℕ → NackScheduler × List ℕ
unfolding track_gap deactivate
received_after s expected seq now =
    let gap = wrapping_sub seq expected in
    let (tracked, new_gaps) =
      if leb gap max_trackable_gap then track_gap gap s expected now else (s, []) in
    if is_positive (signed16 gap)
    then (record tracked { expected_seq = some (wrapping_add seq 1) }, new_gaps)
    else if is_zero (signed16 gap)
    then (record s { expected_seq = some (wrapping_add seq 1) }, [])
    else (deactivate s seq, [])

-- The match on `expected_seq`.
abbrev pub received_at : Option ℕ → NackScheduler → ℕ → ℕ → NackScheduler × List ℕ
received_at none s seq now =
    (record s { expected_seq = some (wrapping_add seq 1); scan_lo = seq }, [])
received_at (some expected) s seq now = received_after s expected seq now

unfoldable pub on_packet_received : NackScheduler → ℕ → ℕ → NackScheduler × List ℕ
unfolding received_after
on_packet_received s seq now = received_at s.expected_seq s seq now

abbrev pub on_packet_recovered : NackScheduler → ℕ → NackScheduler
on_packet_recovered s seq = deactivate s seq

-- The body of the scan for one slot, and what it pushes.
abbrev pub visit : ℕ → ℕ → ℕ → NackSlot → NackSlot
visit max_retries now retry_delay slot =
    if not slot.active
    then slot
    else if leb slot.next_nack_at now
    then (if leb max_retries slot.nack_count
        then record slot { active = false }
        else record slot { nack_count = slot.nack_count + 1; next_nack_at = now + retry_delay })
    else slot

abbrev pub is_due : ℕ → ℕ → NackSlot → Bool
is_due max_retries now slot =
    slot.active && (leb slot.next_nack_at now && not (leb max_retries slot.nack_count))

abbrev pub is_given_up : ℕ → ℕ → NackSlot → Bool
is_given_up max_retries now slot =
    slot.active && (leb slot.next_nack_at now && leb max_retries slot.nack_count)

-- The scan of `n` slots from slot `i` on.
unfoldable pub scan : ℕ → ℕ → NackScheduler → ℕ → ℕ → NackScheduler × List ℕ
scan zero i s now retry_delay = (s, [])
scan (suc n) i s now retry_delay =
    let slot = s.slots i in
    let s1 = record s {
      slots = update s.slots i (visit s.max_retries now retry_delay slot);
      active_count =
          if is_given_up s.max_retries now slot then s.active_count - 1 else s.active_count;
    } in
    let (s2, to_nack) = scan n (i + 1) s1 now retry_delay in
    (s2, if is_due s.max_retries now slot then slot.seq ∷ to_nack else to_nack)

-- `sort_unstable` of numbers
unfoldable pub insert_sorted : ℕ → List ℕ → List ℕ
insert_sorted a [] = a ∷ []
insert_sorted a (x ∷ xs) =
    let rest = insert_sorted a xs in if leb a x then a ∷ (x ∷ xs) else x ∷ rest

unfoldable pub sort : List ℕ → List ℕ
unfolding insert_sorted
sort [] = []
sort (x ∷ xs) = insert_sorted x (sort xs)

abbrev pub unwrap_or : Option ℕ → ℕ → ℕ
unwrap_or none d = d
unwrap_or (some x) d = x

unfoldable pub get_pending_nacks : NackScheduler → ℕ → Option ℕ → NackScheduler × List ℕ
unfolding scan sort
get_pending_nacks s now rtt =
    let retry_delay = unwrap_or rtt s.base_delay in
    let (s', to_nack) = scan s.capacity 0 s now retry_delay in
    if s.active_count == 0 then (s, []) else (s', sort to_nack)

abbrev pub pending_count : NackScheduler → ℕ
pending_count s = s.active_count

abbrev pub update_base_delay : NackScheduler → ℕ → NackScheduler
update_base_delay s delay = record s { base_delay = delay }
