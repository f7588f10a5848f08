-- ===== src/Reorder.antt =====
-- The receiver's reorder buffer, rist-protocol/src/protocol/reorder.rs. An `Instant` and a
-- `Duration` are numbers of nanoseconds, so that `saturating_duration_since` is the subtraction
-- that stops at 0; `Bytes` is the list of the bytes. The loop of `drain_ready` is a step with fuel.
pub mod Window
pub mod Marking
pub mod Insert
pub mod Displaced
pub mod Flush
pub mod Overflow
pub mod Deadline
pub mod Drain
pub mod Admit
pub mod Tests
use bilbycast_rist.Prelude.{
  ℕ, zero, suc, ◌+◌, ◌-◌, ◌%◌, ◌^◌, max, Bool, true, false, Option, none, some, List, [], ◌∷◌, ◌++◌,
  if◌then◌else◌, ltb, leb, ◌==◌, ◌||◌, ◌&&◌, not, update, wrapping_add, wrapping_sub, u16, u32,
  next_power_of_two, bit_and,
}
use bilbycast_rist.Prelude.Int.{signed16, is_positive, is_negative}

abbrev pub Bytes : Type 0
Bytes = List ℕ

pub data SlotState : Type 0 where
  empty : SlotState
  gap : ℕ → SlotState
  filled : Bytes → ℕ → SlotState

pub record Slot : Type 0 where
  pub seq : ℕ
  pub state : SlotState

pub record InsertOutcome : Type 0 where
  pub stale : Bool
  pub duplicate : Bool
  pub recovered : Bool
  pub new_gaps : ℕ
  pub overflow_flushed : ℕ

pub data DrainItem : Type 0 where
  delivered : Bytes → ℕ → ℕ → DrainItem
  lost : DrainItem

pub record ReorderBuffer : Type 0 where
  pub slots : ℕ → Slot
  pub capacity : ℕ
  pub mask : ℕ
  pub buffer_time : ℕ
  pub base_seq : Option ℕ
  pub highest_seq : Option ℕ

abbrev pub default_capacity : ℕ
default_capacity = 8192

-- `InsertOutcome::default()`
abbrev pub no_outcome : InsertOutcome
no_outcome = record {
  stale = false;
  duplicate = false;
  recovered = false;
  new_gaps = 0;
  overflow_flushed = 0;
}

abbrev pub empty_slot : Slot
empty_slot = record { seq = 0; state = empty }

unfoldable pub with_capacity : ℕ → ℕ → ReorderBuffer
with_capacity buffer_time capacity =
    let cap = max (next_power_of_two capacity) 64 in
    record {
      slots = λ _. empty_slot;
      capacity = cap;
      mask = cap - 1;
      buffer_time = buffer_time;
      base_seq = none;
      highest_seq = none;
    }

unfoldable pub new : ℕ → ReorderBuffer
unfolding with_capacity
new buffer_time = with_capacity buffer_time default_capacity

abbrev pub is_filled : SlotState → Bool
is_filled empty = false
is_filled (gap t) = false
is_filled (filled d t) = true

abbrev pub is_empty : SlotState → Bool
is_empty empty = true
is_empty (gap t) = false
is_empty (filled d t) = false

-- The first packet, or the packet of a reset, becomes the whole window.
abbrev pub anchor : ReorderBuffer → ℕ → Bytes → ℕ → ReorderBuffer
anchor b seq dat now = record b {
  slots = update b.slots (bit_and seq b.mask) (record { seq = seq; state = filled dat now });
  base_seq = some seq;
  highest_seq = some seq;
}

-- The number of filled slots below an index, which the full reset counts.
unfoldable pub count_filled : ℕ → (ℕ → Slot) → ℕ
count_filled zero slots = 0
count_filled (suc n) slots =
    u32 (count_filled n slots + (if is_filled (slots n).state then 1 else 0))

-- One round of the minimal flush, on the count: a slot that holds the very number `s` and is
-- filled counts.
abbrev pub flush_one : (ℕ → Slot) → ℕ → ℕ → ℕ → ℕ
flush_one slots s mask flushed =
    let slot = slots (bit_and s mask) in
    if slot.seq == s && is_filled slot.state then u32 (flushed + 1) else flushed

-- The minimal flush: `n` rounds, from offset `i` of `base`.
unfoldable pub flush_span : ℕ → ℕ → ℕ → ℕ → (ℕ → Slot) → ℕ → (ℕ → Slot) × ℕ
flush_span zero i base mask slots flushed = (slots, flushed)
flush_span (suc n) i base mask slots flushed =
    let s = wrapping_add base i in
    flush_span n (i + 1) base mask (update slots (bit_and s mask) empty_slot)
      (flush_one slots s mask flushed)

-- One round of the gap marking: whether the slot of `gap_seq` becomes a gap.
unfoldable pub replaces : ℕ → ℕ → Slot → Bool
replaces gap_seq seq slot =
    not (gap_seq == seq) && (is_empty slot.state || not (slot.seq == gap_seq))

-- The gap marking: `n` rounds, from offset `i` of `highest`, over the slots and `new_gaps`.
unfoldable pub mark_gaps : ℕ → ℕ → ℕ → ℕ → ℕ → ℕ → (ℕ → Slot) → ℕ → (ℕ → Slot) × ℕ
unfolding replaces
mark_gaps zero i highest seq mask now slots gaps = (slots, gaps)
mark_gaps (suc n) i highest seq mask now slots gaps =
    let gap_seq = wrapping_add highest i in
    let gidx = bit_and gap_seq mask in
    let replace = replaces gap_seq seq (slots gidx) in
    mark_gaps n (i + 1) highest seq mask now
      (if replace then update slots gidx (record { seq = gap_seq; state = gap now }) else slots)
      (if replace then u32 (gaps + 1) else gaps)

-- The tail of `insert`, once the packet is stored: extend `highest_seq` and mark the gaps.
unfoldable pub extend : ReorderBuffer → ℕ → ℕ → ℕ → InsertOutcome → ReorderBuffer × InsertOutcome
unfolding mark_gaps
extend b highest seq now outcome =
    let diff = wrapping_sub seq highest in
    let (slots, gaps) = mark_gaps diff 1 highest seq b.mask now b.slots outcome.new_gaps in
    if is_positive (signed16 diff)
    then (record b { slots = slots; highest_seq = some seq }, record outcome { new_gaps = gaps })
    else (b, outcome)

abbrev pub store : ReorderBuffer → ℕ → Bytes → ℕ → ReorderBuffer
store b seq dat now = record b {
  slots = update b.slots (bit_and seq b.mask) (record { seq = seq; state = filled dat now });
}

-- What `insert` does with the slot of a packet that lies within the window.
unfoldable pub place :
    ReorderBuffer → ℕ → ℕ → Bytes → ℕ → InsertOutcome → ReorderBuffer × InsertOutcome
unfolding extend
place b highest seq dat now outcome =
    let slot = b.slots (bit_and seq b.mask) in
    let stored = extend (store b seq dat now) highest seq now in
    if slot.seq == seq
    then elim slot.state [
      | filled d t ↦ (b, record outcome { duplicate = true })
      | gap t ↦ stored (record outcome { recovered = true })
      | empty ↦ stored outcome
    ]
    else stored outcome

-- The overflow branch of `insert`, with `advance = from_base - ahead_capacity`.
unfoldable pub overflow : ReorderBuffer → ℕ → ℕ → ℕ → ℕ → Bytes → ℕ → ReorderBuffer × InsertOutcome
unfolding place count_filled flush_span
overflow b base highest advance seq dat now =
    let highest_offset = wrapping_sub highest base in
    let (slots, flushed) = flush_span advance 0 base b.mask b.slots 0 in
    if leb b.capacity advance || ltb highest_offset advance
    then (
      anchor (record b { slots = λ _. empty_slot }) seq dat now,
      record no_outcome { overflow_flushed = count_filled b.capacity b.slots },
    )
    else place (record b { slots = slots; base_seq = some (wrapping_add base advance) }) highest seq
        dat now (record no_outcome { overflow_flushed = flushed })

-- `insert` once both ends of the window are known.
unfoldable pub insert_window : ReorderBuffer → ℕ → ℕ → ℕ → Bytes → ℕ → ReorderBuffer × InsertOutcome
unfolding overflow place
insert_window b base highest seq dat now =
    let from_base = wrapping_sub seq base in
    let ahead_capacity = wrapping_sub (u16 b.capacity) 1 in
    if is_negative (signed16 from_base)
    then (b, record no_outcome { stale = true })
    else if ltb ahead_capacity from_base
    then overflow b base highest (from_base - ahead_capacity) seq dat now
    else place b highest seq dat now no_outcome

insert_at : Option ℕ → Option ℕ → ReorderBuffer → ℕ → Bytes → ℕ → ReorderBuffer × InsertOutcome
unfolding insert_window
insert_at (some base) (some highest) b seq dat now = insert_window b base highest seq dat now
insert_at (some base) none b seq dat now = (anchor b seq dat now, no_outcome)
insert_at none highest b seq dat now = (anchor b seq dat now, no_outcome)

unfoldable pub insert : ReorderBuffer → ℕ → Bytes → ℕ → ReorderBuffer × InsertOutcome
unfolding insert_at
insert b seq dat now = insert_at b.base_seq b.highest_seq b seq dat now

-- One round of `drain_ready` at a known window: `none` is a `return`, and a pushed item stands
-- beside the buffer with `base_seq` moved on.
drain_slot : ReorderBuffer → ℕ → ℕ → Option (ReorderBuffer × DrainItem)
drain_slot b base now =
    let idx = bit_and base b.mask in
    let slot = b.slots idx in
    let after = λ (s : Slot). record b {
      slots = update b.slots idx s;
      base_seq = some (wrapping_add base 1);
    } in
    if not (slot.seq == base) then some (after empty_slot, lost) else elim slot.state [
      | filled dat arrival ↦
          if leb b.buffer_time (now - arrival)
          then some (after (record slot { state = empty }), delivered dat base arrival)
          else none
      | gap first_noticed ↦
          if leb b.buffer_time (now - first_noticed)
          then some (after (record slot { state = empty }), lost)
          else none
      | empty ↦ none
    ]

drain_at : Option ℕ → Option ℕ → ReorderBuffer → ℕ → Option (ReorderBuffer × DrainItem)
unfolding drain_slot
drain_at (some base) (some highest) b now =
    if is_positive (signed16 (wrapping_sub base highest)) then none else drain_slot b base now
drain_at (some base) none b now = none
drain_at none highest b now = none

unfoldable pub drain_step : ReorderBuffer → ℕ → Option (ReorderBuffer × DrainItem)
unfolding drain_at
drain_step b now = drain_at b.base_seq b.highest_seq b now

-- `none` means that the fuel ran out.
unfoldable pub drain_loop :
    ℕ → ReorderBuffer → ℕ → List DrainItem → Option (ReorderBuffer × List DrainItem)
drain_loop zero b now out = none
drain_loop (suc fuel) b now out = elim (drain_step b now) [
  | none ↦ some (b, out)
  | some (b', item) ↦ drain_loop fuel b' now (out ++ (item ∷ []))
]

-- Half the sequence space is the furthest that `base_seq` can stand behind `highest_seq`.
unfoldable pub drain_ready :
    ReorderBuffer → ℕ → List DrainItem → Option (ReorderBuffer × List DrainItem)
unfolding drain_loop
drain_ready b now out = drain_loop (2 ^ 15 + 2) b now out

drain_time_at : Option ℕ → ReorderBuffer → ℕ → Option ℕ
drain_time_at none b now = none
drain_time_at (some base) b now =
    let slot = b.slots (bit_and base b.mask) in
    if not (slot.seq == base) then some now else elim slot.state [
      | filled dat arrival ↦ some (arrival + b.buffer_time)
      | gap first_noticed ↦ some (first_noticed + b.buffer_time)
      | empty ↦ none
    ]

-- `now` is what `Instant::now()` answers.
unfoldable pub next_drain_time : ReorderBuffer → ℕ → Option ℕ
unfolding drain_time_at
next_drain_time b now = drain_time_at b.base_seq b now
