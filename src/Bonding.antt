-- ===== src/Bonding.antt =====
-- The bonding merger, rist-protocol/src/protocol/bonding.rs. The bitmap is its `u64` words.
pub mod Tests
pub mod Bitmap
pub mod Window
pub mod Refine
use bilbycast_rist.Prelude.{
  ℕ, zero, suc, ◌+◌, ◌-◌, ◌*◌, ◌/◌, ◌%◌, ◌^◌, Bool, true, false, Option, none, some, List,
  if◌then◌else◌, ltb, leb, ◌==◌, not, bit_and, bit_or, wrapping_add, wrapping_sub, update,
}
use bilbycast_rist.Prelude.Int.{signed16, is_positive, is_zero}

abbrev pub window_size : ℕ
window_size = 1024

pub record BondingMerger : Type 0 where
  pub bitmap : ℕ → ℕ
  pub highest_seq : Option ℕ
  pub packets_emitted : ℕ
  pub duplicates_dropped : ℕ
  pub late_dropped : ℕ

unfoldable pub new : BondingMerger
new = record {
  bitmap = λ _. 0;
  highest_seq = none;
  packets_emitted = 0;
  duplicates_dropped = 0;
  late_dropped = 0;
}

unfoldable pub mark_seq : (ℕ → ℕ) → ℕ → ℕ → ℕ
mark_seq bitmap seq =
    let idx = seq % window_size in
    update bitmap (idx / 64) (bit_or (bitmap (idx / 64)) (2 ^ (idx % 64)))

unfoldable pub is_seq_marked : (ℕ → ℕ) → ℕ → Bool
is_seq_marked bitmap seq =
    let idx = seq % window_size in not (bit_and (bitmap (idx / 64)) (2 ^ (idx % 64)) == 0)

-- `&= !(1u64 << bit)`
unfoldable pub clear_seq : (ℕ → ℕ) → ℕ → ℕ → ℕ
clear_seq bitmap seq =
    let idx = seq % window_size in
    update bitmap (idx / 64) (bit_and (bitmap (idx / 64)) (2 ^ 64 - 1 - 2 ^ (idx % 64)))

-- `for i in 1..=advance`, with `n` turns from `i` on.
unfoldable pub clear_run : ℕ → ℕ → (ℕ → ℕ) → ℕ → ℕ → ℕ
unfolding clear_seq
clear_run zero i bitmap highest = bitmap
clear_run (suc n) i bitmap highest =
    clear_run n (i + 1) (clear_seq bitmap (wrapping_add highest i)) highest

unfoldable pub advance_window : (ℕ → ℕ) → ℕ → ℕ → ℕ → ℕ
unfolding clear_run
advance_window bitmap highest advance =
    if leb window_size advance then (λ _. 0) else clear_run advance 1 bitmap highest

-- The three outcomes of a packet: emitted with the bitmap `marks`, a duplicate, or too late.
abbrev pub emit : BondingMerger → (ℕ → ℕ) → Option ℕ → List ℕ → BondingMerger × Option (List ℕ)
emit m marks highest payload = (
  record m { bitmap = marks; highest_seq = highest; packets_emitted = m.packets_emitted + 1 },
  some payload,
)

abbrev pub drop_duplicate : BondingMerger → BondingMerger × Option (List ℕ)
drop_duplicate m = (record m { duplicates_dropped = m.duplicates_dropped + 1 }, none)

abbrev pub drop_late : BondingMerger → BondingMerger × Option (List ℕ)
drop_late m = (record m { late_dropped = m.late_dropped + 1 }, none)

-- `process` once a packet has been seen. `diff` is the difference as the bits of an `i16`, and
-- `2 ^ 16 - diff` is `-diff` for a negative one; at -32768, whose negation is out of range, both the
-- wrapped value and this one lie outside the window.
unfoldable pub process_after : BondingMerger → ℕ → ℕ → List ℕ → BondingMerger × Option (List ℕ)
unfolding advance_window is_seq_marked mark_seq
process_after m highest seq payload =
    let diff = wrapping_sub seq highest in
    if is_positive (signed16 diff)
    then emit m (mark_seq (advance_window m.bitmap highest diff) seq) (some seq) payload
    else if is_zero (signed16 diff)
    then drop_duplicate m
    else if leb window_size (2 ^ 16 - diff)
    then drop_late m
    else if is_seq_marked m.bitmap seq
    then drop_duplicate m
    else emit m (mark_seq m.bitmap seq) (some highest) payload

abbrev pub process_at : Option ℕ → BondingMerger → ℕ → List ℕ → BondingMerger × Option (List ℕ)
process_at none m seq payload = emit m (mark_seq (λ _. 0) seq) (some seq) payload
process_at (some highest) m seq payload = process_after m highest seq payload

unfoldable pub process : BondingMerger → ℕ → List ℕ → BondingMerger × Option (List ℕ)
unfolding process_after mark_seq
process m seq payload = process_at m.highest_seq m seq payload
