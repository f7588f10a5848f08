-- ===== src/Seq.antt =====
-- 16-bit RTP sequence numbers, rist-protocol/src/packet/seq.rs. A `SeqNo` is its `u16`, a number
-- below 2 ^ 16; `i32` distances are the integers of `Prelude.Int`.
pub mod Laws
mod Tests
use bilbycast_rist.Prelude.{ℕ, ◌+◌, Bool, wrapping_add, wrapping_sub}
use bilbycast_rist.Prelude.Int.{ℤ, pos, negsuc, signed16, is_positive}

-- `std::cmp::Ordering`
pub data Cmp : Type 0 where
  less equal greater : Cmp

unfoldable pub diff : ℕ → ℕ → ℤ
diff a b = signed16 (wrapping_sub b a)

unfoldable pub precedes : ℕ → ℕ → Bool
unfolding diff
precedes a b = is_positive (diff a b)

unfoldable pub next : ℕ → ℕ
next a = wrapping_add a 1

unfoldable pub add : ℕ → ℕ → ℕ
add a n = wrapping_add a n

-- `d.cmp(&0)`
abbrev pub cmp_zero : ℤ → Cmp
cmp_zero (pos ℕ.zero) = equal
cmp_zero (pos (ℕ.suc n)) = greater
cmp_zero (negsuc n) = less

unfoldable pub cmp : ℕ → ℕ → Cmp
unfolding diff
cmp a b = cmp_zero (diff a b)
