-- ===== src/Prelude/Words.antt =====
-- Rust's machine integers as native numbers, with the wrap-around written out.
use Prim.Native.Nat.{ℕ, zero, suc, ◌+◌, ◌-◌, ◌*◌, ◌%◌, ◌^◌}
use mathlib.Core.Bool.{Bool, true, false}
use bilbycast_rist.Prelude.Tests.{leb, if◌then◌else◌}

-- `as u8`, `as u16`, `as u32`, `as u64`
abbrev pub u8 : ℕ → ℕ
u8 n = n % 2 ^ 8

abbrev pub u16 : ℕ → ℕ
u16 n = n % 2 ^ 16

abbrev pub u32 : ℕ → ℕ
u32 n = n % 2 ^ 32

abbrev pub u64 : ℕ → ℕ
u64 n = n % 2 ^ 64

-- `u16::wrapping_add` and `u16::wrapping_sub`
abbrev pub wrapping_add : ℕ → ℕ → ℕ
wrapping_add a b = (a + b) % 2 ^ 16

abbrev pub wrapping_sub : ℕ → ℕ → ℕ
wrapping_sub a b = (a + 2 ^ 16 - b) % 2 ^ 16

-- `-` on `u32`, wrapping as a release build does.
abbrev pub wrapping_sub32 : ℕ → ℕ → ℕ
wrapping_sub32 a b = (a + 2 ^ 32 - b) % 2 ^ 32

-- A `bool` cast to a number.
abbrev pub bit_of : Bool → ℕ
bit_of true = 1
bit_of false = 0

-- `usize::next_power_of_two`: doubling from 1, at most 64 times.
unfoldable pub npot_from : ℕ → ℕ → ℕ → ℕ
npot_from zero p n = p
npot_from (suc fuel) p n = let rest = npot_from fuel (p * 2) n in if leb n p then p else rest

unfoldable pub next_power_of_two : ℕ → ℕ
unfolding npot_from
next_power_of_two n = npot_from 64 1 n
