-- ===== src/Prelude/Int.antt =====
-- Signed integers over the native numbers, and the reading of a word as `i16`.
use Prim.Native.Nat.{ℕ, zero, suc, ◌-◌, ◌^◌, ◌≤◌, ◌<◌}
use mathlib.Core.Path.{◌≡◌}
use mathlib.Core.Bool.{Bool, true, false}
use mathlib.Core.Logic.{◌⊎◌}
use native.Mathlib.Omega.{arith}
use bilbycast_rist.Prelude.Tests.{ltb, if◌then◌else◌}

-- `negsuc n` is -(n + 1).
pub data ℤ : Type 0 where
  pos : ℕ → ℤ
  negsuc : ℕ → ℤ

-- `x as i16`, for the bits `x` of a `u16`.
abbrev pub signed16 : ℕ → ℤ
signed16 w = if ltb w (2 ^ 15) then pos w else negsuc (2 ^ 16 - w - 1)

-- `x > 0`, `x == 0` and `x < 0`
abbrev pub is_positive : ℤ → Bool
is_positive (pos zero) = false
is_positive (pos (suc n)) = true
is_positive (negsuc n) = false

abbrev pub is_zero : ℤ → Bool
is_zero (pos zero) = true
is_zero (pos (suc n)) = false
is_zero (negsuc n) = false

abbrev pub is_negative : ℤ → Bool
is_negative (pos n) = false
is_negative (negsuc n) = true

-- The tests as bounds on the bits.
pub positive16 : (w : ℕ) → 0 < w → w < 2 ^ 15 → is_positive (signed16 w) ≡ true
positive16 w h k = ground arith

pub not_positive16 : (w : ℕ) → 2 ^ 15 ≤ w → is_positive (signed16 w) ≡ false
not_positive16 w h = ground arith

pub positive16_bounds : (w : ℕ) → is_positive (signed16 w) ≡ true → (0 < w) × (w < 2 ^ 15)
positive16_bounds w h = ground arith

pub not_positive16_cases : (w : ℕ) → (w ≡ 0) ⊎ (2 ^ 15 ≤ w) → is_positive (signed16 w) ≡ false
not_positive16_cases w h = ground arith
