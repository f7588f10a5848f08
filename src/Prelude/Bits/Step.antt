-- ===== src/Prelude/Bits/Step.antt =====
-- One equation for the lowest digit of `&` and of `|`: the native operations mean `bitwise`, a
-- recursion on the digits with fuel, and more fuel changes nothing.
use Prim.Native.Nat.{ℕ, zero, suc, ◌+◌, ◌*◌, ◌/◌, ◌%◌, ◌≤◌, min, max, bit_and, bit_or}
use Prim.Native.Nat.{digits, bitwise, bit_and-bitwise, bit_or-bitwise}
use mathlib.Core.Path.{◌≡◌, refl}
use native.Mathlib.Nat.{le_refl}
use native.Mathlib.Omega.{arith}

module _ (left : ℕ → ℕ) (op : ℕ → ℕ → ℕ) where
  enough_fuel : (m n a b : ℕ) → a ≤ m → a ≤ n → digits left op m a b ≡ digits left op n a b
  enough_fuel zero zero a b h k = refl
  enough_fuel zero (suc n) zero b h k = refl
  enough_fuel zero (suc n) (suc a) b h k = absurd (omega arith)
  enough_fuel (suc m) zero zero b h k = refl
  enough_fuel (suc m) zero (suc a) b h k = absurd (omega arith)
  enough_fuel (suc m) (suc n) zero b h k = refl
  enough_fuel (suc m) (suc n) (suc a) b h k =
      rw (enough_fuel m n (suc a / 2) (b / 2) (omega arith) (omega arith))

  bitwise-digits :
      (a b : ℕ)
      → bitwise left op (suc a) b ≡ bitwise left op (suc a / 2) (b / 2) * 2 + op (suc a % 2) (b % 2)
  bitwise-digits a b =
      omega (arith, enough_fuel a (suc a / 2) (suc a / 2) (b / 2) (omega arith) (le_refl _))

pub bit_or-digits : (a b : ℕ) → bit_or a b ≡ bit_or (a / 2) (b / 2) * 2 + max (a % 2) (b % 2)
bit_or-digits zero b = simp bit_or-bitwise (omega arith)
bit_or-digits (suc a) b = simp bit_or-bitwise (bitwise-digits (λ y. y) max a b)

pub bit_and-digits : (a b : ℕ) → bit_and a b ≡ bit_and (a / 2) (b / 2) * 2 + min (a % 2) (b % 2)
bit_and-digits zero b = simp bit_and-bitwise (omega arith)
bit_and-digits (suc a) b = simp bit_and-bitwise (bitwise-digits (λ y. 0) min a b)
