-- ===== src/Prelude/Bits.antt =====
-- `&`, `|` and single bits of numbers, digit by digit.
mod Step
use Step.{bit_or-digits, bit_and-digits}
use Prim.Native.Nat.{
  ℕ, zero, suc, ◌+◌, ◌-◌, ◌*◌, ◌/◌, ◌%◌, ◌^◌, ◌≤◌, ◌<◌, min, max, bit_and, bit_or,
}
use mathlib.Core.Path.{◌≡◌, refl, ap}
use mathlib.Core.Logic.{◌≢◌}
use native.Mathlib.Nat.{pow-suc, one-le-pow}
use native.Mathlib.Omega.{arith}
use bilbycast_rist.Prelude.Tests.{◌==◌, if◌then◌else◌}

-- The binary digit of weight `2 ^ i`.
unfoldable pub digit : ℕ → ℕ → ℕ
digit x zero = x % 2
digit x (suc i) = digit (x / 2) i

pub digit-le : (x i : ℕ) → digit x i ≤ 1
unfolding digit
digit-le x zero = omega arith
digit-le x (suc i) = digit-le (x / 2) i

pub digit-bit_or : (x y i : ℕ) → digit (bit_or x y) i ≡ max (digit x i) (digit y i)
unfolding digit
digit-bit_or x y zero = omega (arith, bit_or-digits x y)
digit-bit_or x y (suc i) =
    let e : bit_or x y / 2 ≡ bit_or (x / 2) (y / 2) = omega (arith, bit_or-digits x y) in
    rw e (digit-bit_or (x / 2) (y / 2) i)

pub digit-bit_and : (x y i : ℕ) → digit (bit_and x y) i ≡ min (digit x i) (digit y i)
unfolding digit
digit-bit_and x y zero = omega (arith, bit_and-digits x y)
digit-bit_and x y (suc i) =
    let e : bit_and x y / 2 ≡ bit_and (x / 2) (y / 2) = omega (arith, bit_and-digits x y) in
    rw e (digit-bit_and (x / 2) (y / 2) i)

pub digit-zero : (i : ℕ) → digit 0 i ≡ 0
unfolding digit
digit-zero zero = refl
digit-zero (suc i) = digit-zero i

-- `1 << j` has the one digit `j`.
pub digit-pow : (j i : ℕ) → digit (2 ^ j) i ≡ (if j == i then 1 else 0)
unfolding digit
digit-pow zero zero = refl
digit-pow zero (suc i) = rw (digit-zero i) (ground arith)
digit-pow (suc j) zero = grind (arith, pow-suc 2 j)
digit-pow (suc j) (suc i) =
    let e : 2 ^ suc j / 2 ≡ 2 ^ j = omega (arith, pow-suc 2 j) in
    rw e (rw (digit-pow j i) (ground arith))

bit_and-zero_right : (k x : ℕ) → x ≤ k → bit_and x 0 ≡ 0
bit_and-zero_right k zero h = refl
bit_and-zero_right zero (suc x) h = absurd (omega arith)
bit_and-zero_right (suc k) (suc x) h =
    omega (arith, bit_and-digits (suc x) 0, bit_and-zero_right k (suc x / 2) (omega arith))

bit_or-zero_right : (k x : ℕ) → x ≤ k → bit_or x 0 ≡ x
bit_or-zero_right k zero h = refl
bit_or-zero_right zero (suc x) h = absurd (omega arith)
bit_or-zero_right (suc k) (suc x) h =
    omega (arith, bit_or-digits (suc x) 0, bit_or-zero_right k (suc x / 2) (omega arith))

-- `x & (1 << i)` is the digit at its weight, so it is nonzero exactly if the digit is 1.
pub bit_and-pow : (i x : ℕ) → bit_and x (2 ^ i) ≡ digit x i * 2 ^ i
unfolding digit
bit_and-pow zero x =
    omega (arith, bit_and-digits x 1, bit_and-zero_right (x / 2) (x / 2) (omega arith))
bit_and-pow (suc i) x =
    let e : 2 ^ suc i / 2 ≡ 2 ^ i = omega (arith, pow-suc 2 i) in
    let ih = bit_and-pow i (x / 2) in
    let step : bit_and x (2 ^ suc i)
        ≡ bit_and (x / 2) (2 ^ suc i / 2) * 2 + min (x % 2) (2 ^ suc i % 2) =
      bit_and-digits x (2 ^ suc i) in
    let s2 : bit_and x (2 ^ suc i) ≡ bit_and (x / 2) (2 ^ i) * 2 + min (x % 2) (2 ^ suc i % 2) =
      rw e at step in
    omega (arith, s2, ih, pow-suc 2 i, ap (λ (t : ℕ). digit (x / 2) i * t) (pow-suc 2 i))

pub bit_and-pow_eq_zero : (i x : ℕ) → (bit_and x (2 ^ i) == 0) ≡ (digit x i == 0)
bit_and-pow_eq_zero i x = ground (arith, bit_and-pow i x, digit-le x i, one-le-pow i 2)

-- `(q << k) | r` is a sum where `r` fits `k` bits.
pub bit_or-shifted : (k q r : ℕ) → r < 2 ^ k → bit_or (q * 2 ^ k) r ≡ q * 2 ^ k + r
bit_or-shifted zero q r h =
    let e : r ≡ 0 = omega arith in
    let q' : q * 2 ^ 0 ≡ q = omega arith in
    rw (e, q', bit_or-zero_right q q (omega arith)) (omega arith)
bit_or-shifted (suc k) q r h =
    let double : q * 2 ^ suc k ≡ 2 * (q * 2 ^ k) =
      omega (arith, ap (λ (t : ℕ). q * t) (pow-suc 2 k)) in
    let half : q * 2 ^ suc k / 2 ≡ q * 2 ^ k = omega arith in
    let step = bit_or-digits (q * 2 ^ suc k) r in
    let s2 : bit_or (q * 2 ^ suc k) r
        ≡ bit_or (q * 2 ^ k) (r / 2) * 2 + max (q * 2 ^ suc k % 2) (r % 2) =
      rw half at step in
    omega (arith, s2, bit_or-shifted k q (r / 2) (omega (arith, pow-suc 2 k)))

mask-fields : (k q r : ℕ) → r < 2 ^ k → bit_and (q * 2 ^ k + r) (2 ^ k - 1) ≡ r
mask-fields zero q r h =
    omega (arith, bit_and-zero_right (q * 2 ^ 0 + r) (q * 2 ^ 0 + r) (omega arith))
mask-fields (suc k) q r h =
    let double : q * 2 ^ suc k ≡ 2 * (q * 2 ^ k) =
      omega (arith, ap (λ (t : ℕ). q * t) (pow-suc 2 k)) in
    ground (
      arith,
      bit_and-digits (q * 2 ^ suc k + r) (2 ^ suc k - 1),
      pow-suc 2 k,
      one-le-pow k 2,
      mask-fields k q (r / 2),
    )

-- `x & (2 ^ k - 1)` is the remainder by `2 ^ k`.
pub bit_and-mask : (k x : ℕ) → bit_and x (2 ^ k - 1) ≡ x % 2 ^ k
bit_and-mask k x = ground (arith, one-le-pow k 2, mask-fields k (x / 2 ^ k) (x % 2 ^ k))

-- `x & !1` on a `u32` clears the lowest bit.
pub bit_and-even : (x : ℕ) → x < 2 ^ 32 → bit_and x (2 ^ 32 - 2) ≡ x / 2 * 2
bit_and-even x h = omega (arith, bit_and-digits x (2 ^ 32 - 2), bit_and-mask 31 (x / 2))

-- `|` keeps within `k` bits.
pub bit_or_lt : (k x y : ℕ) → x < 2 ^ k → y < 2 ^ k → bit_or x y < 2 ^ k
bit_or_lt zero x y h g =
    let x0 : x ≡ 0 = omega arith in let y0 : y ≡ 0 = omega arith in rw (x0, y0) (omega arith)
bit_or_lt (suc k) x y h g = omega (
  arith,
  bit_or-digits x y,
  pow-suc 2 k,
  bit_or_lt k (x / 2) (y / 2) (omega (arith, pow-suc 2 k)) (omega (arith, pow-suc 2 k)),
)

pub pow_lt : (i k : ℕ) → i < k → 2 ^ i < 2 ^ k
pow_lt i zero h = absurd (omega arith)
pow_lt zero (suc k) h = omega (arith, pow-suc 2 k, one-le-pow k 2)
pow_lt (suc i) (suc k) h = omega (arith, pow-suc 2 k, pow-suc 2 i, pow_lt i k (omega arith))
