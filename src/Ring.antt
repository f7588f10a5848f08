-- ===== src/Ring.antt =====
-- The index arithmetic of the flat rings: `seq as usize & mask` with `mask = capacity - 1` at a
-- capacity that is a power of two, as in rist-protocol/src/protocol/reorder.rs and nack_tracker.rs.
pub mod Tests
use Prim.Native.Nat.{◌∣◌}
use native.Mathlib.Nat.{
  mod-mod_of_dvd, dvd-mul_right, mod-lt, one-le-pow, div-add-mod', add-mod_right,
}
use native.Mathlib.Decide.{dec_le}
use bilbycast_rist.Prelude.{
  ℕ, ◌+◌, ◌-◌, ◌*◌, ◌%◌, ◌^◌, ◌<◌, ◌≡◌, ◌∙◌, ap, arith, bit_and, wrapping_add, sym, subst,
}
use bilbycast_rist.Prelude.Bits.{bit_and-mask}

abbrev pub slot_index : ℕ → ℕ → ℕ
slot_index mask s = bit_and s mask

-- A capacity that is a power of two and divides the sequence space, with its mask.
pub record IsRing (mask cap : ℕ) : Type 0 where
  pub masked : mask ≡ cap - 1
  pub exponent : ℕ
  pub power : cap ≡ 2 ^ exponent
  pub turns : ℕ
  pub divides : cap * turns ≡ 2 ^ 16

pub IsRing-pos : {mask cap : ℕ} → IsRing mask cap → 0 < cap
IsRing-pos r = omega (arith, r.power, one-le-pow r.exponent 2)

pub slot_index_lem : {mask cap : ℕ} (s : ℕ) → IsRing mask cap → slot_index mask s ≡ s % cap
slot_index_lem {mask} {cap} s r =
    subst (λ m. bit_and s m ≡ s % cap) (sym r.masked)
      (subst (λ c. bit_and s (c - 1) ≡ s % c) (sym r.power) (bit_and-mask r.exponent s))

-- No access is out of range.
pub slot_index-lt : {mask cap : ℕ} (s : ℕ) → IsRing mask cap → slot_index mask s < cap
slot_index-lt {mask} {cap} s r =
    omega (arith, slot_index_lem s r, mod-lt s {m = cap} (IsRing-pos r))

mod_wrap : {mask cap : ℕ} (x : ℕ) → IsRing mask cap → x % 2 ^ 16 % cap ≡ x % cap
mod_wrap {mask} {cap} x r =
    mod-mod_of_dvd cap x (subst (λ b. cap ∣ b) r.divides (dvd-mul_right cap r.turns))

pub slot_index-wrapping_add :
    {mask cap : ℕ} (b i : ℕ) → IsRing mask cap → slot_index mask (wrapping_add b i) ≡ (b + i) % cap
slot_index-wrapping_add b i r = slot_index_lem (wrapping_add b i) r ∙ mod_wrap (b + i) r

-- Equal remainders of two numbers less than `cap` apart make them equal.
pub mod_inj : (cap a d : ℕ) → d < cap → (a + d) % cap ≡ a % cap → d ≡ 0
mod_inj cap a d h e = grind (arith, div-add-mod' (a + d) cap, div-add-mod' a cap)

-- Two positions of one window of `cap` numbers that share a slot are the same.
pub slot_index-inj :
    {mask cap : ℕ} (b i j : ℕ)
    → IsRing mask cap
    → i < cap
    → j < cap
    → slot_index mask (wrapping_add b i) ≡ slot_index mask (wrapping_add b j)
    → i ≡ j
slot_index-inj {mask} {cap} b i j r hi hj e =
    let f : (b + i) % cap ≡ (b + j) % cap =
      sym (slot_index-wrapping_add b i r) ∙ e ∙ slot_index-wrapping_add b j r in
    elim (dec_le i j) [
      | yes le ↦ omega (
        arith,
        mod_inj cap (b + i) (j - i) (omega arith)
            (ap (λ (t : ℕ). t % cap) {x = b + i + (j - i)} {y = b + j} (omega arith) ∙ sym f),
      )
      | no gt ↦ omega (
        arith,
        mod_inj cap (b + j) (i - j) (omega arith)
            (ap (λ (t : ℕ). t % cap) {x = b + j + (i - j)} {y = b + i} (omega arith) ∙ f),
      )
    ]

-- One turn of the ring further is the same slot.
pub slot_index-turn :
    {mask cap : ℕ} (b i : ℕ)
    → IsRing mask cap
    → slot_index mask (wrapping_add b (i + cap)) ≡ slot_index mask (wrapping_add b i)
slot_index-turn {mask} {cap} b i r =
    slot_index-wrapping_add b (i + cap) r
    ∙ ap (λ (t : ℕ). t % cap) {x = b + (i + cap)} {y = b + i + cap} (omega arith)
    ∙ add-mod_right (b + i) cap
    ∙ sym (slot_index-wrapping_add b i r)
