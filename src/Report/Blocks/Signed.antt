-- ===== src/Report/Blocks/Signed.antt =====
-- The word that holds the fraction and the signed 24 bits of a report block.
use bilbycast_rist.Prelude.{
  ℕ, ◌+◌, ◌-◌, ◌*◌, ◌/◌, ◌%◌, ◌^◌, ◌<◌, ◌≡◌, ◌∙◌, refl, ap, arith, true, false, ◌==◌, bit_and,
  bit_or,
}
use bilbycast_rist.Prelude.Bits.{digit, bit_and-mask, bit_and-pow_eq_zero, bit_or-shifted}
use bilbycast_rist.Prelude.Int.{ℤ, pos, negsuc}
use bilbycast_rist.Report.{ReportBlock, signed24, unsigned32}

-- A signed number of 24 bits.
abbrev pub Fits24 : ℤ → Type 0
Fits24 (pos n) = n < 2 ^ 23
Fits24 (negsuc n) = n < 2 ^ 23

pub record BlockFits (b : ReportBlock) : Type 0 where
  pub ssrc_fits : b.ssrc < 2 ^ 32
  pub fraction_fits : b.fraction_lost < 2 ^ 8
  pub lost_fits : Fits24 b.cumulative_lost
  pub highest_fits : b.extended_highest_seq < 2 ^ 32
  pub jitter_fits : b.jitter < 2 ^ 32
  pub last_sr_fits : b.last_sr < 2 ^ 32
  pub delay_fits : b.delay_since_last_sr < 2 ^ 32

-- The 24 bits of a number, and the number that they stand for.
abbrev pub bits24 : ℤ → ℕ
bits24 (pos n) = n
bits24 (negsuc n) = 2 ^ 24 - 1 - n

sign_clear : (n : ℕ) → n < 2 ^ 23 → (bit_and n 0x800000 == 0) ≡ true
unfolding digit
sign_clear n h =
    let e : n / 2 ^ 23 ≡ 0 = omega arith in bit_and-pow_eq_zero 23 n ∙ ground (arith, digit_top n)
  where
    digit_top : (x : ℕ) → digit x 23 ≡ x / 2 ^ 23 % 2
    digit_top x = omega arith

sign_set : (n : ℕ) → n < 2 ^ 23 → (bit_and (2 ^ 24 - 1 - n) 0x800000 == 0) ≡ false
unfolding digit
sign_set n h = bit_and-pow_eq_zero 23 (2 ^ 24 - 1 - n) ∙ ground (arith, digit_top (2 ^ 24 - 1 - n))
  where
    digit_top : (x : ℕ) → digit x 23 ≡ x / 2 ^ 23 % 2
    digit_top x = omega arith

pub signed-bits24 : (i : ℤ) → Fits24 i → signed24 (bits24 i) ≡ i
signed-bits24 (pos n) h = rw (sign_clear n h) refl
signed-bits24 (negsuc n) h =
    let e : 2 ^ 24 - (2 ^ 24 - 1 - n) - 1 ≡ n = omega arith in rw (sign_set n h, e) refl

low24 : (i : ℤ) → Fits24 i → bit_and (unsigned32 i) 0x00ffffff ≡ bits24 i
low24 (pos n) h = bit_and-mask 24 (n % 2 ^ 32) ∙ omega arith
low24 (negsuc n) h = bit_and-mask 24 (2 ^ 32 - 1 - n % 2 ^ 32) ∙ omega arith

pub bits24_lt : (i : ℤ) → Fits24 i → bits24 i < 2 ^ 24
bits24_lt (pos n) h = omega arith
bits24_lt (negsuc n) h = omega arith

-- The word that holds the fraction and the count of losses.
abbrev pub lost_word : ReportBlock → ℕ
lost_word b = b.fraction_lost * 2 ^ 24 + bits24 b.cumulative_lost

pub lost_word_lem :
    (b : ReportBlock)
    → BlockFits b
    → bit_or (b.fraction_lost * 2 ^ 24) (bit_and (unsigned32 b.cumulative_lost) 0x00ffffff)
      ≡ lost_word b
lost_word_lem b f =
    ap (bit_or (b.fraction_lost * 2 ^ 24)) (low24 b.cumulative_lost f.lost_fits)
    ∙ bit_or-shifted 24 b.fraction_lost (bits24 b.cumulative_lost)
        (bits24_lt b.cumulative_lost f.lost_fits)
