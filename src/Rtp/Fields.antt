-- ===== src/Rtp/Fields.antt =====
-- The bit fields of the first two bytes.
use bilbycast_rist.Prelude.{
  ℕ, ◌+◌, ◌*◌, ◌/◌, ◌^◌, ◌<◌, ◌≡◌, ◌∙◌, ap, arith, Bool, true, false, ◌==◌, not, bit_and, bit_or,
  bit_of, u8,
}
use bilbycast_rist.Prelude.Bits.{bit_or-shifted, bit_and-mask}

-- The first byte, of a header of version 2.
pub packed_first :
    (p e : Bool) (c : ℕ)
    → c < 2 ^ 4
    → bit_or
        (bit_or (bit_or (u8 (2 * 2 ^ 6)) (bit_of p * 2 ^ 5)) (bit_of e * 2 ^ 4))
        (bit_and c 0x0f)
      ≡ 0x80 + bit_of p * 2 ^ 5 + bit_of e * 2 ^ 4 + c
packed_first true true c h =
    ap (bit_or 0xb0) (bit_and-mask 4 c ∙ omega arith) ∙ bit_or-shifted 4 0xb c h
packed_first true false c h =
    ap (bit_or 0xa0) (bit_and-mask 4 c ∙ omega arith) ∙ bit_or-shifted 4 0xa c h
packed_first false true c h =
    ap (bit_or 0x90) (bit_and-mask 4 c ∙ omega arith) ∙ bit_or-shifted 4 0x9 c h
packed_first false false c h =
    ap (bit_or 0x80) (bit_and-mask 4 c ∙ omega arith) ∙ bit_or-shifted 4 0x8 c h

pub packed_second :
    (m : Bool) (t : ℕ)
    → t < 2 ^ 7
    → bit_or (bit_of m * 2 ^ 7) (bit_and t 0x7f) ≡ bit_of m * 2 ^ 7 + t
packed_second true t h = ap (bit_or 0x80) (bit_and-mask 7 t ∙ omega arith) ∙ bit_or-shifted 7 1 t h
packed_second false t h = ap (bit_or 0) (bit_and-mask 7 t ∙ omega arith) ∙ bit_or-shifted 7 0 t h

pub version_of :
    (p e : Bool) (c : ℕ)
    → c < 2 ^ 4
    → bit_and ((0x80 + bit_of p * 2 ^ 5 + bit_of e * 2 ^ 4 + c) / 2 ^ 6) 0x03 ≡ 2
version_of true true c h = ap (λ (t : ℕ). bit_and t 0x03) {y = 2} (omega arith)
version_of true false c h = ap (λ (t : ℕ). bit_and t 0x03) {y = 2} (omega arith)
version_of false true c h = ap (λ (t : ℕ). bit_and t 0x03) {y = 2} (omega arith)
version_of false false c h = ap (λ (t : ℕ). bit_and t 0x03) {y = 2} (omega arith)

pub padding_of :
    (p e : Bool) (c : ℕ)
    → c < 2 ^ 4
    → not (bit_and ((0x80 + bit_of p * 2 ^ 5 + bit_of e * 2 ^ 4 + c) / 2 ^ 5) 0x01 == 0) ≡ p
padding_of true true c h = ap (λ (t : ℕ). not (bit_and t 0x01 == 0)) {y = 5} (omega arith)
padding_of true false c h = ap (λ (t : ℕ). not (bit_and t 0x01 == 0)) {y = 5} (omega arith)
padding_of false true c h = ap (λ (t : ℕ). not (bit_and t 0x01 == 0)) {y = 4} (omega arith)
padding_of false false c h = ap (λ (t : ℕ). not (bit_and t 0x01 == 0)) {y = 4} (omega arith)

pub extension_of :
    (p e : Bool) (c : ℕ)
    → c < 2 ^ 4
    → not (bit_and ((0x80 + bit_of p * 2 ^ 5 + bit_of e * 2 ^ 4 + c) / 2 ^ 4) 0x01 == 0) ≡ e
extension_of true true c h = ap (λ (t : ℕ). not (bit_and t 0x01 == 0)) {y = 11} (omega arith)
extension_of true false c h = ap (λ (t : ℕ). not (bit_and t 0x01 == 0)) {y = 10} (omega arith)
extension_of false true c h = ap (λ (t : ℕ). not (bit_and t 0x01 == 0)) {y = 9} (omega arith)
extension_of false false c h = ap (λ (t : ℕ). not (bit_and t 0x01 == 0)) {y = 8} (omega arith)

pub csrc_of :
    (p e : Bool) (c : ℕ)
    → c < 2 ^ 4
    → bit_and (0x80 + bit_of p * 2 ^ 5 + bit_of e * 2 ^ 4 + c) 0x0f ≡ c
csrc_of p e c h = bit_and-mask 4 (0x80 + bit_of p * 2 ^ 5 + bit_of e * 2 ^ 4 + c) ∙ omega arith

pub marker_of :
    (m : Bool) (t : ℕ) → t < 2 ^ 7 → not (bit_and ((bit_of m * 2 ^ 7 + t) / 2 ^ 7) 0x01 == 0) ≡ m
marker_of true t h = ap (λ (t : ℕ). not (bit_and t 0x01 == 0)) {y = 1} (omega arith)
marker_of false t h = ap (λ (t : ℕ). not (bit_and t 0x01 == 0)) {y = 0} (omega arith)

pub payload_type_of : (m : Bool) (t : ℕ) → t < 2 ^ 7 → bit_and (bit_of m * 2 ^ 7 + t) 0x7f ≡ t
payload_type_of m t h = bit_and-mask 7 (bit_of m * 2 ^ 7 + t) ∙ omega arith
