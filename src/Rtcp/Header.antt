-- ===== src/Rtcp/Header.antt =====
-- The common header, read from its four bytes.
use bilbycast_rist.Prelude.{
  ℕ, ◌+◌, ◌*◌, ◌/◌, ◌%◌, ◌^◌, ◌<◌, ◌≡◌, ◌∙◌, refl, sym, inl, inr, arith, false, List, [], ◌∷◌, ◌++◌,
  ltb, ◌==◌, not, bit_and, length, Bool-cases,
}
use bilbycast_rist.Prelude.Bits.{bit_and-mask}
use bilbycast_rist.Wire.{Buf, Result, ok, guard, ◌>>◌, invalid_rtp_version}
use bilbycast_rist.Wire.BigEndian.{IsBigEndian}
use bilbycast_rist.Rtcp.{RtcpCommonHeader, parse_header}

pub parse_header-bytes :
    {w : Buf} (be : IsBigEndian w) (count packet_type words : ℕ) (body : List ℕ)
    → count < 2 ^ 5
    → parse_header w ((0x80 + count) ∷ packet_type ∷ words / 2 ^ 8 ∷ words % 2 ^ 8 ∷ body)
      ≡ ok (record {
        version = 2;
        padding = false;
        count = count;
        packet_type = packet_type;
        length_words = words;
      })
unfolding parse_header
parse_header-bytes {w} be count packet_type words body h =
    let long : ltb (length ((0x80 + count) ∷ packet_type ∷ words / 2 ^ 8 ∷ words % 2 ^ 8 ∷ body)) 4
        ≡ false =
      ground arith in
    let version : (0x80 + count) / 2 ^ 6 ≡ 2 = omega arith in
    let padding : (0x80 + count) / 2 ^ 5 ≡ 4 = omega arith in
    let low : bit_and (0x80 + count) 0x1f ≡ count = bit_and-mask 5 (0x80 + count) ∙ omega arith in
    let whole : words / 2 ^ 8 * 2 ^ 8 + words % 2 ^ 8 ≡ words = omega arith in
    rw long (
      rw (be.get_u8_be (0x80 + count) (packet_type ∷ words / 2 ^ 8 ∷ words % 2 ^ 8 ∷ body)) (
        rw version (
          rw (be.get_u8_be packet_type (words / 2 ^ 8 ∷ words % 2 ^ 8 ∷ body)) (
            rw (be.get_u16_be (words / 2 ^ 8) (words % 2 ^ 8) body)
              (rw (padding, low, whole) refl)))))

-- What the parser makes of a header's four bytes.
abbrev pub header_of : ℕ → ℕ → ℕ → ℕ → Result RtcpCommonHeader
header_of a b c d =
    guard (bit_and (a / 2 ^ 6) 0x03 == 2) (invalid_rtp_version (bit_and (a / 2 ^ 6) 0x03))
    >> ok (record {
      version = bit_and (a / 2 ^ 6) 0x03;
      padding = not (bit_and (a / 2 ^ 5) 0x01 == 0);
      count = bit_and a 0x1f;
      packet_type = b;
      length_words = c * 2 ^ 8 + d;
    })

pub parse_header-eq-header_of :
    {w : Buf} (be : IsBigEndian w) (a b c d : ℕ) (r : List ℕ)
    → parse_header w (a ∷ b ∷ c ∷ d ∷ r) ≡ header_of a b c d
unfolding parse_header
parse_header-eq-header_of {w} be a b c d r =
    let long : ltb (length (a ∷ b ∷ c ∷ d ∷ r)) 4 ≡ false = ground arith in
    rw long (
      rw (be.get_u8_be a (b ∷ c ∷ d ∷ r)) (elim (Bool-cases (bit_and (a / 2 ^ 6) 0x03 == 2)) [
        | inl e ↦ rw e (rw (be.get_u8_be b (c ∷ d ∷ r)) (rw (be.get_u16_be c d r) refl))
        | inr e ↦ rw e refl
      ]))

-- A header that parses does so whatever follows.
pub parse_header-append :
    {w : Buf} (be : IsBigEndian w) (buf rest : List ℕ) {h : RtcpCommonHeader}
    → parse_header w buf ≡ ok h
    → parse_header w (buf ++ rest) ≡ ok h
unfolding parse_header
parse_header-append be [] rest e = cc
parse_header-append be (a ∷ []) rest e = cc
parse_header-append be (a ∷ b ∷ []) rest e = cc
parse_header-append be (a ∷ b ∷ c ∷ []) rest e = cc
parse_header-append be (a ∷ b ∷ c ∷ d ∷ r) rest e =
    parse_header-eq-header_of be a b c d (r ++ rest)
    ∙ sym (parse_header-eq-header_of be a b c d r)
    ∙ e
