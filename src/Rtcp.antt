-- ===== src/Rtcp.antt =====
-- The common header of rist-protocol/src/packet/rtcp.rs.
pub mod Header
use bilbycast_rist.Prelude.{
  ℕ, ◌+◌, ◌*◌, ◌/◌, ◌^◌, ◌≤◌, ◌<◌, Bool, true, false, List, [], ◌∷◌, if◌then◌else◌, ltb, ◌==◌, not,
  bit_and, length,
}
use bilbycast_rist.Wire.{
  Buf, Result, ok, err, panic, packet_too_short, invalid_rtp_version, or_panic, guard, ◌>>=◌, ◌>>◌,
}

pub record RtcpCommonHeader : Type 0 where
  pub version : ℕ
  pub padding : Bool
  pub count : ℕ
  pub packet_type : ℕ
  pub length_words : ℕ

module _ (w : Buf) where
  unfoldable pub parse_header : List ℕ → Result RtcpCommonHeader
  parse_header buf = do
    guard (not (ltb (length buf) 4)) (packet_too_short 4 (length buf))
    (first, r1) ← or_panic (w.get_u8 buf)
    guard (bit_and (first / 2 ^ 6) 0x03 == 2) (invalid_rtp_version (bit_and (first / 2 ^ 6) 0x03))
    (packet_type, r2) ← or_panic (w.get_u8 r1)
    (words, r3) ← or_panic (w.get_u16 r2)
    ok (record {
      version = bit_and (first / 2 ^ 6) 0x03;
      padding = not (bit_and (first / 2 ^ 5) 0x01 == 0);
      count = bit_and first 0x1f;
      packet_type = packet_type;
      length_words = words;
    })

abbrev pub packet_size : RtcpCommonHeader → ℕ
packet_size h = (h.length_words + 1) * 4
