-- ===== src/Rtp.antt =====
-- RTP packets, rist-protocol/src/packet/rtp.rs.
pub mod Tests
pub mod Fields
pub mod Header
use bilbycast_rist.Prelude.{
  ℕ, ◌+◌, ◌-◌, ◌*◌, ◌/◌, ◌%◌, ◌^◌, Bool, true, false, List, [], ◌∷◌, ◌++◌, if◌then◌else◌, ltb, ◌==◌,
  not, bit_and, bit_or, length, u8, bit_of, drop, get_elem?,
}
use bilbycast_rist.Wire.{
  Buf, Result, ok, err, panic, packet_too_short, invalid_rtp_version, or_panic, guard, ◌>>=◌, ◌>>◌,
}
use bilbycast_rist.Guard.{clear_lsb}

abbrev pub rtp_header_size : ℕ
rtp_header_size = 12

pub record RtpHeader : Type 0 where
  pub version : ℕ
  pub padding : Bool
  pub extension : Bool
  pub csrc_count : ℕ
  pub marker : Bool
  pub payload_type : ℕ
  pub sequence_number : ℕ
  pub timestamp : ℕ
  pub ssrc : ℕ

unfoldable pub is_retransmit : RtpHeader → Bool
is_retransmit h = not (bit_and h.ssrc 1 == 0)

unfoldable pub logical_ssrc : RtpHeader → ℕ
logical_ssrc h = clear_lsb h.ssrc

unfoldable pub new_ts : ℕ → ℕ → ℕ → RtpHeader
new_ts ssrc seq timestamp = record {
  version = 2;
  padding = false;
  extension = false;
  csrc_count = 0;
  marker = false;
  payload_type = 33;
  sequence_number = seq;
  timestamp = timestamp;
  ssrc = ssrc;
}

pub record RtpPacket : Type 0 where
  pub header : RtpHeader
  pub payload : List ℕ

-- `buf[i]`
abbrev pub byte_at : List ℕ → ℕ → Result ℕ
byte_at buf i = or_panic (get_elem? buf i)

-- The offset of the payload, past an extension header if there is one.
abbrev pub skip_extension : Bool → List ℕ → ℕ → Result ℕ
skip_extension false buf offset = ok offset
skip_extension true buf offset = do
  guard (not (ltb (length buf) (offset + 4))) (packet_too_short (offset + 4) (length buf))
  hi ← byte_at buf (offset + 2)
  lo ← byte_at buf (offset + 3)
  guard (not (ltb (length buf) (offset + (4 + (hi * 2 ^ 8 + lo) * 4))))
      (packet_too_short (offset + (4 + (hi * 2 ^ 8 + lo) * 4)) (length buf))
  ok (offset + (4 + (hi * 2 ^ 8 + lo) * 4))

abbrev pub first_byte : RtpHeader → ℕ
first_byte h =
    bit_or
      (bit_or (bit_or (u8 (h.version * 2 ^ 6)) (bit_of h.padding * 2 ^ 5))
        (bit_of h.extension * 2 ^ 4))
      (bit_and h.csrc_count 0x0f)

abbrev pub second_byte : RtpHeader → ℕ
second_byte h = bit_or (bit_of h.marker * 2 ^ 7) (bit_and h.payload_type 0x7f)

module _ (w : Buf) where
  unfoldable pub parse_header : List ℕ → Result (RtpHeader × ℕ)
  parse_header buf = do
    guard (not (ltb (length buf) rtp_header_size)) (packet_too_short rtp_header_size (length buf))
    (first, r1) ← or_panic (w.get_u8 buf)
    guard (bit_and (first / 2 ^ 6) 0x03 == 2) (invalid_rtp_version (bit_and (first / 2 ^ 6) 0x03))
    (second, r2) ← or_panic (w.get_u8 r1)
    (sequence_number, r3) ← or_panic (w.get_u16 r2)
    (timestamp, r4) ← or_panic (w.get_u32 r3)
    (ssrc, r5) ← or_panic (w.get_u32 r4)
    guard (not (ltb (length buf) (rtp_header_size + bit_and first 0x0f * 4)))
        (packet_too_short (rtp_header_size + bit_and first 0x0f * 4) (length buf))
    ok (
      record {
        version = bit_and (first / 2 ^ 6) 0x03;
        padding = not (bit_and (first / 2 ^ 5) 0x01 == 0);
        extension = not (bit_and (first / 2 ^ 4) 0x01 == 0);
        csrc_count = bit_and first 0x0f;
        marker = not (bit_and (second / 2 ^ 7) 0x01 == 0);
        payload_type = bit_and second 0x7f;
        sequence_number = sequence_number;
        timestamp = timestamp;
        ssrc = ssrc;
      },
      rtp_header_size + bit_and first 0x0f * 4,
    )

  unfoldable pub serialize_header : RtpHeader → List ℕ
  serialize_header h =
      w.put_u8 (first_byte h)
      ++ (w.put_u8 (second_byte h)
          ++ (w.put_u16 h.sequence_number ++ (w.put_u32 h.timestamp ++ w.put_u32 h.ssrc)))

  unfoldable pub parse : List ℕ → Result RtpPacket
  unfolding parse_header
  parse buf = do
    (header, header_size) ← parse_header buf
    offset ← skip_extension header.extension buf header_size
    ok (record { header = header; payload = drop offset buf })

  unfoldable pub serialize : RtpPacket → List ℕ
  unfolding serialize_header
  serialize p = serialize_header p.header ++ p.payload
