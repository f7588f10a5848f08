-- ===== src/Compound/Tests.antt =====
-- Compound datagrams at concrete inputs, after the unit tests of rist-protocol/src/packet/rtcp.rs.
use bilbycast_rist.Prelude.{ℕ, ◌≤◌, ◌≡◌, ◌≢◌, ◌⊎◌, refl, arith, List, [], ◌∷◌, length}
use bilbycast_rist.Wire.{ok, err, invalid_rtp_version}
use bilbycast_rist.Wire.BigEndian.{big_endian, big_endian-IsBigEndian}
use bilbycast_rist.Report.Tests.{description, blocks_fit}
use bilbycast_rist.Report.Tests
use bilbycast_rist.Report.{parse_sr}
use bilbycast_rist.Rtcp.{parse_header}
use bilbycast_rist.Nack.{bitmask}
use bilbycast_rist.Compound.{
  RtcpPacket, receiver_report, sdes, nack, unknown_packet, parse_compound, serialize_compound,
  max_rtcp_sub_packets,
}
use bilbycast_rist.Compound.Frames.{parse-serialize_compound}
use bilbycast_rist.Compound.Total.{parse_compound_total}

abbrev as_is : List ℕ → List ℕ
as_is bytes = bytes

abbrev packets : List RtcpPacket
packets =
    receiver_report Tests.receiver_report
    ∷ sdes description
    ∷ nack (record {
      sender_ssrc = 1;
      media_ssrc = 2;
      entries = bitmask (record { pid = 65535; blp = 3 } ∷ []);
    })
    ∷ []

parse-serialize_compound_example :
    parse_compound big_endian as_is (serialize_compound big_endian packets) ≡ ok packets
parse-serialize_compound_example =
    parse-serialize_compound big_endian-IsBigEndian as_is packets (omega arith) (
      (omega arith, blocks_fit, omega arith),
      (
        (omega arith, omega arith, refl),
        (
          (
            record {
              sender_fits = omega arith;
              media_fits = omega arith;
              entries_fit = omega arith;
            },
            omega arith,
          ),
          tt,
        ),
      ),
    )

-- A sender report without its fields, an extension, and a packet cut short.
abbrev broken : List ℕ
broken = 0x80 ∷ 200 ∷ 0 ∷ 0 ∷ 0x80 ∷ 77 ∷ 0 ∷ 0 ∷ 0x80 ∷ 205 ∷ 0 ∷ 9 ∷ []

parse_compound_total_example :
    ((ps : List RtcpPacket) × (parse_compound big_endian as_is broken ≡ ok ps)
      × (length ps ≤ max_rtcp_sub_packets))
    ⊎ ((v : ℕ) × (parse_compound big_endian as_is broken ≡ err (invalid_rtp_version v)) × (v ≢ 2))
parse_compound_total_example = parse_compound_total big_endian-IsBigEndian as_is broken

lenient :
    parse_compound big_endian as_is broken ≡ ok (unknown_packet 200 [] ∷ unknown_packet 77 [] ∷ [])
unfolding parse_compound parse_sr parse_header
lenient = refl

-- A bad version anywhere loses the packets before it.
strict :
    parse_compound big_endian as_is (0x80 ∷ 77 ∷ 0 ∷ 0 ∷ 0x40 ∷ 77 ∷ 0 ∷ 0 ∷ [])
    ≡ err (invalid_rtp_version 1)
unfolding parse_compound parse_header
strict = refl
