-- ===== src/Nack/Tests.antt =====
-- NACK packets at concrete inputs, after the unit tests of rist-protocol/src/packet/rtcp_nack.rs.
use bilbycast_rist.Prelude.{ℕ, ◌-◌, ◌≡◌, refl, arith, List, [], ◌∷◌, length, drop}
use bilbycast_rist.Wire.{ok}
use bilbycast_rist.Wire.BigEndian.{big_endian, big_endian-IsBigEndian}
use bilbycast_rist.Rtcp.{RtcpCommonHeader, parse_header, packet_size}
use bilbycast_rist.Nack.{
  packet_seqs, rtcp_pt_rtpfb, NackListBuilder, NackPacket, build_bitmask, build_range, parse,
  serialize, bitmask, range,
}
use bilbycast_rist.Nack.Builder.{contains, seqs-build_range}
use bilbycast_rist.Nack.Bitmask.{contains-build_bitmask}
use bilbycast_rist.Nack.Packet.{parse-serialize}

abbrev builder : NackListBuilder
builder = record { sender_ssrc = 1; media_ssrc = 2 }

-- Two runs, the first of them across the wrap.
abbrev wrapped : List ℕ
wrapped = 65535 ∷ 0 ∷ 1 ∷ 40 ∷ []

seqs-build_range_example : packet_seqs (build_range builder wrapped) ≡ wrapped
seqs-build_range_example =
    seqs-build_range builder wrapped (omega arith, (omega arith, (omega arith, (omega arith, tt))))
      (omega arith)

two_ranges :
    (build_range builder wrapped).entries
    ≡ range (record { start = 65535; extra = 2 } ∷ record { start = 40; extra = 0 } ∷ [])
unfolding build_range
two_ranges = refl

contains-build_bitmask_example :
    contains (packet_seqs (build_bitmask builder wrapped)) 40 ≡ contains wrapped 40
contains-build_bitmask_example =
    contains-build_bitmask builder wrapped 40
      (omega arith, (omega arith, (omega arith, (omega arith, tt)))) (omega arith)

abbrev packet : NackPacket
packet = record {
  sender_ssrc = 1;
  media_ssrc = 2;
  entries = bitmask (record { pid = 65535; blp = 3 } ∷ record { pid = 40; blp = 0 } ∷ []);
}

parse-serialize_example :
    (h : RtcpCommonHeader) × (parse_header big_endian (serialize big_endian packet) ≡ ok h)
    × (h.packet_type ≡ rtcp_pt_rtpfb)
    × (packet_size h ≡ length (serialize big_endian packet))
    × (parse big_endian (drop 4 (serialize big_endian packet)) h.count (packet_size h - 4)
        ≡ ok packet)
parse-serialize_example =
    parse-serialize big_endian-IsBigEndian packet
      (record {
        sender_fits = omega arith;
        media_fits = omega arith;
        entries_fit = ((omega arith, omega arith), ((omega arith, omega arith), tt));
      })
      (omega arith)
