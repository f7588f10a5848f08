-- ===== src/Report/Tests.antt =====
-- The report packets at concrete inputs.
use bilbycast_rist.Prelude.{◌^◌, ◌<◌, ◌≡◌, refl, arith, List, [], ◌∷◌, All, length, drop}
use bilbycast_rist.Prelude.Int.{pos, negsuc}
use bilbycast_rist.Wire.{ok}
use bilbycast_rist.Wire.BigEndian.{big_endian, big_endian-IsBigEndian}
use bilbycast_rist.Rtcp.{RtcpCommonHeader, parse_header, packet_size}
use bilbycast_rist.Report.{
  SenderReport, parse_sr, serialize_sr, rtcp_pt_sr, ReportBlock, ReceiverReport, Sdes,
}
use bilbycast_rist.Report.Blocks.{BlockFits, Fits24}
use bilbycast_rist.Report.Description.{serialize_sdes}
use bilbycast_rist.Report.Round.{parse-serialize_sr}

abbrev report : SenderReport
report = record {
  ssrc = 0x12345678;
  ntp_msw = 3_900_000_000;
  ntp_lsw = 0x80000000;
  rtp_timestamp = 90_000;
  sender_packet_count = 1000;
  sender_octet_count = 1_316_000;
}

parse-serialize_sr_example :
    (h : RtcpCommonHeader) × (parse_header big_endian (serialize_sr big_endian report) ≡ ok h)
    × (h.packet_type ≡ rtcp_pt_sr)
    × (packet_size h ≡ length (serialize_sr big_endian report))
    × (length (serialize_sr big_endian report) ≡ 28)
    × (parse_sr big_endian (drop 4 (serialize_sr big_endian report)) ≡ ok report)
parse-serialize_sr_example =
    parse-serialize_sr big_endian-IsBigEndian report
      (omega arith, omega arith, omega arith, omega arith, omega arith, omega arith)

-- A block with a negative count, and one with a positive one.
abbrev blocks : List ReportBlock
blocks =
    record {
      ssrc = 2;
      fraction_lost = 0;
      cumulative_lost = negsuc 2;
      extended_highest_seq = 65540;
      jitter = 7;
      last_sr = 1;
      delay_since_last_sr = 2;
    }
    ∷ record {
      ssrc = 3;
      fraction_lost = 255;
      cumulative_lost = pos 8388607;
      extended_highest_seq = 9;
      jitter = 0;
      last_sr = 0;
      delay_since_last_sr = 0;
    }
    ∷ []

block_fits :
    (h : ReportBlock)
    → (h.ssrc < 2 ^ 32)
      × (h.fraction_lost < 2 ^ 8)
      × Fits24 h.cumulative_lost
      × (h.extended_highest_seq < 2 ^ 32)
      × (h.jitter < 2 ^ 32)
      × (h.last_sr < 2 ^ 32)
      × (h.delay_since_last_sr < 2 ^ 32)
    → BlockFits h
block_fits h f = record {
  ssrc_fits = f.0;
  fraction_fits = f.1;
  lost_fits = f.2;
  highest_fits = f.3;
  jitter_fits = f.4;
  last_sr_fits = f.5;
  delay_fits = f.6;
}

pub blocks_fit : All BlockFits blocks
blocks_fit = (block_fits _ (omega arith), (block_fits _ (omega arith), tt))

abbrev pub receiver_report : ReceiverReport
receiver_report = record { ssrc = 1; reports = blocks }

abbrev pub description : Sdes
description = record { ssrc = 1; cname = 97 ∷ 98 ∷ [] }

-- A name that fills its word is followed by a whole word of zeros.
whole_word :
    serialize_sdes big_endian description
    ≡ 0x81 ∷ 202 ∷ 0 ∷ 3 ∷ 0 ∷ 0 ∷ 0 ∷ 1 ∷ 1 ∷ 2 ∷ 97 ∷ 98 ∷ 0 ∷ 0 ∷ 0 ∷ 0 ∷ []
unfolding serialize_sdes
whole_word = refl
