-- ===== src/Rtp/Tests.antt =====
-- RTP headers at concrete inputs.
use bilbycast_rist.Prelude.{◌+◌, ◌*◌, ◌≡◌, refl, arith, true, false, [], ◌∷◌, ◌++◌}
use bilbycast_rist.Wire.{ok}
use bilbycast_rist.Wire.BigEndian.{big_endian, big_endian-IsBigEndian}
use bilbycast_rist.Rtp.{RtpHeader, parse_header, serialize_header, rtp_header_size}
use bilbycast_rist.Rtp.Header.{parse-serialize_header}

abbrev header : RtpHeader
header = record {
  version = 2;
  padding = true;
  extension = false;
  csrc_count = 1;
  marker = true;
  payload_type = 33;
  sequence_number = 65535;
  timestamp = 90000;
  ssrc = 43;
}

parse-serialize_header_example :
    parse_header big_endian (serialize_header big_endian header ++ (0 ∷ 0 ∷ 0 ∷ 9 ∷ 71 ∷ []))
    ≡ ok (header, rtp_header_size + header.csrc_count * 4)
parse-serialize_header_example =
    parse-serialize_header big_endian-IsBigEndian header (0 ∷ 0 ∷ 0 ∷ 9 ∷ 71 ∷ [])
      (record {
        version_is = refl;
        csrc_fits = omega arith;
        type_fits = omega arith;
        seq_fits = omega arith;
        timestamp_fits = omega arith;
        ssrc_fits = omega arith;
      })
      (omega arith)
