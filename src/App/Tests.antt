-- ===== src/App/Tests.antt =====
-- APP packets at concrete inputs, after the unit tests of rist-protocol/src/packet/rtcp_app.rs.
use bilbycast_rist.Prelude.{◌≡◌, arith, [], ◌∷◌, length, drop}
use bilbycast_rist.Wire.{ok}
use bilbycast_rist.Wire.BigEndian.{big_endian, big_endian-IsBigEndian}
use bilbycast_rist.Rtcp.{RtcpCommonHeader, parse_header, packet_size}
use bilbycast_rist.App.{rtcp_pt_app, RistApp, range_nack, parse, serialize}
use bilbycast_rist.App.Packet.{parse-serialize_app}

abbrev ranges : RistApp
ranges = range_nack (record { media_ssrc = 2; entries = (65535, 3) ∷ (7, 0) ∷ [] })

parse-serialize_app_example :
    (h : RtcpCommonHeader) × (parse_header big_endian (serialize big_endian ranges) ≡ ok h)
    × (h.packet_type ≡ rtcp_pt_app)
    × (packet_size h ≡ length (serialize big_endian ranges))
    × (parse big_endian (drop 4 (serialize big_endian ranges)) h.count ≡ ok ranges)
parse-serialize_app_example =
    parse-serialize_app big_endian-IsBigEndian ranges
      (omega arith, omega arith, ((omega arith, omega arith), ((omega arith, omega arith), tt)))
