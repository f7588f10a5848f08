-- ===== src/Compound/Total.antt =====
-- The RTCP parsers on arbitrary bytes.
mod Packets
use bilbycast_rist.Prelude.{
  ℕ, zero, suc, ◌+◌, ◌-◌, ◌*◌, ◌/◌, ◌≤◌, ◌≡◌, ◌≢◌, ◌⊎◌, inl, inr, refl, ap, arith, Bool, true,
  false, List, [], ◌∷◌, ltb, not, ◌==◌, length, take, drop, not_ltb→le, Bool-cases, if◌then◌else◌,
  bit_and, ◌^◌,
}
use bilbycast_rist.Wire.{Buf, Result, ok, err, panic, invalid_rtp_version, ◌>>=◌}
use bilbycast_rist.Wire.BigEndian.{IsBigEndian}
use bilbycast_rist.Wire.Safe.{
  Safe, Safe-guard, Safe-bind, Safe-get_u16, Safe-get_u32, Safe-copy_to_slice4,
}
use bilbycast_rist.Rtcp.{RtcpCommonHeader, packet_size}
use bilbycast_rist.Rtcp.Header.{parse_header-eq-header_of, header_of}
use bilbycast_rist.Report
use bilbycast_rist.Report.Description
use bilbycast_rist.Compound
use bilbycast_rist.Report.{parse_sr, parse_block, parse_blocks, parse_rr}
use bilbycast_rist.Report.Description.{parse_sdes}
use bilbycast_rist.Nack.{
  parse_bitmasks, parse_ranges, parse_entries, nack_fmt_generic, nack_fmt_range,
}
use bilbycast_rist.Nack
use bilbycast_rist.App.{
  parse_pairs, parse_body, parse_request, parse_response, same_bytes, rist_app_name,
}
use bilbycast_rist.App
use bilbycast_rist.Compound.{
  RtcpPacket, or_unknown, parse_packet, parse_packets, parse_compound, max_rtcp_sub_packets,
}
use bilbycast_rist.Compound.Total.Packets.{parse_packet-ok}

module _ {w : Buf} (be : IsBigEndian w) where
  -- An end of the loop: so many packets at most, or the error of a header's version.
  abbrev Graceful : ℕ → Result (List RtcpPacket) → Type 0
  Graceful room (ok ps) = length ps ≤ room
  Graceful room (err e) = (v : ℕ) × (e ≡ invalid_rtp_version v) × (v ≢ 2)
  Graceful room panic = ⊥

  Graceful-if :
      (room : ℕ) (b : Bool) (x y : Result (List RtcpPacket))
      → Graceful room x
      → Graceful room y
      → Graceful room (if b then x else y)
  Graceful-if room true x y h k = h
  Graceful-if room false x y h k = k

  Graceful-cons :
      (room : ℕ) (p : RtcpPacket) (rest : Result (List RtcpPacket))
      → Graceful room rest
      → Graceful (suc room) (rest >>= λ ps. ok (p ∷ ps))
  Graceful-cons room p (ok ps) h = omega arith
  Graceful-cons room p (err e) h = h
  Graceful-cons room p panic h = h

  Graceful-header :
      (room : ℕ) (a b c d : ℕ) (k : RtcpCommonHeader → Result (List RtcpPacket))
      → ((h : RtcpCommonHeader) → Graceful room (k h))
      → Graceful room (header_of a b c d >>= k)
  Graceful-header room a b c d k g = elim (Bool-cases (bit_and (a / 2 ^ 6) 0x03 == 2)) [
    | inl e ↦ rw e (g _)
    | inr e ↦ rw e (bit_and (a / 2 ^ 6) 0x03, refl, ground (arith, e))
  ]

  parse_packets-Graceful :
      (utf8 : List ℕ → List ℕ) (room : ℕ) (r : List ℕ) → Graceful room (parse_packets w utf8 room r)
  unfolding parse_packets
  parse_packets-Graceful utf8 zero r = omega arith
  parse_packets-Graceful utf8 (suc room) [] = omega arith
  parse_packets-Graceful utf8 (suc room) (a ∷ []) = omega arith
  parse_packets-Graceful utf8 (suc room) (a ∷ b ∷ []) = omega arith
  parse_packets-Graceful utf8 (suc room) (a ∷ b ∷ c ∷ []) = omega arith
  parse_packets-Graceful utf8 (suc room) (a ∷ b ∷ c ∷ d ∷ s) =
      let r : List ℕ = a ∷ b ∷ c ∷ d ∷ s in
      let long : ltb (length r) 4 ≡ false = ground arith in
      rw long (
        rw (parse_header-eq-header_of be a b c d s) (
          Graceful-header (suc room) a b c d _ λ h.
            let sub =
              parse_packet-ok be utf8 h.packet_type h.count (drop 4 (take (packet_size h) r)) in
            Graceful-if (suc room) (ltb (length r) (packet_size h)) _ _ (omega arith) (
              rw sub.1 (
                Graceful-cons room sub.0 _
                  (parse_packets-Graceful utf8 room (drop (packet_size h) r))))))

  Graceful-cases :
      (room : ℕ) (m : Result (List RtcpPacket))
      → Graceful room m
      → ((ps : List RtcpPacket) × (m ≡ ok ps) × (length ps ≤ room))
        ⊎ ((v : ℕ) × (m ≡ err (invalid_rtp_version v)) × (v ≢ 2))
  Graceful-cases room (ok ps) g = inl (ps, refl, g)
  Graceful-cases room (err e) g = inr (g.0, ap err g.1, g.2)
  Graceful-cases room panic g = absurd g

  -- With big-endian byte buffers, the parser ends on every sequence of bytes without reading past
  -- an end: it gives at most 64 packets, or the error that the header of a packet has a version
  -- other than 2.
  pub parse_compound_total :
      (utf8 : List ℕ → List ℕ) (buf : List ℕ)
      → ((ps : List RtcpPacket) × (parse_compound w utf8 buf ≡ ok ps)
          × (length ps ≤ max_rtcp_sub_packets))
        ⊎ ((v : ℕ) × (parse_compound w utf8 buf ≡ err (invalid_rtp_version v)) × (v ≢ 2))
  unfolding parse_compound
  parse_compound_total utf8 buf =
      Graceful-cases max_rtcp_sub_packets _ (parse_packets-Graceful utf8 max_rtcp_sub_packets buf)
