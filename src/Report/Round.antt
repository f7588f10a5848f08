-- ===== src/Report/Round.antt =====
-- `SenderReport::serialize` against `SenderReport::parse`.
use bilbycast_rist.Prelude.{
  ℕ, ◌^◌, ◌<◌, ◌≡◌, ◌∙◌, refl, ap, arith, false, List, ◌∷◌, ◌++◌, ltb, length, drop, le→not_ltb,
}
use bilbycast_rist.Wire.{Buf, ok}
use bilbycast_rist.Wire.BigEndian.{
  length-cons_u32, get-last_u32, IsBigEndian, get-put_u32, length-put_u32,
}
use bilbycast_rist.Rtcp.{RtcpCommonHeader, parse_header, packet_size}
use bilbycast_rist.Rtcp.Header.{parse_header-bytes}
use bilbycast_rist.Report.{SenderReport, parse_sr, serialize_sr, rtcp_pt_sr}

-- Fields of 32 bits.
abbrev pub ReportFits : SenderReport → Type 0
ReportFits r =
    (r.ssrc < 2 ^ 32)
    × (r.ntp_msw < 2 ^ 32)
    × (r.ntp_lsw < 2 ^ 32)
    × (r.rtp_timestamp < 2 ^ 32)
    × (r.sender_packet_count < 2 ^ 32)
    × (r.sender_octet_count < 2 ^ 32)

module _ {w : Buf} (be : IsBigEndian w) where
  -- What follows the common header, from its last field on.
  abbrev tail1 : SenderReport → List ℕ
  tail1 r = w.put_u32 r.sender_packet_count ++ w.put_u32 r.sender_octet_count

  abbrev tail2 : SenderReport → List ℕ
  tail2 r = w.put_u32 r.ntp_lsw ++ (w.put_u32 r.rtp_timestamp ++ tail1 r)

  abbrev body : SenderReport → List ℕ
  body r = w.put_u32 r.ssrc ++ (w.put_u32 r.ntp_msw ++ tail2 r)

  length-body : (r : SenderReport) → length (body r) ≡ 24
  length-body r = omega (
    arith,
    length-cons_u32 be r.ssrc (w.put_u32 r.ntp_msw ++ tail2 r),
    length-cons_u32 be r.ntp_msw (tail2 r),
    length-cons_u32 be r.ntp_lsw (w.put_u32 r.rtp_timestamp ++ tail1 r),
    length-cons_u32 be r.rtp_timestamp (tail1 r),
    length-cons_u32 be r.sender_packet_count (w.put_u32 r.sender_octet_count),
    length-put_u32 be r.sender_octet_count,
  )

  parse_sr-body : (r : SenderReport) → ReportFits r → parse_sr w (body r) ≡ ok r
  unfolding parse_sr
  parse_sr-body r f =
      let long : ltb (length (body r)) 24 ≡ false =
        le→not_ltb (length (body r)) 24 (omega (arith, length-body r)) in
      rw long (
        rw (get-put_u32 be r.ssrc (w.put_u32 r.ntp_msw ++ tail2 r) f.0) (
          rw (get-put_u32 be r.ntp_msw (tail2 r) f.1) (
            rw (get-put_u32 be r.ntp_lsw (w.put_u32 r.rtp_timestamp ++ tail1 r) f.2) (
              rw (get-put_u32 be r.rtp_timestamp (tail1 r) f.3) (
                rw (get-put_u32 be r.sender_packet_count (w.put_u32 r.sender_octet_count) f.4)
                  (rw (get-last_u32 be r.sender_octet_count f.5) refl))))))

  serialize_sr-bytes : (r : SenderReport) → serialize_sr w r ≡ (0x80 ∷ rtcp_pt_sr ∷ 0 ∷ 6 ∷ body r)
  unfolding serialize_sr
  serialize_sr-bytes r =
      rw (be.put_u8_be 0x80) (rw (be.put_u8_be rtcp_pt_sr) (rw (be.put_u16_be 6) refl))

  -- With big-endian byte buffers, a sender report of 32-bit fields is what the two parsers read
  -- back from its bytes: the header has the type of a sender report and the size of the packet,
  -- which is 28 bytes, and the body gives the report.
  pub parse-serialize_sr :
      (r : SenderReport)
      → ReportFits r
      → (h : RtcpCommonHeader) × (parse_header w (serialize_sr w r) ≡ ok h)
        × (h.packet_type ≡ rtcp_pt_sr)
        × (packet_size h ≡ length (serialize_sr w r))
        × (length (serialize_sr w r) ≡ 28)
        × (parse_sr w (drop 4 (serialize_sr w r)) ≡ ok r)
  parse-serialize_sr r f =
      let bytes = serialize_sr-bytes r in
      let len : length (serialize_sr w r) ≡ 28 = ap length bytes ∙ omega (arith, length-body r) in
      (
        record {
          version = 2;
          padding = false;
          count = 0;
          packet_type = rtcp_pt_sr;
          length_words = 6;
        },
        ap (parse_header w) bytes ∙ parse_header-bytes be 0 rtcp_pt_sr 6 (body r) (omega arith),
        refl,
        omega (arith, len),
        len,
        ap (λ t. parse_sr w (drop 4 t)) bytes ∙ parse_sr-body r f,
      )
