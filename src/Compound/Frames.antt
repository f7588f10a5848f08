-- ===== src/Compound/Frames.antt =====
-- `RtcpCompound::serialize` against `RtcpCompound::parse`.
use bilbycast_rist.Prelude.{
  ℕ, zero, suc, ◌-◌, ◌^◌, ◌≤◌, ◌<◌, ◌≡◌, ◌∙◌, refl, ap, sym, arith, true, false, List, [], ◌∷◌,
  ◌++◌, ltb, length, take, drop, All, take-append, drop-append, length-append, length-drop,
  le→not_ltb,
}
use bilbycast_rist.Wire.{Buf, ok, ◌>>=◌}
use bilbycast_rist.Wire.BigEndian.{IsBigEndian}
use bilbycast_rist.Rtcp.{RtcpCommonHeader, parse_header, packet_size}
use bilbycast_rist.Rtcp.Header.{parse_header-append}
use bilbycast_rist.Report.Round.{ReportFits, parse-serialize_sr}
use bilbycast_rist.Report.Blocks.{BlockFits, parse-serialize_rr}
use bilbycast_rist.Report.Description.{parse-serialize_sdes}
use bilbycast_rist.Nack
use bilbycast_rist.Nack.{rtcp_pt_rtpfb, entry_count}
use bilbycast_rist.Nack.Packet.{PacketFits, parse-serialize}
use bilbycast_rist.App.Packet.{AppFits, parse-serialize_app}
use bilbycast_rist.Compound.{
  RtcpPacket, sender_report, receiver_report, sdes, nack, app, unknown_packet, parse_packet,
  parse_packets, parse_compound, packet_bytes, serialize_compound, max_rtcp_sub_packets,
}

-- What the round trip asks of a packet: fields of the widths that the packet gives them, and for a
-- name, that it is a string.
abbrev pub Sendable : (List ℕ → List ℕ) → RtcpPacket → Type 0
Sendable utf8 (sender_report r) = ReportFits r
Sendable utf8 (receiver_report r) =
    (r.ssrc < 2 ^ 32) × All BlockFits r.reports × (length r.reports < 2 ^ 5)
Sendable utf8 (sdes d) = (d.ssrc < 2 ^ 32) × (length d.cname < 2 ^ 8) × (utf8 d.cname ≡ d.cname)
Sendable utf8 (nack n) = PacketFits n × (entry_count n.entries < 2 ^ 16 - 2)
Sendable utf8 (app a) = AppFits a
Sendable utf8 (unknown_packet t bytes) = true ≡ false

module _ {w : Buf} (be : IsBigEndian w) (utf8 : List ℕ → List ℕ) where
  -- Bytes that the loop takes for the one packet `p`.
  pub record Framed (bytes : List ℕ) (p : RtcpPacket) : Type 0 where
    pub header : RtcpCommonHeader
    pub parses : parse_header w bytes ≡ ok header
    pub size : packet_size header ≡ length bytes
    pub payload : parse_packet w utf8 header.packet_type header.count (drop 4 bytes) ≡ ok p

  packet_bytes-Framed : (p : RtcpPacket) → Sendable utf8 p → Framed (packet_bytes w p) p
  unfolding packet_bytes parse_packet
  packet_bytes-Framed (sender_report r) f =
      let (h, e, t, s, l, b) = parse-serialize_sr be r f in
      record { header = h; parses = e; size = s; payload = rw (t, b) refl }
  packet_bytes-Framed (receiver_report r) f =
      let (h, e, t, s, b) = parse-serialize_rr be r f.0 f.1 f.2 in
      record { header = h; parses = e; size = s; payload = rw (t, b) refl }
  packet_bytes-Framed (sdes d) f =
      let (h, e, t, s, l, b) = parse-serialize_sdes be utf8 d f.0 f.1 f.2 in
      record { header = h; parses = e; size = s; payload = rw (t, b) refl }
  packet_bytes-Framed (nack n) f =
      let (h, e, t, s, b) = parse-serialize be n f.0 f.1 in
      let len : length (drop 4 (Nack.serialize w n)) ≡ packet_size h - 4 =
        length-drop 4 (Nack.serialize w n) ∙ ap (λ (k : ℕ). k - 4) (sym s) in
      record { header = h; parses = e; size = s; payload = rw (t, len) (rw b refl) }
  packet_bytes-Framed (app a) f =
      let (h, e, t, s, b) = parse-serialize_app be a f in
      record { header = h; parses = e; size = s; payload = rw (t, b) refl }
  packet_bytes-Framed (unknown_packet t bytes) f = cc

  parse_packets-step :
      (room : ℕ) (bytes rest : List ℕ) (p : RtcpPacket)
      → Framed bytes p
      → parse_packets w utf8 (suc room) (bytes ++ rest)
        ≡ (parse_packets w utf8 room rest >>= λ ps. ok (p ∷ ps))
  unfolding parse_packets
  parse_packets-step room bytes rest p f =
      let long : ltb (length (bytes ++ rest)) 4 ≡ false =
        le→not_ltb (length (bytes ++ rest)) 4 (omega (arith, length-append bytes rest, f.size)) in
      let whole : ltb (length (bytes ++ rest)) (packet_size f.header) ≡ false =
        le→not_ltb (length (bytes ++ rest)) (packet_size f.header)
          (omega (arith, length-append bytes rest, f.size)) in
      let front : take (packet_size f.header) (bytes ++ rest) ≡ bytes =
        ap (λ k. take k (bytes ++ rest)) f.size ∙ take-append bytes rest in
      let behind : drop (packet_size f.header) (bytes ++ rest) ≡ rest =
        ap (λ k. drop k (bytes ++ rest)) f.size ∙ drop-append bytes rest in
      rw long (
        rw (parse_header-append be bytes rest f.parses)
          (rw whole (rw front (rw f.payload (rw behind refl)))))

  parse_packets-nil : (room : ℕ) → parse_packets w utf8 room [] ≡ ok []
  unfolding parse_packets
  parse_packets-nil zero = refl
  parse_packets-nil (suc room) = refl

  parse-serialize_packets :
      (room : ℕ) (ps : List RtcpPacket)
      → length ps ≤ room
      → All (Sendable utf8) ps
      → parse_packets w utf8 room (serialize_compound w ps) ≡ ok ps
  unfolding serialize_compound
  parse-serialize_packets room [] n f = parse_packets-nil room
  parse-serialize_packets zero (p ∷ ps) n f = absurd (omega arith)
  parse-serialize_packets (suc room) (p ∷ ps) n f =
      parse_packets-step room (packet_bytes w p) (serialize_compound w ps) p
        (packet_bytes-Framed p f.0)
      ∙ ap (λ t. t >>= λ rest. ok (p ∷ rest)) (parse-serialize_packets room ps (omega arith) f.1)

  -- With big-endian byte buffers, any sequence of at most 64 packets, each of a known kind with
  -- fields that fit their widths and a name that is a string, is what the parser reads back from
  -- the compound datagram that is made of them.
  pub parse-serialize_compound :
      (ps : List RtcpPacket)
      → length ps ≤ max_rtcp_sub_packets
      → All (Sendable utf8) ps
      → parse_compound w utf8 (serialize_compound w ps) ≡ ok ps
  unfolding parse_compound
  parse-serialize_compound ps n f = parse-serialize_packets max_rtcp_sub_packets ps n f
