-- ===== src/Nack/Packet.antt =====
-- `NackPacket::serialize` against `NackPacket::parse`.
use bilbycast_rist.Prelude.{
  ℕ, suc, ◌+◌, ◌-◌, ◌*◌, ◌/◌, ◌%◌, ◌^◌, ◌<◌, ◌≡◌, ◌∙◌, refl, ap, arith, false, List, [], ◌∷◌, ◌++◌,
  ltb, u16, length, drop, All, length-append, bit_or, bit_and,
}
use bilbycast_rist.Wire.{Buf, ok, ◌>>=◌}
use bilbycast_rist.Wire.BigEndian.{
  IsBigEndian, get-put_u16, get-put_u32, length-put_u16, length-put_u32,
}
use bilbycast_rist.Rtcp.Header.{parse_header-bytes}
use bilbycast_rist.Rtcp.{RtcpCommonHeader, parse_header, packet_size}
use bilbycast_rist.Nack.{
  BitmaskNack, RangeNack, NackEntries, bitmask, range, NackPacket, parse_bitmasks, parse_ranges,
  parse_entries, parse, put_bitmasks, put_ranges, put_entries, entries_fmt, entry_count, serialize,
  rtcp_pt_rtpfb,
}

-- Fields of the widths that the packet gives them.
abbrev pub EntriesFit : NackEntries → Type 0
EntriesFit (bitmask v) = All (λ (e : BitmaskNack). (e.pid < 2 ^ 16) × (e.blp < 2 ^ 16)) v
EntriesFit (range v) = All (λ (e : RangeNack). (e.start < 2 ^ 16) × (e.extra < 2 ^ 16)) v

pub record PacketFits (p : NackPacket) : Type 0 where
  pub sender_fits : p.sender_ssrc < 2 ^ 32
  pub media_fits : p.media_ssrc < 2 ^ 32
  pub entries_fit : EntriesFit p.entries

first_byte :
    (es : NackEntries) → bit_or 0x80 (bit_and (entries_fmt es) 0x1f) % 2 ^ 8 ≡ 0x80 + entries_fmt es
first_byte (bitmask v) = refl
first_byte (range v) = refl

small_fmt : (es : NackEntries) → entries_fmt es < 2 ^ 5
small_fmt (bitmask v) = omega arith
small_fmt (range v) = omega arith

module _ {w : Buf} (be : IsBigEndian w) where
  -- One entry of two 16-bit fields, read back.
  parse_bitmasks-step :
      (n pid blp : ℕ) (r : List ℕ)
      → pid < 2 ^ 16
      → blp < 2 ^ 16
      → parse_bitmasks w (suc n) (w.put_u16 pid ++ (w.put_u16 blp ++ r))
        ≡ (parse_bitmasks w n r >>= λ rest. ok (record { pid = pid; blp = blp } ∷ rest))
  unfolding parse_bitmasks
  parse_bitmasks-step n pid blp r h k =
      rw (get-put_u16 be pid (w.put_u16 blp ++ r) h) (rw (get-put_u16 be blp r k) refl)

  parse_ranges-step :
      (n start extra : ℕ) (r : List ℕ)
      → start < 2 ^ 16
      → extra < 2 ^ 16
      → parse_ranges w (suc n) (w.put_u16 start ++ (w.put_u16 extra ++ r))
        ≡ (parse_ranges w n r >>= λ rest. ok (record { start = start; extra = extra } ∷ rest))
  unfolding parse_ranges
  parse_ranges-step n start extra r h k =
      rw (get-put_u16 be start (w.put_u16 extra ++ r) h) (rw (get-put_u16 be extra r k) refl)

  parse-put_bitmasks :
      (v : List BitmaskNack)
      → EntriesFit (bitmask v)
      → parse_bitmasks w (length v) (put_bitmasks w v) ≡ ok v
  unfolding put_bitmasks parse_bitmasks
  parse-put_bitmasks [] h = refl
  parse-put_bitmasks (e ∷ v) h =
      parse_bitmasks-step (length v) e.pid e.blp (put_bitmasks w v) h.0.0 h.0.1
      ∙ ap (λ t. t >>= λ rest. ok (e ∷ rest)) (parse-put_bitmasks v h.1)

  parse-put_ranges :
      (v : List RangeNack)
      → EntriesFit (range v)
      → parse_ranges w (length v) (put_ranges w v) ≡ ok v
  unfolding put_ranges parse_ranges
  parse-put_ranges [] h = refl
  parse-put_ranges (e ∷ v) h =
      parse_ranges-step (length v) e.start e.extra (put_ranges w v) h.0.0 h.0.1
      ∙ ap (λ t. t >>= λ rest. ok (e ∷ rest)) (parse-put_ranges v h.1)

  parse-put_entries :
      (es : NackEntries)
      → EntriesFit es
      → parse_entries w (entries_fmt es) (entry_count es) (put_entries w es) ≡ ok es
  parse-put_entries (bitmask v) h = ap (λ t. t >>= λ v'. ok (bitmask v')) (parse-put_bitmasks v h)
  parse-put_entries (range v) h = ap (λ t. t >>= λ v'. ok (range v')) (parse-put_ranges v h)

  length-put_bitmasks : (v : List BitmaskNack) → length (put_bitmasks w v) ≡ 4 * length v
  unfolding put_bitmasks
  length-put_bitmasks [] = refl
  length-put_bitmasks (e ∷ v) = omega (
    arith,
    length-append (w.put_u16 e.pid) (w.put_u16 e.blp ++ put_bitmasks w v),
    length-append (w.put_u16 e.blp) (put_bitmasks w v),
    length-put_u16 be e.pid,
    length-put_u16 be e.blp,
    length-put_bitmasks v,
  )

  length-put_ranges : (v : List RangeNack) → length (put_ranges w v) ≡ 4 * length v
  unfolding put_ranges
  length-put_ranges [] = refl
  length-put_ranges (e ∷ v) = omega (
    arith,
    length-append (w.put_u16 e.start) (w.put_u16 e.extra ++ put_ranges w v),
    length-append (w.put_u16 e.extra) (put_ranges w v),
    length-put_u16 be e.start,
    length-put_u16 be e.extra,
    length-put_ranges v,
  )

  length-put_entries : (es : NackEntries) → length (put_entries w es) ≡ 4 * entry_count es
  length-put_entries (bitmask v) = length-put_bitmasks v
  length-put_entries (range v) = length-put_ranges v

  -- What follows the 4-byte header.
  abbrev body : NackPacket → List ℕ
  body p = w.put_u32 p.sender_ssrc ++ (w.put_u32 p.media_ssrc ++ put_entries w p.entries)

  length-body : (p : NackPacket) → length (body p) ≡ 8 + 4 * entry_count p.entries
  length-body p = omega (
    arith,
    length-append (w.put_u32 p.sender_ssrc) (w.put_u32 p.media_ssrc ++ put_entries w p.entries),
    length-append (w.put_u32 p.media_ssrc) (put_entries w p.entries),
    length-put_u32 be p.sender_ssrc,
    length-put_u32 be p.media_ssrc,
    length-put_entries p.entries,
  )

  serialize-header :
      (p : NackPacket)
      → serialize w p ≡ (
          bit_or 0x80 (bit_and (entries_fmt p.entries) 0x1f) % 2 ^ 8
          ∷ rtcp_pt_rtpfb
          ∷ u16 (2 + entry_count p.entries) / 2 ^ 8 % 2 ^ 8
          ∷ u16 (2 + entry_count p.entries) % 2 ^ 8
          ∷ body p)
  unfolding serialize
  serialize-header p =
      rw (be.put_u8_be (bit_or 0x80 (bit_and (entries_fmt p.entries) 0x1f))) (
        rw (be.put_u8_be rtcp_pt_rtpfb) (rw (be.put_u16_be (u16 (2 + entry_count p.entries))) refl))

  parse-body :
      (p : NackPacket)
      → PacketFits p
      → parse w (body p) (entries_fmt p.entries) (8 + 4 * entry_count p.entries) ≡ ok p
  unfolding parse
  parse-body p h =
      let long : ltb (length (body p)) 8 ≡ false = ground (arith, length-body p) in
      let count : (8 + 4 * entry_count p.entries - 8) / 4 ≡ entry_count p.entries = omega arith in
      rw long (
        rw
          (get-put_u32 be p.sender_ssrc (w.put_u32 p.media_ssrc ++ put_entries w p.entries)
            h.sender_fits)
          (rw (get-put_u32 be p.media_ssrc (put_entries w p.entries) h.media_fits) (
            rw count (
              ap
                (λ t. t >>= λ es.
                  ok (record {
                    sender_ssrc = p.sender_ssrc;
                    media_ssrc = p.media_ssrc;
                    entries = es;
                  }))
                (parse-put_entries p.entries h.entries_fit)))))

  length-serialize : (p : NackPacket) → length (serialize w p) ≡ 12 + 4 * entry_count p.entries
  length-serialize p = ap length (serialize-header p) ∙ omega (arith, length-body p)

  header-serialize :
      (p : NackPacket)
      → entry_count p.entries < 2 ^ 16 - 2
      → parse_header w (serialize w p)
        ≡ ok (record {
          version = 2;
          padding = false;
          count = entries_fmt p.entries;
          packet_type = rtcp_pt_rtpfb;
          length_words = 2 + entry_count p.entries;
        })
  unfolding parse_header
  header-serialize p h =
      let short : u16 (2 + entry_count p.entries) ≡ 2 + entry_count p.entries = omega arith in
      let high : (2 + entry_count p.entries) / 2 ^ 8 % 2 ^ 8 ≡ (2 + entry_count p.entries) / 2 ^ 8 =
        omega arith in
      let bytes : serialize w p ≡ (
          (0x80 + entries_fmt p.entries)
          ∷ rtcp_pt_rtpfb
          ∷ (2 + entry_count p.entries) / 2 ^ 8
          ∷ (2 + entry_count p.entries) % 2 ^ 8
          ∷ body p) =
        serialize-header p ∙ rw (first_byte p.entries) (rw short (rw high refl)) in
      ap (parse_header w) bytes
      ∙ parse_header-bytes be (entries_fmt p.entries) rtcp_pt_rtpfb (2 + entry_count p.entries)
          (body p) (small_fmt p.entries)

  -- With big-endian byte buffers, a packet whose fields fit their widths and whose length fits the
  -- header is what the two parsers read back from its bytes: the header has the type of a feedback
  -- packet, the format and the size of the whole packet, and the body, with that format and size,
  -- gives the packet.
  pub parse-serialize :
      (p : NackPacket)
      → PacketFits p
      → entry_count p.entries < 2 ^ 16 - 2
      → (h : RtcpCommonHeader) × (parse_header w (serialize w p) ≡ ok h)
        × (h.packet_type ≡ rtcp_pt_rtpfb)
        × (packet_size h ≡ length (serialize w p))
        × (parse w (drop 4 (serialize w p)) h.count (packet_size h - 4) ≡ ok p)
  parse-serialize p f h =
      let size : (2 + entry_count p.entries + 1) * 4 ≡ length (serialize w p) =
        omega (arith, length-serialize p) in
      let rest : (2 + entry_count p.entries + 1) * 4 - 4 ≡ 8 + 4 * entry_count p.entries =
        omega arith in
      (
        record {
          version = 2;
          padding = false;
          count = entries_fmt p.entries;
          packet_type = rtcp_pt_rtpfb;
          length_words = 2 + entry_count p.entries;
        },
        header-serialize p h,
        refl,
        size,
        ap
              (λ t.
                parse w (drop 4 t) (entries_fmt p.entries)
                  ((2 + entry_count p.entries + 1) * 4 - 4))
              (serialize-header p)
            ∙ ap (parse w (body p) (entries_fmt p.entries)) rest
            ∙ parse-body p f,
      )
