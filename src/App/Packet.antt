-- ===== src/App/Packet.antt =====
-- `RistApp::serialize` against `RistApp::parse`.
pub mod Pairs
use bilbycast_rist.Prelude.{
  ℕ, zero, suc, ◌+◌, ◌-◌, ◌*◌, ◌/◌, ◌%◌, ◌^◌, ◌≤◌, ◌<◌, ◌≡◌, ◌∙◌, refl, ap, sym, arith, true, false,
  List, [], ◌∷◌, ◌++◌, ltb, u16, length, drop, All, append-nil, length-append, bit_or, some,
  le→not_ltb,
}
use bilbycast_rist.Wire.{Buf, ok, ◌>>=◌}
use bilbycast_rist.Wire.BigEndian.{
  length-cons_u32, get-last_u32, IsBigEndian, get-put_u16, get-put_u32, length-put_u16,
  length-put_u32,
}
use bilbycast_rist.Rtcp.{RtcpCommonHeader, parse_header, packet_size}
use bilbycast_rist.Rtcp.Header.{parse_header-bytes}
use bilbycast_rist.App.{
  RistApp, echo_request, echo_response, range_nack, unknown, parse_pairs, parse_body, parse,
  put_pairs, put_header, serialize, rist_app_name, max_range_nack_entries, rist_app_range_nack,
  rtt_echo_request, rtt_echo_response, rtcp_pt_app,
}
use bilbycast_rist.App.Packet.Pairs.{PairFits, length-put_pairs, parse-put_pairs}

-- Fields of the widths that the packet gives them, of one of the three known kinds.
abbrev pub AppFits : RistApp → Type 0
AppFits (echo_request q) =
    (q.ssrc < 2 ^ 32) × (q.timestamp_msw < 2 ^ 32) × (q.timestamp_lsw < 2 ^ 32)
AppFits (echo_response q) =
    (q.ssrc < 2 ^ 32)
    × (q.timestamp_msw < 2 ^ 32)
    × (q.timestamp_lsw < 2 ^ 32)
    × (q.processing_delay_us < 2 ^ 32)
AppFits (range_nack n) =
    (n.media_ssrc < 2 ^ 32) × (length n.entries ≤ max_range_nack_entries) × All PairFits n.entries
AppFits (unknown subtype bytes) = true ≡ false

abbrev pub subtype_of : RistApp → ℕ
subtype_of (echo_request q) = rtt_echo_request
subtype_of (echo_response q) = rtt_echo_response
subtype_of (range_nack n) = rist_app_range_nack
subtype_of (unknown subtype bytes) = subtype

-- The length field.
abbrev word_count : RistApp → ℕ
word_count (echo_request q) = 4
word_count (echo_response q) = 5
word_count (range_nack n) = 2 + length n.entries
word_count (unknown subtype bytes) = 0

module _ {w : Buf} (be : IsBigEndian w) where
  -- The payload after the SSRC and the name.
  abbrev fields : RistApp → List ℕ
  fields (echo_request q) = w.put_u32 q.timestamp_msw ++ w.put_u32 q.timestamp_lsw
  fields (echo_response q) =
      w.put_u32 q.timestamp_msw ++ (w.put_u32 q.timestamp_lsw ++ w.put_u32 q.processing_delay_us)
  fields (range_nack n) = put_pairs w n.entries
  fields (unknown subtype bytes) = []

  abbrev ssrc_of : RistApp → ℕ
  ssrc_of (echo_request q) = q.ssrc
  ssrc_of (echo_response q) = q.ssrc
  ssrc_of (range_nack n) = n.media_ssrc
  ssrc_of (unknown subtype bytes) = 0

  -- Past the SSRC and the name.
  parse-named :
      (subtype ssrc : ℕ) (r : List ℕ)
      → ssrc < 2 ^ 32
      → parse w (w.put_u32 ssrc ++ (rist_app_name ++ r)) subtype
        ≡ parse_body w subtype ssrc r (w.put_u32 ssrc ++ (rist_app_name ++ r))
  unfolding parse
  parse-named subtype ssrc r h =
      let long : ltb (length (w.put_u32 ssrc ++ (rist_app_name ++ r))) 8 ≡ false =
        le→not_ltb (length (w.put_u32 ssrc ++ (rist_app_name ++ r))) 8 (
          omega
            (arith, length-append (w.put_u32 ssrc) (rist_app_name ++ r), length-put_u32 be ssrc)) in
      rw long (
        rw (get-put_u32 be ssrc (rist_app_name ++ r) h)
          (rw (be.copy_to_slice_be rist_app_name r) refl))

  parse_body-fields :
      (a : RistApp) (buf : List ℕ)
      → AppFits a
      → parse_body w (subtype_of a) (ssrc_of a) (fields a) buf ≡ ok a
  unfolding parse_body
  parse_body-fields (range_nack n) buf f =
      ap
        (λ t. t >>= λ entries.
          ok (range_nack (record { media_ssrc = n.media_ssrc; entries = entries })))
        (parse-put_pairs be max_range_nack_entries n.entries f.1 f.2)
  parse_body-fields (echo_request q) buf f =
      let long : ltb (length (w.put_u32 q.timestamp_msw ++ w.put_u32 q.timestamp_lsw)) 8 ≡ false =
        le→not_ltb (length (w.put_u32 q.timestamp_msw ++ w.put_u32 q.timestamp_lsw)) 8 (
          omega (
            arith,
            length-append (w.put_u32 q.timestamp_msw) (w.put_u32 q.timestamp_lsw),
            length-put_u32 be q.timestamp_msw,
            length-put_u32 be q.timestamp_lsw,
          )) in
      rw long (
        rw (get-put_u32 be q.timestamp_msw (w.put_u32 q.timestamp_lsw) f.1)
          (rw (get-last_u32 be q.timestamp_lsw f.2) refl))
  parse_body-fields (echo_response q) buf f =
      let tail = w.put_u32 q.timestamp_lsw ++ w.put_u32 q.processing_delay_us in
      let long : ltb (length (w.put_u32 q.timestamp_msw ++ tail)) 12 ≡ false =
        le→not_ltb (length (w.put_u32 q.timestamp_msw ++ tail)) 12 (
          omega (
            arith,
            length-append (w.put_u32 q.timestamp_msw) tail,
            length-append (w.put_u32 q.timestamp_lsw) (w.put_u32 q.processing_delay_us),
            length-put_u32 be q.timestamp_msw,
            length-put_u32 be q.timestamp_lsw,
            length-put_u32 be q.processing_delay_us,
          )) in
      rw long (
        rw (get-put_u32 be q.timestamp_msw tail f.1) (
          rw (get-put_u32 be q.timestamp_lsw (w.put_u32 q.processing_delay_us) f.2)
            (rw (get-last_u32 be q.processing_delay_us f.3) refl)))
  parse_body-fields (unknown subtype bytes) buf f = absurd (ground (arith, f))

  -- What follows the common header.
  abbrev body : RistApp → List ℕ
  body a = w.put_u32 (ssrc_of a) ++ (rist_app_name ++ fields a)

  length-body : (a : RistApp) → AppFits a → length (body a) ≡ word_count a * 4
  length-body (echo_request q) f = omega (
    arith,
    length-append (w.put_u32 q.ssrc) (rist_app_name ++ fields (echo_request q)),
    length-append (w.put_u32 q.timestamp_msw) (w.put_u32 q.timestamp_lsw),
    length-put_u32 be q.ssrc,
    length-put_u32 be q.timestamp_msw,
    length-put_u32 be q.timestamp_lsw,
  )
  length-body (echo_response q) f = omega (
    arith,
    length-append (w.put_u32 q.ssrc) (rist_app_name ++ fields (echo_response q)),
    length-append (w.put_u32 q.timestamp_msw)
        (w.put_u32 q.timestamp_lsw ++ w.put_u32 q.processing_delay_us),
    length-append (w.put_u32 q.timestamp_lsw) (w.put_u32 q.processing_delay_us),
    length-put_u32 be q.ssrc,
    length-put_u32 be q.timestamp_msw,
    length-put_u32 be q.timestamp_lsw,
    length-put_u32 be q.processing_delay_us,
  )
  length-body (range_nack n) f = omega (
    arith,
    length-append (w.put_u32 n.media_ssrc) (rist_app_name ++ put_pairs w n.entries),
    length-put_u32 be n.media_ssrc,
    length-put_pairs be n.entries,
  )
  length-body (unknown subtype bytes) f = absurd (ground (arith, f))

  put_header-bytes :
      (subtype words : ℕ) (rest : List ℕ)
      → bit_or 0x80 subtype ≡ 0x80 + subtype
      → subtype < 2 ^ 5
      → words < 2 ^ 16
      → put_header w subtype words rest
        ≡ ((0x80 + subtype) ∷ rtcp_pt_app ∷ words / 2 ^ 8 ∷ words % 2 ^ 8 ∷ rest)
  put_header-bytes subtype words rest e h k =
      let first : (0x80 + subtype) % 2 ^ 8 ≡ 0x80 + subtype = omega arith in
      let small : u16 words ≡ words = omega arith in
      let high : words / 2 ^ 8 % 2 ^ 8 ≡ words / 2 ^ 8 = omega arith in
      rw e (
        rw (be.put_u8_be (0x80 + subtype)) (
          rw (be.put_u8_be rtcp_pt_app)
            (rw small (rw (be.put_u16_be words) (rw (first, high) refl)))))

  serialize-bytes :
      (a : RistApp)
      → AppFits a
      → serialize w a ≡ (
          (0x80 + subtype_of a)
          ∷ rtcp_pt_app
          ∷ word_count a / 2 ^ 8
          ∷ word_count a % 2 ^ 8
          ∷ body a)
  unfolding serialize
  serialize-bytes (echo_request q) f =
      rw (be.put_slice_be rist_app_name) (
        put_header-bytes rtt_echo_request 4 (body (echo_request q)) refl (omega arith)
          (omega arith))
  serialize-bytes (echo_response q) f = rw (be.put_slice_be rist_app_name) (
      put_header-bytes rtt_echo_response 5 (body (echo_response q)) refl (omega arith)
        (omega arith))
  serialize-bytes (range_nack n) f =
      let words : (12 + 4 * length n.entries) / 4 - 1 ≡ 2 + length n.entries = omega arith in
      rw (be.put_slice_be rist_app_name, words)
        (put_header-bytes rist_app_range_nack (2 + length n.entries) (body (range_nack n)) refl
          (omega arith) (omega (arith, f.1)))
  serialize-bytes (unknown subtype bytes) f = absurd (ground (arith, f))

  -- With big-endian byte buffers, an APP packet of one of the three known kinds whose fields fit,
  -- with at most 512 ranges, is what the two parsers read back from its bytes: the header has the
  -- type of an APP packet, the subtype and the size of the whole packet, and the body, with that
  -- subtype, gives the packet.
  pub parse-serialize_app :
      (a : RistApp)
      → AppFits a
      → (h : RtcpCommonHeader) × (parse_header w (serialize w a) ≡ ok h)
        × (h.packet_type ≡ rtcp_pt_app)
        × (packet_size h ≡ length (serialize w a))
        × (parse w (drop 4 (serialize w a)) h.count ≡ ok a)
  parse-serialize_app a f =
      let bytes = serialize-bytes a f in
      let len : length (serialize w a) ≡ 4 + word_count a * 4 =
        ap length bytes ∙ omega (arith, length-body a f) in
      (
        record {
          version = 2;
          padding = false;
          count = subtype_of a;
          packet_type = rtcp_pt_app;
          length_words = word_count a;
        },
        ap (parse_header w) bytes
            ∙ parse_header-bytes be (subtype_of a) rtcp_pt_app (word_count a) (body a)
                (small_subtype a f),
        refl,
        omega (arith, len),
        ap (λ t. parse w (drop 4 t) (subtype_of a)) bytes
            ∙ parse-named (subtype_of a) (ssrc_of a) (fields a) (small_ssrc a f)
            ∙ parse_body-fields a (body a) f,
      )
    where
      small_subtype : (a : RistApp) → AppFits a → subtype_of a < 2 ^ 5
      small_subtype (echo_request q) f = omega arith
      small_subtype (echo_response q) f = omega arith
      small_subtype (range_nack n) f = omega arith
      small_subtype (unknown subtype bytes) f = absurd (ground (arith, f))

      small_ssrc : (a : RistApp) → AppFits a → ssrc_of a < 2 ^ 32
      small_ssrc (echo_request q) f = f.0
      small_ssrc (echo_response q) f = f.0
      small_ssrc (range_nack n) f = f.0
      small_ssrc (unknown subtype bytes) f = omega arith
