-- ===== src/Rtp/Header.antt =====
-- The header, read back from its bytes.
use bilbycast_rist.Prelude.{
  ℕ, ◌+◌, ◌*◌, ◌/◌, ◌%◌, ◌^◌, ◌≤◌, ◌<◌, ◌≡◌, ◌∙◌, refl, ap, sym, arith, Bool, true, false, List,
  ◌∷◌, ◌++◌, ltb, bit_and, bit_or, bit_of, length, drop, u8,
}
use bilbycast_rist.Wire.{Buf, ok, ◌>>=◌}
use bilbycast_rist.Wire.BigEndian.{IsBigEndian}
use bilbycast_rist.Rtp.{
  RtpHeader, RtpPacket, parse_header, serialize_header, first_byte, second_byte, rtp_header_size,
  parse, serialize, skip_extension,
}
use bilbycast_rist.Rtp.Fields.{
  packed_first, packed_second, version_of, padding_of, extension_of, csrc_of, marker_of,
  payload_type_of,
}

-- A header of version 2 whose fields fit their widths.
pub record HeaderFits (h : RtpHeader) : Type 0 where
  pub version_is : h.version ≡ 2
  pub csrc_fits : h.csrc_count < 2 ^ 4
  pub type_fits : h.payload_type < 2 ^ 7
  pub seq_fits : h.sequence_number < 2 ^ 16
  pub timestamp_fits : h.timestamp < 2 ^ 32
  pub ssrc_fits : h.ssrc < 2 ^ 32

small_first :
    (p e : Bool) (c : ℕ)
    → c < 2 ^ 4
    → (0x80 + bit_of p * 2 ^ 5 + bit_of e * 2 ^ 4 + c) % 2 ^ 8
      ≡ 0x80 + bit_of p * 2 ^ 5 + bit_of e * 2 ^ 4 + c
small_first true true c h = omega arith
small_first true false c h = omega arith
small_first false true c h = omega arith
small_first false false c h = omega arith

small_second :
    (m : Bool) (t : ℕ) → t < 2 ^ 7 → (bit_of m * 2 ^ 7 + t) % 2 ^ 8 ≡ bit_of m * 2 ^ 7 + t
small_second true t h = omega arith
small_second false t h = omega arith

abbrev build : RtpHeader → ℕ → ℕ → ℕ → ℕ → RtpHeader
build h v s t r = record {
  version = v;
  padding = h.padding;
  extension = h.extension;
  csrc_count = h.csrc_count;
  marker = h.marker;
  payload_type = h.payload_type;
  sequence_number = s;
  timestamp = t;
  ssrc = r;
}

-- The big-endian bytes of a number that fits, added up.
abbrev sum16 : ℕ → ℕ
sum16 x = x / 2 ^ 8 % 2 ^ 8 * 2 ^ 8 + x % 2 ^ 8

abbrev sum32 : ℕ → ℕ
sum32 x =
    x / 2 ^ 24 % 2 ^ 8 * 2 ^ 24
    + x / 2 ^ 16 % 2 ^ 8 * 2 ^ 16
    + x / 2 ^ 8 % 2 ^ 8 * 2 ^ 8
    + x % 2 ^ 8

whole16 : (x : ℕ) → x < 2 ^ 16 → sum16 x ≡ x
whole16 x h = omega arith

whole32 : (x : ℕ) → x < 2 ^ 32 → sum32 x ≡ x
whole32 x h = omega arith

fields :
    (h : RtpHeader)
    → HeaderFits h
    → build h 2 (sum16 h.sequence_number) (sum32 h.timestamp) (sum32 h.ssrc) ≡ h
fields h f =
    ap (λ v. build h v (sum16 h.sequence_number) (sum32 h.timestamp) (sum32 h.ssrc))
      (sym f.version_is)
    ∙ ap (λ s. build h h.version s (sum32 h.timestamp) (sum32 h.ssrc))
        (whole16 h.sequence_number f.seq_fits)
    ∙ ap (λ t. build h h.version h.sequence_number t (sum32 h.ssrc))
        (whole32 h.timestamp f.timestamp_fits)
    ∙ ap (λ r. build h h.version h.sequence_number h.timestamp r) (whole32 h.ssrc f.ssrc_fits)

module _ {w : Buf} (be : IsBigEndian w) where
  -- Twelve bytes with room for the CSRC entries that the first one counts.
  parse_header-bytes :
      (p e m : Bool) (c t s1 s0 t3 t2 t1 t0 r3 r2 r1 r0 : ℕ) (rest : List ℕ)
      → c < 2 ^ 4
      → t < 2 ^ 7
      → c * 4 ≤ length rest
      → parse_header w (
          (0x80 + bit_of p * 2 ^ 5 + bit_of e * 2 ^ 4 + c)
          ∷ (bit_of m * 2 ^ 7 + t)
          ∷ s1
          ∷ s0
          ∷ t3
          ∷ t2
          ∷ t1
          ∷ t0
          ∷ r3
          ∷ r2
          ∷ r1
          ∷ r0
          ∷ rest)
        ≡ ok (
          record {
            version = 2;
            padding = p;
            extension = e;
            csrc_count = c;
            marker = m;
            payload_type = t;
            sequence_number = s1 * 2 ^ 8 + s0;
            timestamp = t3 * 2 ^ 24 + t2 * 2 ^ 16 + t1 * 2 ^ 8 + t0;
            ssrc = r3 * 2 ^ 24 + r2 * 2 ^ 16 + r1 * 2 ^ 8 + r0;
          },
          rtp_header_size + c * 4,
        )
  unfolding parse_header
  parse_header-bytes p e m c t s1 s0 t3 t2 t1 t0 r3 r2 r1 r0 rest hc ht room =
      let first = 0x80 + bit_of p * 2 ^ 5 + bit_of e * 2 ^ 4 + c in
      let second = bit_of m * 2 ^ 7 + t in
      let tail = s1 ∷ s0 ∷ t3 ∷ t2 ∷ t1 ∷ t0 ∷ r3 ∷ r2 ∷ r1 ∷ r0 ∷ rest in
      let fixed : ltb (length (first ∷ second ∷ tail)) rtp_header_size ≡ false = ground arith in
      let whole : ltb (length (first ∷ second ∷ tail)) (rtp_header_size + c * 4) ≡ false =
        ground (arith, room) in
      rw (fixed, be.get_u8_be first (second ∷ tail))
        (rw (version_of p e c hc, padding_of p e c hc, extension_of p e c hc, csrc_of p e c hc)
          (rw
            (
              be.get_u8_be second tail,
              be.get_u16_be s1 s0 (t3 ∷ t2 ∷ t1 ∷ t0 ∷ r3 ∷ r2 ∷ r1 ∷ r0 ∷ rest),
            )
            (rw
              (be.get_u32_be t3 t2 t1 t0 (r3 ∷ r2 ∷ r1 ∷ r0 ∷ rest), be.get_u32_be r3 r2 r1 r0 rest)
              (rw (whole, marker_of m t ht, payload_type_of m t ht) refl))))

  serialize_header-bytes :
      (h : RtpHeader) (rest : List ℕ)
      → serialize_header w h ++ rest ≡ (
          first_byte h % 2 ^ 8
          ∷ second_byte h % 2 ^ 8
          ∷ h.sequence_number / 2 ^ 8 % 2 ^ 8
          ∷ h.sequence_number % 2 ^ 8
          ∷ h.timestamp / 2 ^ 24 % 2 ^ 8
          ∷ h.timestamp / 2 ^ 16 % 2 ^ 8
          ∷ h.timestamp / 2 ^ 8 % 2 ^ 8
          ∷ h.timestamp % 2 ^ 8
          ∷ h.ssrc / 2 ^ 24 % 2 ^ 8
          ∷ h.ssrc / 2 ^ 16 % 2 ^ 8
          ∷ h.ssrc / 2 ^ 8 % 2 ^ 8
          ∷ h.ssrc % 2 ^ 8
          ∷ rest)
  unfolding serialize_header
  serialize_header-bytes h rest = rw (be.put_u8_be (first_byte h)) (
      rw (be.put_u8_be (second_byte h)) (
        rw (be.put_u16_be h.sequence_number)
          (rw (be.put_u32_be h.timestamp) (rw (be.put_u32_be h.ssrc) refl))))

  -- With big-endian byte buffers, a header of version 2 whose fields fit is read back from its
  -- bytes, whatever follows them, as long as what follows has room for the CSRC entries that the
  -- header counts.
  pub parse-serialize_header :
      (h : RtpHeader) (rest : List ℕ)
      → HeaderFits h
      → h.csrc_count * 4 ≤ length rest
      → parse_header w (serialize_header w h ++ rest) ≡ ok (h, rtp_header_size + h.csrc_count * 4)
  parse-serialize_header h rest f room =
      let first : first_byte h % 2 ^ 8
          ≡ 0x80 + bit_of h.padding * 2 ^ 5 + bit_of h.extension * 2 ^ 4 + h.csrc_count =
        ap
          (λ (v : ℕ).
            bit_or
              (bit_or (bit_or (u8 (v * 2 ^ 6)) (bit_of h.padding * 2 ^ 5))
                (bit_of h.extension * 2 ^ 4))
              (bit_and h.csrc_count 0x0f)
            % 2 ^ 8)
          f.version_is
        ∙ ap (λ (b : ℕ). b % 2 ^ 8) (packed_first h.padding h.extension h.csrc_count f.csrc_fits)
        ∙ small_first h.padding h.extension h.csrc_count f.csrc_fits in
      let second : second_byte h % 2 ^ 8 ≡ bit_of h.marker * 2 ^ 7 + h.payload_type =
        ap (λ (b : ℕ). b % 2 ^ 8) (packed_second h.marker h.payload_type f.type_fits)
        ∙ small_second h.marker h.payload_type f.type_fits in
      ap (parse_header w) (serialize_header-bytes h rest ∙ rw (first, second) refl)
      ∙ parse_header-bytes h.padding h.extension h.marker h.csrc_count h.payload_type _ _ _ _ _ _ _
          _ _ _ rest f.csrc_fits f.type_fits room
      ∙ ap (λ (k : RtpHeader). ok (k, rtp_header_size + h.csrc_count * 4)) (fields h f)

  -- A packet without CSRC entries or extension is read back whole.
  pub parse-serialize_plain :
      (p : RtpPacket)
      → HeaderFits p.header
      → p.header.csrc_count ≡ 0
      → p.header.extension ≡ false
      → parse w (serialize w p) ≡ ok p
  unfolding parse serialize
  parse-serialize_plain p f none plain =
      let buf = serialize_header w p.header ++ p.payload in
      ap
        (λ t. t >>= λ hs.
          (skip_extension hs.0.extension buf hs.1 >>= λ offset.
          ok (record { header = hs.0; payload = drop offset buf })))
        (parse-serialize_header p.header p.payload f (omega (arith, none)))
      ∙ ap
          (λ b. skip_extension b buf (rtp_header_size + p.header.csrc_count * 4) >>= λ offset.
            ok (record { header = p.header; payload = drop offset buf }))
          plain
      ∙ ap
          (λ (c : ℕ).
            ok (record { header = p.header; payload = drop (rtp_header_size + c * 4) buf }))
          none
      ∙ ap (λ b. ok (record { header = p.header; payload = drop rtp_header_size b }))
          (serialize_header-bytes p.header p.payload)
