-- ===== src/Report/Description.antt =====
-- The source description of rist-protocol/src/packet/rtcp_sdes.rs, with its one CNAME item. What
-- `String::from_utf8_lossy` makes of bytes is a parameter; it leaves the bytes of a string as they
-- are.
use bilbycast_rist.Prelude.{
  ℕ, ◌+◌, ◌-◌, ◌*◌, ◌/◌, ◌%◌, ◌^◌, ◌≤◌, ◌<◌, ◌≡◌, ◌∙◌, refl, ap, arith, false, List, [], ◌∷◌, ◌++◌,
  ltb, ◌==◌, not, if◌then◌else◌, u8, u16, length, take, drop, replicate, length-append,
  length-replicate, take-append,
}
use bilbycast_rist.Wire.{Buf, Result, ok, err, packet_too_short, other, guard, ◌>>◌}
use bilbycast_rist.Wire.BigEndian.{IsBigEndian, length-put_u32}
use bilbycast_rist.Rtcp.{RtcpCommonHeader, parse_header, packet_size}
use bilbycast_rist.Rtcp.Header.{parse_header-bytes}
use bilbycast_rist.Report.{Sdes}
use Prim.Native.Char.{code}
use Prim.Native.String.{String}

abbrev pub rtcp_pt_sdes : ℕ
rtcp_pt_sdes = 202

abbrev pub sdes_cname : ℕ
sdes_cname = 1

abbrev codes : String → List ℕ
codes String.[] = []
codes (String.◌∷◌ c s) = code c ∷ codes s

-- The decimal digits of a `u8`.
abbrev pub decimal8 : ℕ → List ℕ
decimal8 n =
    if ltb n 10
    then (48 + n) ∷ []
    else if ltb n 100
    then (48 + n / 10) ∷ (48 + n % 10) ∷ []
    else (48 + n / 100) ∷ (48 + n / 10 % 10) ∷ (48 + n % 10) ∷ []

module _ (from_utf8_lossy : List ℕ → List ℕ) where
  unfoldable pub parse_sdes : List ℕ → Result Sdes
  parse_sdes (a ∷ b ∷ c ∷ d ∷ item_type ∷ name_len ∷ r) = do
    guard (item_type == sdes_cname)
        (other (codes "expected SDES CNAME (type 1), got type " ++ decimal8 item_type))
    guard (not (ltb (6 + length r) (6 + name_len))) (packet_too_short (6 + name_len) (6 + length r))
    ok (record {
      ssrc = a * 2 ^ 24 + b * 2 ^ 16 + c * 2 ^ 8 + d;
      cname = from_utf8_lossy (take name_len r);
    })
  parse_sdes buf = err (packet_too_short 6 (length buf))

-- The zero bytes after the name: one to four of them.
abbrev pub padding_needed : ℕ → ℕ
padding_needed chunk_len =
    let missing = (4 - chunk_len % 4) % 4 in if missing == 0 then 4 else missing

unfoldable pub serialize_sdes : Buf → Sdes → List ℕ
serialize_sdes w d =
    let name_len = length d.cname in
    let padding = padding_needed (4 + 2 + name_len) in
    let length_words = (4 + (4 + 2 + name_len + padding)) / 4 - 1 in
    w.put_u8 0x81
    ++ (w.put_u8 rtcp_pt_sdes
        ++ (w.put_u16 (u16 length_words)
            ++ (w.put_u32 d.ssrc
                ++ (w.put_u8 sdes_cname
                    ++ (w.put_u8 (u8 name_len) ++ (w.put_slice d.cname ++ replicate padding 0))))))

padded :
    (n : ℕ)
    → (padding_needed (6 + n) ≤ 4)
      × ((6 + n + padding_needed (6 + n)) % 4 ≡ 0)
      × (1 ≤ padding_needed (6 + n))
padded n = ground arith

module _ {w : Buf} (be : IsBigEndian w) (from_utf8_lossy : List ℕ → List ℕ) where
  abbrev words : Sdes → ℕ
  words d = (6 + length d.cname + padding_needed (6 + length d.cname)) / 4

  abbrev named : Sdes → List ℕ
  named d =
      sdes_cname ∷ length d.cname ∷ d.cname ++ replicate (padding_needed (6 + length d.cname)) 0

  abbrev body : Sdes → List ℕ
  body d = w.put_u32 d.ssrc ++ named d

  length-body : (d : Sdes) → length (body d) ≡ words d * 4
  length-body d = omega (
    arith,
    length-append (w.put_u32 d.ssrc) (named d),
    length-put_u32 be d.ssrc,
    length-append d.cname (replicate (padding_needed (6 + length d.cname)) 0),
    length-replicate {A = ℕ} (padding_needed (6 + length d.cname)) 0,
    padded (length d.cname),
  )

  serialize_sdes-bytes :
      (d : Sdes)
      → length d.cname < 2 ^ 8
      → serialize_sdes w d ≡ (0x81 ∷ rtcp_pt_sdes ∷ words d / 2 ^ 8 ∷ words d % 2 ^ 8 ∷ body d)
  unfolding serialize_sdes
  serialize_sdes-bytes d h =
      let len : u8 (length d.cname) ≡ length d.cname = omega arith in
      let w8 : length d.cname % 2 ^ 8 ≡ length d.cname = omega arith in
      let count : u16 ((4 + (6 + length d.cname + padding_needed (6 + length d.cname))) / 4 - 1)
          ≡ words d =
        omega (arith, padded (length d.cname)) in
      let high : words d / 2 ^ 8 % 2 ^ 8 ≡ words d / 2 ^ 8 =
        omega (arith, padded (length d.cname)) in
      rw (be.put_u8_be 0x81) (
        rw (be.put_u8_be rtcp_pt_sdes) (
          rw count (
            rw (be.put_u16_be (words d)) (
              rw high (
                rw (be.put_u8_be sdes_cname) (
                  rw len (
                    rw (be.put_u8_be (length d.cname))
                      (rw (w8, be.put_slice_be d.cname) refl))))))))

  parse_sdes-body :
      (d : Sdes)
      → d.ssrc < 2 ^ 32
      → from_utf8_lossy d.cname ≡ d.cname
      → parse_sdes from_utf8_lossy (body d) ≡ ok d
  unfolding parse_sdes
  parse_sdes-body d h utf8 =
      let zeros : List ℕ = replicate (padding_needed (6 + length d.cname)) 0 in
      let enough : ltb (6 + length (d.cname ++ zeros)) (6 + length d.cname) ≡ false =
        ground (arith, length-append d.cname zeros) in
      let whole : d.ssrc / 2 ^ 24 % 2 ^ 8 * 2 ^ 24
            + d.ssrc / 2 ^ 16 % 2 ^ 8 * 2 ^ 16
            + d.ssrc / 2 ^ 8 % 2 ^ 8 * 2 ^ 8
            + d.ssrc % 2 ^ 8
          ≡ d.ssrc =
        omega arith in
      rw (be.put_u32_be d.ssrc) (rw (enough, whole, take-append d.cname zeros, utf8) refl)

  -- With big-endian byte buffers, a source description whose SSRC has 32 bits and whose name, at
  -- most 255 bytes, is a string (`from_utf8_lossy` leaves its bytes alone) is what the two parsers
  -- read back from its bytes: the header has the type of a source description and the size of the
  -- whole packet, and the body gives the description. The name is followed by at least one zero
  -- byte.
  pub parse-serialize_sdes :
      (d : Sdes)
      → d.ssrc < 2 ^ 32
      → length d.cname < 2 ^ 8
      → from_utf8_lossy d.cname ≡ d.cname
      → (h : RtcpCommonHeader) × (parse_header w (serialize_sdes w d) ≡ ok h)
        × (h.packet_type ≡ rtcp_pt_sdes)
        × (packet_size h ≡ length (serialize_sdes w d))
        × (10 + length d.cname < length (serialize_sdes w d))
        × (parse_sdes from_utf8_lossy (drop 4 (serialize_sdes w d)) ≡ ok d)
  parse-serialize_sdes d h n utf8 =
      let bytes = serialize_sdes-bytes d n in
      let len : length (serialize_sdes w d) ≡ 4 + words d * 4 =
        ap length bytes ∙ omega (arith, length-body d) in
      (
        record {
          version = 2;
          padding = false;
          count = 1;
          packet_type = rtcp_pt_sdes;
          length_words = words d;
        },
        ap (parse_header w) bytes
            ∙ parse_header-bytes be 1 rtcp_pt_sdes (words d) (body d) (omega arith),
        refl,
        omega (arith, len),
        omega (arith, len, padded (length d.cname)),
        ap (λ t. parse_sdes from_utf8_lossy (drop 4 t)) bytes ∙ parse_sdes-body d h utf8,
      )
