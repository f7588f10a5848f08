-- ===== src/Report/Blocks.antt =====
-- `ReceiverReport::serialize` against `ReceiverReport::parse`, report blocks included.
pub mod Signed
use bilbycast_rist.Prelude.{
  ℕ, ◌+◌, ◌-◌, ◌*◌, ◌/◌, ◌%◌, ◌^◌, ◌<◌, ◌≡◌, ◌∙◌, refl, ap, arith, true, false, List, [], ◌∷◌, ◌++◌,
  ltb, ◌==◌, u8, u16, bit_and, bit_or, All, length, drop, append_assoc, length-append, le→not_ltb,
}
use bilbycast_rist.Prelude.Bits.{digit, bit_and-mask, bit_and-pow_eq_zero, bit_or-shifted}
use bilbycast_rist.Prelude.Int.{ℤ, pos, negsuc}
use bilbycast_rist.Wire.{Buf, ok}
use bilbycast_rist.Wire.BigEndian.{
  length-cons_u32, get-last_u32, IsBigEndian, get-put_u32, length-put_u32,
}
use bilbycast_rist.Rtcp.{RtcpCommonHeader, parse_header, packet_size}
use bilbycast_rist.Rtcp.Header.{parse_header-bytes}
use bilbycast_rist.Report.{
  ReportBlock, ReceiverReport, parse_block, parse_blocks, parse_rr, put_block, put_blocks,
  serialize_rr, rtcp_pt_rr, signed24, unsigned32,
}
pub use bilbycast_rist.Report.Blocks.Signed.{BlockFits, Fits24}
use bilbycast_rist.Report.Blocks.Signed.{bits24, signed-bits24, bits24_lt, lost_word, lost_word_lem}

module _ {w : Buf} (be : IsBigEndian w) where
  -- A block with what follows it, its last two fields first.
  abbrev block_end : ReportBlock → List ℕ → List ℕ
  block_end b rest =
      w.put_u32 b.jitter ++ (w.put_u32 b.last_sr ++ (w.put_u32 b.delay_since_last_sr ++ rest))

  abbrev block_bytes : ReportBlock → List ℕ → List ℕ
  block_bytes b rest =
      w.put_u32 b.ssrc
      ++ (w.put_u32 (lost_word b) ++ (w.put_u32 b.extended_highest_seq ++ block_end b rest))

  put_block-rest :
      (b : ReportBlock) (rest : List ℕ) → BlockFits b → put_block w b ++ rest ≡ block_bytes b rest
  unfolding put_block
  put_block-rest b rest f = rw (lost_word_lem b f) (simp append_assoc)

  length-block_bytes :
      (b : ReportBlock) (rest : List ℕ) → length (block_bytes b rest) ≡ 24 + length rest
  length-block_bytes b rest = omega (
    arith,
    length-cons_u32 be b.ssrc
        (w.put_u32 (lost_word b) ++ (w.put_u32 b.extended_highest_seq ++ block_end b rest)),
    length-cons_u32 be (lost_word b) (w.put_u32 b.extended_highest_seq ++ block_end b rest),
    length-cons_u32 be b.extended_highest_seq (block_end b rest),
    length-cons_u32 be b.jitter (w.put_u32 b.last_sr ++ (w.put_u32 b.delay_since_last_sr ++ rest)),
    length-cons_u32 be b.last_sr (w.put_u32 b.delay_since_last_sr ++ rest),
    length-cons_u32 be b.delay_since_last_sr rest,
  )

  parse_block-bytes :
      (b : ReportBlock) (rest : List ℕ)
      → BlockFits b
      → parse_block w (block_bytes b rest) ≡ ok (b, rest)
  unfolding parse_block
  parse_block-bytes b rest f =
      let long : ltb (length (block_bytes b rest)) 24 ≡ false =
        le→not_ltb (length (block_bytes b rest)) 24 (omega (arith, length-block_bytes b rest)) in
      let lost = bits24_lt b.cumulative_lost f.lost_fits in
      let fraction : u8 (lost_word b / 2 ^ 24) ≡ b.fraction_lost =
        omega (arith, lost, f.fraction_fits) in
      let low : bit_and (lost_word b) 0x00ffffff ≡ bits24 b.cumulative_lost =
        bit_and-mask 24 (lost_word b) ∙ omega (arith, lost) in
      rw long (
        rw
          (get-put_u32 be b.ssrc
            (w.put_u32 (lost_word b) ++ (w.put_u32 b.extended_highest_seq ++ block_end b rest))
            f.ssrc_fits)
          (rw
            (get-put_u32 be (lost_word b) (w.put_u32 b.extended_highest_seq ++ block_end b rest)
              (omega (arith, lost, f.fraction_fits)))
            (rw (get-put_u32 be b.extended_highest_seq (block_end b rest) f.highest_fits) (
              rw
                (get-put_u32 be b.jitter
                  (w.put_u32 b.last_sr ++ (w.put_u32 b.delay_since_last_sr ++ rest)) f.jitter_fits)
                (rw
                  (get-put_u32 be b.last_sr (w.put_u32 b.delay_since_last_sr ++ rest)
                    f.last_sr_fits)
                  (rw (get-put_u32 be b.delay_since_last_sr rest f.delay_fits)
                    (rw (fraction, low, signed-bits24 b.cumulative_lost f.lost_fits) refl)))))))

  parse-put_blocks :
      (bs : List ReportBlock)
      → All BlockFits bs
      → parse_blocks w (length bs) (put_blocks w bs) ≡ ok bs
  unfolding parse_blocks put_blocks
  parse-put_blocks [] f = refl
  parse-put_blocks (b ∷ bs) f =
      rw (put_block-rest b (put_blocks w bs) f.0)
        (rw (parse_block-bytes b (put_blocks w bs) f.0) (rw (parse-put_blocks bs f.1) refl))

  length-put_blocks :
      (bs : List ReportBlock) → All BlockFits bs → length (put_blocks w bs) ≡ 24 * length bs
  unfolding put_blocks
  length-put_blocks [] f = refl
  length-put_blocks (b ∷ bs) f =
      rw (put_block-rest b (put_blocks w bs) f.0)
        (omega (arith, length-block_bytes b (put_blocks w bs), length-put_blocks bs f.1))

  abbrev body : ReceiverReport → List ℕ
  body r = w.put_u32 r.ssrc ++ put_blocks w r.reports

  parse_rr-body :
      (r : ReceiverReport)
      → r.ssrc < 2 ^ 32
      → All BlockFits r.reports
      → parse_rr w (body r) (length r.reports) ≡ ok r
  unfolding parse_rr
  parse_rr-body r h f =
      let long : ltb (length (body r)) 4 ≡ false =
        le→not_ltb (length (body r)) 4
          (omega (arith, length-cons_u32 be r.ssrc (put_blocks w r.reports))) in
      rw long (
        rw (get-put_u32 be r.ssrc (put_blocks w r.reports) h)
          (rw (parse-put_blocks r.reports f) refl))

  serialize_rr-bytes :
      (r : ReceiverReport)
      → length r.reports < 2 ^ 5
      → serialize_rr w r ≡ (
          (0x80 + length r.reports)
          ∷ rtcp_pt_rr
          ∷ (1 + length r.reports * 6) / 2 ^ 8
          ∷ (1 + length r.reports * 6) % 2 ^ 8
          ∷ body r)
  unfolding serialize_rr
  serialize_rr-bytes r h =
      let rc : u8 (length r.reports) ≡ length r.reports = omega arith in
      let low : bit_and (length r.reports) 0x1f ≡ length r.reports =
        bit_and-mask 5 (length r.reports) ∙ omega arith in
      let first : bit_or 0x80 (length r.reports) ≡ 0x80 + length r.reports =
        bit_or-shifted 5 4 (length r.reports) h in
      let first8 : (0x80 + length r.reports) % 2 ^ 8 ≡ 0x80 + length r.reports = omega arith in
      let small : u16 (1 + length r.reports * 6) ≡ 1 + length r.reports * 6 = omega arith in
      let high : (1 + length r.reports * 6) / 2 ^ 8 % 2 ^ 8 ≡ (1 + length r.reports * 6) / 2 ^ 8 =
        omega arith in
      rw rc (
        rw low (
          rw first (
            rw (be.put_u8_be (0x80 + length r.reports)) (
              rw (be.put_u8_be rtcp_pt_rr) (
                rw small
                  (rw (be.put_u16_be (1 + length r.reports * 6)) (rw (first8, high) refl)))))))

  -- With big-endian byte buffers, a receiver report of at most 31 blocks whose fields fit their
  -- widths, the count of losses as a signed number of 24 bits, is what the two parsers read back
  -- from its bytes: the header has the type of a receiver report, the number of blocks and the size
  -- of the whole packet, and the body, with that number, gives the report.
  pub parse-serialize_rr :
      (r : ReceiverReport)
      → r.ssrc < 2 ^ 32
      → All BlockFits r.reports
      → length r.reports < 2 ^ 5
      → (h : RtcpCommonHeader) × (parse_header w (serialize_rr w r) ≡ ok h)
        × (h.packet_type ≡ rtcp_pt_rr)
        × (packet_size h ≡ length (serialize_rr w r))
        × (parse_rr w (drop 4 (serialize_rr w r)) h.count ≡ ok r)
  parse-serialize_rr r h f n =
      let bytes = serialize_rr-bytes r n in
      let len : length (serialize_rr w r) ≡ 8 + 24 * length r.reports =
        ap length bytes
        ∙ omega (
          arith,
          length-cons_u32 be r.ssrc (put_blocks w r.reports),
          length-put_blocks r.reports f,
        ) in
      (
        record {
          version = 2;
          padding = false;
          count = length r.reports;
          packet_type = rtcp_pt_rr;
          length_words = 1 + length r.reports * 6;
        },
        ap (parse_header w) bytes
            ∙ parse_header-bytes be (length r.reports) rtcp_pt_rr (1 + length r.reports * 6)
                (body r) n,
        refl,
        omega (arith, len),
        ap (λ t. parse_rr w (drop 4 t) (length r.reports)) bytes ∙ parse_rr-body r h f,
      )
