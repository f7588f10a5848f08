-- ===== src/Report.antt =====
-- The report packets of rist-protocol/src/packet/rtcp_sr.rs, rtcp_rr.rs and rtcp_sdes.rs: their
-- data, and the parsers and serializers of the two reports.
pub mod Round
pub mod Blocks
pub mod Description
pub mod Tests
use bilbycast_rist.Prelude.{
  ℕ, ltb, not, ◌+◌, ◌-◌, ◌*◌, ◌/◌, ◌%◌, ◌^◌, zero, suc, ◌==◌, true, false, if◌then◌else◌, List, [],
  ◌∷◌, ◌++◌, bit_and, bit_or, length, u8, u16,
}
use bilbycast_rist.Prelude.Int.{ℤ, pos, negsuc}
use bilbycast_rist.Wire.{
  Buf, Result, ok, err, panic, packet_too_short, or_panic, guard, ◌>>=◌, ◌>>◌,
}

pub record SenderReport : Type 0 where
  pub ssrc : ℕ
  pub ntp_msw : ℕ
  pub ntp_lsw : ℕ
  pub rtp_timestamp : ℕ
  pub sender_packet_count : ℕ
  pub sender_octet_count : ℕ

pub record ReportBlock : Type 0 where
  pub ssrc : ℕ
  pub fraction_lost : ℕ
  pub cumulative_lost : ℤ
  pub extended_highest_seq : ℕ
  pub jitter : ℕ
  pub last_sr : ℕ
  pub delay_since_last_sr : ℕ

pub record ReceiverReport : Type 0 where
  pub ssrc : ℕ
  pub reports : List ReportBlock

-- `cname` is its bytes.
pub record Sdes : Type 0 where
  pub ssrc : ℕ
  pub cname : List ℕ

abbrev pub rtcp_pt_sr : ℕ
rtcp_pt_sr = 200

abbrev pub rtcp_pt_rr : ℕ
rtcp_pt_rr = 201

-- `x as u32` of an `i32`
abbrev pub unsigned32 : ℤ → ℕ
unsigned32 (pos n) = n % 2 ^ 32
unsigned32 (negsuc n) = 2 ^ 32 - 1 - n % 2 ^ 32

-- `ReceiverReport::empty`
abbrev pub empty_report : ℕ → ReceiverReport
empty_report ssrc = record { ssrc = ssrc; reports = [] }

module _ (w : Buf) where
  unfoldable pub put_block : ReportBlock → List ℕ
  put_block b =
      let lost_word =
        bit_or (b.fraction_lost * 2 ^ 24) (bit_and (unsigned32 b.cumulative_lost) 0x00ffffff) in
      w.put_u32 b.ssrc
      ++ (w.put_u32 lost_word
          ++ (w.put_u32 b.extended_highest_seq
              ++ (w.put_u32 b.jitter ++ (w.put_u32 b.last_sr ++ w.put_u32 b.delay_since_last_sr))))

  unfoldable pub put_blocks : List ReportBlock → List ℕ
  unfolding put_block
  put_blocks [] = []
  put_blocks (b ∷ bs) = put_block b ++ put_blocks bs

  unfoldable pub serialize_rr : ReceiverReport → List ℕ
  unfolding put_blocks
  serialize_rr r =
      let rc = u8 (length r.reports) in
      w.put_u8 (bit_or 0x80 (bit_and rc 0x1f))
      ++ (w.put_u8 rtcp_pt_rr
          ++ (w.put_u16 (u16 (1 + rc * 6)) ++ (w.put_u32 r.ssrc ++ put_blocks r.reports)))

  unfoldable pub parse_sr : List ℕ → Result SenderReport
  parse_sr buf = do
    guard (not (ltb (length buf) 24)) (packet_too_short 24 (length buf))
    (ssrc, r1) ← or_panic (w.get_u32 buf)
    (ntp_msw, r2) ← or_panic (w.get_u32 r1)
    (ntp_lsw, r3) ← or_panic (w.get_u32 r2)
    (rtp_timestamp, r4) ← or_panic (w.get_u32 r3)
    (packets, r5) ← or_panic (w.get_u32 r4)
    (octets, r6) ← or_panic (w.get_u32 r5)
    ok (record {
      ssrc = ssrc;
      ntp_msw = ntp_msw;
      ntp_lsw = ntp_lsw;
      rtp_timestamp = rtp_timestamp;
      sender_packet_count = packets;
      sender_octet_count = octets;
    })

  unfoldable pub serialize_sr : SenderReport → List ℕ
  serialize_sr r =
      w.put_u8 0x80
      ++ (w.put_u8 rtcp_pt_sr
          ++ (w.put_u16 6
              ++ (w.put_u32 r.ssrc
                  ++ (w.put_u32 r.ntp_msw
                      ++ (w.put_u32 r.ntp_lsw
                          ++ (w.put_u32 r.rtp_timestamp
                              ++ (w.put_u32 r.sender_packet_count
                                  ++ w.put_u32 r.sender_octet_count)))))))

-- `cumulative_raw as i32`, sign-extended from its 24 bits.
abbrev pub signed24 : ℕ → ℤ
signed24 raw = if bit_and raw 0x800000 == 0 then pos raw else negsuc (2 ^ 24 - raw - 1)

module _ (w : Buf) where
  -- `ReportBlock::parse`, with what follows the block.
  unfoldable pub parse_block : List ℕ → Result (ReportBlock × List ℕ)
  parse_block buf = do
    guard (not (ltb (length buf) 24)) (packet_too_short 24 (length buf))
    (ssrc, r1) ← or_panic (w.get_u32 buf)
    (lost_word, r2) ← or_panic (w.get_u32 r1)
    (highest, r3) ← or_panic (w.get_u32 r2)
    (jitter, r4) ← or_panic (w.get_u32 r3)
    (last_sr, r5) ← or_panic (w.get_u32 r4)
    (delay, r6) ← or_panic (w.get_u32 r5)
    ok (
      record {
        ssrc = ssrc;
        fraction_lost = u8 (lost_word / 2 ^ 24);
        cumulative_lost = signed24 (bit_and lost_word 0x00ffffff);
        extended_highest_seq = highest;
        jitter = jitter;
        last_sr = last_sr;
        delay_since_last_sr = delay;
      },
      r6,
    )

  -- The loop over `rc` blocks.
  unfoldable pub parse_blocks : ℕ → List ℕ → Result (List ReportBlock)
  unfolding parse_block
  parse_blocks zero buf = ok []
  parse_blocks (suc rc) buf = do
    (block, rest) ← parse_block buf
    blocks ← parse_blocks rc rest
    ok (block ∷ blocks)

  unfoldable pub parse_rr : List ℕ → ℕ → Result ReceiverReport
  unfolding parse_blocks
  parse_rr buf rc = do
    guard (not (ltb (length buf) 4)) (packet_too_short 4 (length buf))
    (ssrc, r) ← or_panic (w.get_u32 buf)
    reports ← parse_blocks rc r
    ok (record { ssrc = ssrc; reports = reports })
