-- ===== src/Sender/Recover.antt =====
-- The sender's datagrams, read by the RTP parser.
use bilbycast_rist.Prelude.{
  ℕ, ◌+◌, ◌*◌, ◌^◌, ◌<◌, ◌≡◌, ◌∙◌, refl, ap, arith, true, false, List, ◌++◌, ◌==◌, not,
}
use bilbycast_rist.Prelude.Bits.{bit_and-mask, bit_and-even}
use bilbycast_rist.Wire.{Buf, ok}
use bilbycast_rist.Wire.BigEndian.{IsBigEndian}
use bilbycast_rist.Rtp.{
  RtpPacket, new_ts, is_retransmit, logical_ssrc, parse, serialize, serialize_header,
}
use bilbycast_rist.Rtp.Header.{parse-serialize_plain}
use bilbycast_rist.Sender.{write_rtp_header, retx_copy}
use bilbycast_rist.Sender.Media.{retx_copy-write_rtp_header}

module _ {w : Buf} (be : IsBigEndian w) where
  -- `write_rtp_header` writes what `RtpHeader::new_ts` serializes to.
  pub write_rtp_header_lem :
      (ssrc seq timestamp : ℕ)
      → write_rtp_header w ssrc seq timestamp ≡ serialize_header w (new_ts ssrc seq timestamp)
  unfolding write_rtp_header serialize_header new_ts
  write_rtp_header_lem ssrc seq timestamp = refl

  parse-datagram :
      (ssrc seq timestamp : ℕ) (payload : List ℕ)
      → ssrc < 2 ^ 32
      → seq < 2 ^ 16
      → timestamp < 2 ^ 32
      → parse w (write_rtp_header w ssrc seq timestamp ++ payload)
        ≡ ok (record { header = new_ts ssrc seq timestamp; payload = payload })
  unfolding new_ts serialize
  parse-datagram ssrc seq timestamp payload hs hq ht =
      ap (λ t. parse w (t ++ payload)) (write_rtp_header_lem ssrc seq timestamp)
      ∙ parse-serialize_plain be (record { header = new_ts ssrc seq timestamp; payload = payload })
          (record {
            version_is = refl;
            csrc_fits = omega arith;
            type_fits = omega arith;
            seq_fits = hq;
            timestamp_fits = ht;
            ssrc_fits = hs;
          })
          refl refl

  pub flags :
      (half seq timestamp : ℕ)
      → half < 2 ^ 31
      → (is_retransmit (new_ts (half * 2) seq timestamp) ≡ false)
        × (is_retransmit (new_ts (half * 2 + 1) seq timestamp) ≡ true)
        × (logical_ssrc (new_ts (half * 2 + 1) seq timestamp) ≡ half * 2)
  unfolding is_retransmit logical_ssrc new_ts
  flags half seq timestamp h = (
    ap (λ (t : ℕ). not (t == 0)) {y = 0} (bit_and-mask 1 (half * 2) ∙ omega arith),
    ap (λ (t : ℕ). not (t == 0)) {y = 1} (bit_and-mask 1 (half * 2 + 1) ∙ omega arith),
    bit_and-even (half * 2 + 1) (omega arith) ∙ omega arith,
  )

  -- With big-endian byte buffers, an even SSRC and fields that fit their widths: a media datagram
  -- and its retransmit, as the RTP parser reads them, have the same sequence number, timestamp and
  -- payload, told apart by the retransmit flag, which is set on the retransmit alone, and of the
  -- same logical SSRC.
  pub parse-retransmit :
      (half seq timestamp : ℕ) (payload : List ℕ)
      → half < 2 ^ 31
      → seq < 2 ^ 16
      → timestamp < 2 ^ 32
      → (fresh : RtpPacket) × (again : RtpPacket) × (parse w
            (write_rtp_header w (half * 2) seq timestamp ++ payload)
          ≡ ok fresh)
        × (parse w (retx_copy (write_rtp_header w (half * 2) seq timestamp ++ payload)) ≡ ok again)
        × (is_retransmit fresh.header ≡ false)
        × (is_retransmit again.header ≡ true)
        × (logical_ssrc again.header ≡ fresh.header.ssrc)
        × (again.header.sequence_number ≡ fresh.header.sequence_number)
        × (again.header.timestamp ≡ fresh.header.timestamp)
        × (again.payload ≡ fresh.payload)
  unfolding new_ts
  parse-retransmit half seq timestamp payload hh hq ht =
      let marks = flags half seq timestamp hh in
      (
        record { header = new_ts (half * 2) seq timestamp; payload = payload },
        record { header = new_ts (half * 2 + 1) seq timestamp; payload = payload },
        parse-datagram (half * 2) seq timestamp payload (omega arith) hq ht,
        ap (parse w) (retx_copy-write_rtp_header be half seq timestamp payload hh)
            ∙ parse-datagram (half * 2 + 1) seq timestamp payload (omega arith) hq ht,
        marks.0,
        marks.1,
        marks.2,
        refl,
        refl,
        refl,
      )
