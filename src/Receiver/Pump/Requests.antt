-- ===== src/Receiver/Pump/Requests.antt =====
-- The datagram of the NACK pump, as the sender's parser reads it.
use bilbycast_rist.Prelude.{ℕ, ◌-◌, ◌^◌, ◌<◌, ◌≡◌, arith, List, length, All}
use bilbycast_rist.Wire.{Buf, ok}
use bilbycast_rist.Wire.BigEndian.{IsBigEndian}
use bilbycast_rist.Nack.{NackListBuilder}
use bilbycast_rist.Nack.Builder.{IsU16}
use bilbycast_rist.Nack.Fits.{build_bitmask-Fits}
use bilbycast_rist.ReceiverState.Fits.{StateFits, generate_rr-Fits}
use bilbycast_rist.Compound.{parse_compound, serialize_compound}
use bilbycast_rist.Compound.Frames.{parse-serialize_compound}
use bilbycast_rist.Receiver.State.{Receiver}
use bilbycast_rist.Receiver.Pump.{nack_packets, media_ssrc_of}

-- The receiver's words are of 32 bits.
pub record ReceiverFits (st : Receiver) (ssrc jitter : ℕ) : Type 0 where
  pub state_fits : StateFits st.rtcp_state
  pub media_fits : media_ssrc_of st.rtcp_state.sender_ssrc st.observed_media_ssrc < 2 ^ 32
  pub ssrc_fits : ssrc < 2 ^ 32
  pub jitter_fits : jitter < 2 ^ 32

module _ {w : Buf} (be : IsBigEndian w) (utf8 : List ℕ → List ℕ) where
  -- With big-endian byte buffers and words of 32 bits in the receiver's state, for any sequence of
  -- fewer than 2 ^ 16 - 2 numbers of 16 bits: the datagram of the pump is read back as the receiver
  -- report and the NACK that it was made of.
  pub parse-nack_packets :
      (ssrc jitter now : ℕ) (pending : List ℕ) (st : Receiver)
      → ReceiverFits st ssrc jitter
      → All IsU16 pending
      → length pending < 2 ^ 16 - 2
      → parse_compound w utf8 (serialize_compound w (nack_packets ssrc jitter now pending st))
        ≡ ok (nack_packets ssrc jitter now pending st)
  unfolding nack_packets
  parse-nack_packets ssrc jitter now pending st f u n =
      let b : NackListBuilder = record {
        sender_ssrc = ssrc;
        media_ssrc = media_ssrc_of st.rtcp_state.sender_ssrc st.observed_media_ssrc;
      } in
      let fits = build_bitmask-Fits b pending f.ssrc_fits f.media_fits u in
      parse-serialize_compound be utf8 (nack_packets ssrc jitter now pending st) (omega arith) (
        generate_rr-Fits st.rtcp_state jitter now f.state_fits f.jitter_fits,
        ((fits.0, omega (arith, fits.1, n)), tt),
      )
