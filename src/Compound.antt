-- ===== src/Compound.antt =====
-- Compound RTCP datagrams, rist-protocol/src/packet/rtcp.rs (`RtcpPacket`, `RtcpCompound`).
pub mod Frames
pub mod Total
pub mod Tests
use bilbycast_rist.Prelude.{
  ℕ, zero, suc, ◌-◌, ◌*◌, ◌/◌, ◌^◌, ◌+◌, min, Bool, true, false, List, [], ◌∷◌, ◌++◌, if◌then◌else◌,
  ltb, ◌==◌, ◌&&◌, length, take, drop,
}
use bilbycast_rist.Wire.{Buf, Result, ok, err, panic, ◌>>=◌}
use bilbycast_rist.Rtcp.{RtcpCommonHeader, parse_header, packet_size}
use bilbycast_rist.Report.{
  SenderReport, ReceiverReport, Sdes, rtcp_pt_sr, rtcp_pt_rr, empty_report, parse_sr, parse_rr,
  serialize_sr, serialize_rr,
}
use bilbycast_rist.Report.Description.{rtcp_pt_sdes, parse_sdes, serialize_sdes}
use bilbycast_rist.Nack.{NackPacket, rtcp_pt_rtpfb}
use bilbycast_rist.Nack
use bilbycast_rist.App.{RistApp, RttEchoRequest, echo_request, rtcp_pt_app}
use bilbycast_rist.Rtt.{RttEstimator, should_send_request, generate_request}
use bilbycast_rist.App

pub data RtcpPacket : Type 0 where
  sender_report : SenderReport → RtcpPacket
  receiver_report : ReceiverReport → RtcpPacket
  sdes : Sdes → RtcpPacket
  nack : NackPacket → RtcpPacket
  app : RistApp → RtcpPacket
  unknown_packet : ℕ → List ℕ → RtcpPacket

abbrev pub max_rtcp_sub_packets : ℕ
max_rtcp_sub_packets = 64

-- `.map(…).unwrap_or_else(|_| RtcpPacket::Unknown { … })`
abbrev pub or_unknown {ℓ} :
    {A : Type ℓ} → (A → RtcpPacket) → ℕ → List ℕ → Result A → Result RtcpPacket
or_unknown as_packet packet_type payload (ok a) = ok (as_packet a)
or_unknown as_packet packet_type payload (err e) = ok (unknown_packet packet_type payload)
or_unknown as_packet packet_type payload panic = panic

module _ (w : Buf) (from_utf8_lossy : List ℕ → List ℕ) where
  -- One packet, from its header's type and count and its payload.
  unfoldable pub parse_packet : ℕ → ℕ → List ℕ → Result RtcpPacket
  parse_packet packet_type count payload =
      if packet_type == rtcp_pt_sr
      then or_unknown sender_report packet_type payload (parse_sr w payload)
      else if packet_type == rtcp_pt_rr
      then or_unknown receiver_report packet_type payload (parse_rr w payload count)
      else if packet_type == rtcp_pt_sdes
      then or_unknown sdes packet_type payload (parse_sdes from_utf8_lossy payload)
      else if packet_type == rtcp_pt_rtpfb
      then or_unknown nack packet_type payload (Nack.parse w payload count (length payload))
      else if packet_type == rtcp_pt_app
      then or_unknown app packet_type payload (App.parse w payload count)
      else ok (unknown_packet packet_type payload)

  -- The loop, with room for so many more packets, on what is left of the datagram.
  unfoldable pub parse_packets : ℕ → List ℕ → Result (List RtcpPacket)
  unfolding parse_packet
  parse_packets zero r = ok []
  parse_packets (suc room) r =
      let more = do
        header ← parse_header w r
        let one = do
          pkt ← parse_packet header.packet_type header.count (drop 4 (take (packet_size header) r))
          rest ← parse_packets room (drop (packet_size header) r)
          ok (pkt ∷ rest)
        if ltb (length r) (packet_size header) then ok [] else one
      in if ltb (length r) 4 then ok [] else more

  -- `RtcpCompound::parse`
  unfoldable pub parse_compound : List ℕ → Result (List RtcpPacket)
  unfolding parse_packets
  parse_compound buf = parse_packets max_rtcp_sub_packets buf

-- `RtcpCompound::serialize`
unfoldable pub packet_bytes : Buf → RtcpPacket → List ℕ
packet_bytes w (sender_report r) = serialize_sr w r
packet_bytes w (receiver_report r) = serialize_rr w r
packet_bytes w (sdes d) = serialize_sdes w d
packet_bytes w (nack n) = Nack.serialize w n
packet_bytes w (app a) = App.serialize w a
packet_bytes w (unknown_packet t bytes) = []

unfoldable pub serialize_compound : Buf → List RtcpPacket → List ℕ
unfolding packet_bytes
serialize_compound w [] = []
serialize_compound w (p ∷ ps) = packet_bytes w p ++ serialize_compound w ps

-- The answer of both tasks to an echo request, after a turnaround of so many nanoseconds.
unfoldable pub echo_reply : Buf → ℕ → RttEchoRequest → ℕ → List ℕ
unfolding serialize_compound
echo_reply w ssrc q elapsed = serialize_compound w (
    receiver_report (empty_report ssrc)
    ∷ app (
        App.echo_response (record {
          ssrc = q.ssrc;
          timestamp_msw = q.timestamp_msw;
          timestamp_lsw = q.timestamp_lsw;
          processing_delay_us = min (elapsed / 1000) (2 ^ 32 - 1);
        }))
    ∷ [])

-- The echo request that a periodic report carries, when one is enabled and due.
abbrev pub echo_packets : Bool → ℕ → ℕ → RttEstimator → List RtcpPacket × RttEstimator
echo_packets rtt_echo_enabled ssrc now e =
    let (e', words) = generate_request e now in
    if rtt_echo_enabled && should_send_request e now
    then (
      app (echo_request (record { ssrc = ssrc; timestamp_msw = words.0; timestamp_lsw = words.1 }))
          ∷ [],
      e',
    )
    else ([], e)
