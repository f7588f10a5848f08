-- ===== src/SenderState/Counts.antt =====
-- What a sender report says of the packets sent, and of the two clocks.
use bilbycast_rist.Prelude.{
  ℕ, ◌+◌, ◌-◌, ◌*◌, ◌/◌, ◌%◌, ◌^◌, ◌≤◌, ◌<◌, ◌≡◌, refl, arith, List, [], ◌∷◌, length,
}
use bilbycast_rist.Sender.{ntp_to_rtp90k}
use bilbycast_rist.SenderState.{RtcpSenderState, on_packet_sent, generate_sr}

-- Packets sent one after the other: the payload's size, the timestamp and the instant of each.
abbrev pub send_run : RtcpSenderState → List (ℕ × ℕ × ℕ) → RtcpSenderState
send_run s [] = s
send_run s (p ∷ ps) = send_run (on_packet_sent s p.0 p.1 p.2) ps

abbrev pub octets : List (ℕ × ℕ × ℕ) → ℕ
octets [] = 0
octets (p ∷ ps) = p.0 + octets ps

-- The counters modulo 2 ^ 32, and the rest of the state that a report reads.
abbrev Counted : RtcpSenderState → ℕ → ℕ → RtcpSenderState → Type 0
Counted s n k t =
    (t.packet_count ≡ (s.packet_count + n) % 2 ^ 32)
    × (t.octet_count ≡ (s.octet_count + k) % 2 ^ 32)
    × (t.ssrc ≡ s.ssrc)
    × (t.rtp_ts_epoch ≡ s.rtp_ts_epoch)
    × (t.rtp_ts_epoch_system ≡ s.rtp_ts_epoch_system)

send_run-Counted :
    (s : RtcpSenderState) (ps : List (ℕ × ℕ × ℕ))
    → s.packet_count < 2 ^ 32
    → s.octet_count < 2 ^ 32
    → Counted s (length ps) (octets ps) (send_run s ps)
unfolding on_packet_sent
send_run-Counted s [] h k = (omega arith, omega arith, refl, refl, refl)
send_run-Counted s (p ∷ ps) h k =
    let rest = send_run-Counted (on_packet_sent s p.0 p.1 p.2) ps (omega arith) (omega arith) in
    (omega (arith, rest.0), omega (arith, rest.1), rest.2, rest.3, rest.4)

-- After any run of packets, from counters of 32 bits, the report counts all packets and payload
-- bytes modulo 2 ^ 32; its RTP timestamp is the one that the sender's data path gives a packet at
-- the same instant by the same clock; its NTP timestamp, 32 bits of seconds modulo 2 ^ 32 and 32 bits
-- of fraction, is the wall-clock time to within one unit of the fraction, from below.
pub generate_sr-counts :
    (s : RtcpSenderState) (ps : List (ℕ × ℕ × ℕ)) (now system_now : ℕ)
    → s.packet_count < 2 ^ 32
    → s.octet_count < 2 ^ 32
    → let r = (generate_sr (send_run s ps) now system_now).0 in
      (r.sender_packet_count ≡ (s.packet_count + length ps) % 2 ^ 32)
      × (r.sender_octet_count ≡ (s.octet_count + octets ps) % 2 ^ 32)
      × (r.rtp_timestamp
          ≡ ntp_to_rtp90k (s.rtp_ts_epoch_system / 1000) ((now - s.rtp_ts_epoch) / 1000))
      × (r.ntp_msw ≡ (system_now / 1_000_000_000 + 2_208_988_800) % 2 ^ 32)
      × (r.ntp_lsw < 2 ^ 32)
      × (r.ntp_lsw * 1_000_000_000 ≤ system_now % 1_000_000_000 * 2 ^ 32)
      × (system_now % 1_000_000_000 * 2 ^ 32 < (r.ntp_lsw + 1) * 1_000_000_000)
unfolding generate_sr ntp_to_rtp90k
generate_sr-counts s ps now system_now h k =
    let c = send_run-Counted s ps h k in
    (c.0, c.1, rw (c.3, c.4) refl, omega arith, omega arith, omega arith, omega arith)
