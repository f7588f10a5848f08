-- ===== src/SenderState/Tests.antt =====
-- The sender's counters at concrete inputs.
use bilbycast_rist.Prelude.{
  ℕ, ◌+◌, ◌-◌, ◌*◌, ◌/◌, ◌%◌, ◌^◌, ◌≤◌, ◌<◌, ◌≡◌, arith, List, [], ◌∷◌, length,
}
use bilbycast_rist.Sender.{ntp_to_rtp90k}
use bilbycast_rist.SenderState.{RtcpSenderState, new, generate_sr}
use bilbycast_rist.SenderState.Counts.{send_run, octets, generate_sr-counts}

abbrev fresh : RtcpSenderState
fresh = new 0x1234 (116 ∷ []) 100 5_000_000 1_700_000_000_500_000_000

abbrev two_packets : List (ℕ × ℕ × ℕ)
two_packets = (1316, 90_000, 6_000_000) ∷ (1316, 93_600, 7_000_000) ∷ []

generate_sr-counts_example :
    let r = (generate_sr (send_run fresh two_packets) 8_000_000 1_700_000_000_503_000_000).0 in
    (r.sender_packet_count ≡ (0 + length two_packets) % 2 ^ 32)
    × (r.sender_octet_count ≡ (0 + octets two_packets) % 2 ^ 32)
    × (r.rtp_timestamp
        ≡ ntp_to_rtp90k (1_700_000_000_500_000_000 / 1000) ((8_000_000 - 5_000_000) / 1000))
    × (r.ntp_msw ≡ (1_700_000_000_503_000_000 / 1_000_000_000 + 2_208_988_800) % 2 ^ 32)
    × (r.ntp_lsw < 2 ^ 32)
    × (r.ntp_lsw * 1_000_000_000 ≤ 1_700_000_000_503_000_000 % 1_000_000_000 * 2 ^ 32)
    × (1_700_000_000_503_000_000 % 1_000_000_000 * 2 ^ 32 < (r.ntp_lsw + 1) * 1_000_000_000)
unfolding new
generate_sr-counts_example =
    generate_sr-counts fresh two_packets 8_000_000 1_700_000_000_503_000_000 (omega arith)
      (omega arith)
