-- ===== src/ReceiverState/Tests.antt =====
-- A run across the wrap of the sequence numbers.
use bilbycast_rist.Prelude.{
  ℕ, ◌+◌, ◌-◌, ◌*◌, ◌/◌, ◌%◌, ◌^◌, ◌≡◌, min, ltb, if◌then◌else◌, refl, arith, Bool, true, false,
  List, [], ◌∷◌,
}
use bilbycast_rist.ReceiverState.{RtcpReceiverState, new, on_packet_received, generate_rr}
use bilbycast_rist.Prelude.Int.{pos, negsuc}
use bilbycast_rist.Report.{ReportBlock}
use bilbycast_rist.ReceiverState.Loss.{loss_between}
use bilbycast_rist.ReceiverState.Extended.{
  Tracks, receive_run, highest, fresh_count, receive_run-Tracks,
}

abbrev started : RtcpReceiverState
started = on_packet_received (new 1 [] 100) 65534 false

-- 65536 before 65535, which comes twice.
abbrev packets : List (ℕ × Bool)
packets = (65536, false) ∷ (65535, false) ∷ (65535, true) ∷ []

receive_run_example :
    Tracks (receive_run started packets) (highest 65534 packets)
    × ((receive_run started packets).packets_received
        ≡ (started.packets_received + fresh_count packets) % 2 ^ 32)
unfolding on_packet_received new
receive_run_example =
    receive_run-Tracks started 65534 packets
      (record { started = refl; extended = refl; cycles = refl; low = refl })
      (
        omega arith,
        omega arith,
        omega arith,
        (omega arith, omega arith, omega arith, (omega arith, omega arith, omega arith, tt)),
      )
      (omega arith)

extended : (receive_run started packets).extended_max_seq ≡ 65536
unfolding on_packet_received new
extended = refl

-- Two reports with one packet lost and one doubled between them: 65535 arrives, 65536 does not.
abbrev gap : List (ℕ × Bool)
gap = (65535, false) ∷ (65535, true) ∷ (65537, false) ∷ []

loss_between_example :
    (b : ReportBlock) × ((generate_rr (receive_run (generate_rr started 0 1).1 gap) 0 2).0.reports
      ≡ b ∷ [])
    × (b.extended_highest_seq ≡ highest 65534 gap)
    × (b.fraction_lost ≡ (
        if ltb (fresh_count gap) (highest 65534 gap - 65534)
        then min
            ((highest 65534 gap - 65534 - fresh_count gap) * 256 / (highest 65534 gap - 65534))
            255
        else 0))
    × (let expected = highest 65534 gap + 1 - started.base_seq in
        let received = started.packets_received + fresh_count gap in
        b.cumulative_lost ≡ (
          if ltb expected received
          then negsuc (min (received - expected) (2 ^ 23) - 1)
          else pos (min (expected - received) (2 ^ 23 - 1))))
unfolding on_packet_received new
loss_between_example =
    loss_between started 65534 gap 0 1 0 2
      (record { started = refl; extended = refl; cycles = refl; low = refl })
      (
        omega arith,
        omega arith,
        omega arith,
        (omega arith, omega arith, omega arith, (omega arith, omega arith, omega arith, tt)),
      )
      (omega arith) (omega arith) (omega arith) (omega arith)
