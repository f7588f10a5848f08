-- ===== src/ReceiverState/Loss.antt =====
-- What a receiver report says of the packets since the report before it.
use bilbycast_rist.Prelude.{
  ℕ, ◌+◌, ◌-◌, ◌*◌, ◌/◌, ◌%◌, ◌^◌, ◌≤◌, ◌<◌, ◌≡◌, ◌∙◌, refl, ap, ap₂, arith, Bool, true, false,
  some, List, [], ◌∷◌, if◌then◌else◌, ltb, max, min, Bool-cases, inl, inr, wrapping_sub,
  wrapping_sub32,
}
use bilbycast_rist.Prelude.Int.{pos, negsuc, signed16, is_positive}
use bilbycast_rist.Report.{ReportBlock}
use bilbycast_rist.ReceiverState.{
  RtcpReceiverState, progress, on_packet_received, generate_rr, expected_packets, fraction_of,
  cumulative_of, report_block,
}
use bilbycast_rist.ReceiverState.Extended.{
  Tracks, receive_run, highest, fresh_count, Near, receive_run-Tracks,
}

-- What receiving leaves alone.
abbrev Kept : RtcpReceiverState → RtcpReceiverState → Type 0
Kept s t =
    (t.first_packet_received ≡ true)
    × (t.base_seq ≡ s.base_seq)
    × (t.expected_prior ≡ s.expected_prior)
    × (t.received_prior ≡ s.received_prior)

on_packet_received-Kept :
    (s : RtcpReceiverState) (q : ℕ) (duplicate : Bool)
    → s.first_packet_received ≡ true
    → Kept s (on_packet_received s q duplicate)
unfolding on_packet_received progress
on_packet_received-Kept s q true h = (h, refl, refl, refl)
on_packet_received-Kept s q false h =
    elim (Bool-cases (is_positive (signed16 (wrapping_sub q s.max_seq)))) [
      | inl e ↦ rw h (rw e (refl, refl, refl, refl))
      | inr e ↦ rw h (rw e (refl, refl, refl, refl))
    ]

receive_run-Kept :
    (s : RtcpReceiverState) (ps : List (ℕ × Bool))
    → s.first_packet_received ≡ true
    → Kept s (receive_run s ps)
receive_run-Kept s [] h = (h, refl, refl, refl)
receive_run-Kept s (p ∷ ps) h =
    let one = on_packet_received-Kept s (p.0 % 2 ^ 16) p.1 h in
    let rest = receive_run-Kept (on_packet_received s (p.0 % 2 ^ 16) p.1) ps one.0 in
    (rest.0, rest.1 ∙ one.1, rest.2 ∙ one.2, rest.3 ∙ one.3)

highest-le : (m : ℕ) (ps : List (ℕ × Bool)) → m ≤ highest m ps
highest-le m [] = omega arith
highest-le m ((n, true) ∷ ps) = highest-le m ps
highest-le m ((n, false) ∷ ps) = omega (arith, highest-le (max m n) ps)

highest-lt : (m : ℕ) (ps : List (ℕ × Bool)) → m < 2 ^ 32 → Near m ps → highest m ps < 2 ^ 32
highest-lt m [] h k = h
highest-lt m ((n, true) ∷ ps) h k = highest-lt m ps h k.3
highest-lt m ((n, false) ∷ ps) h k = highest-lt (max m n) ps (omega (arith, h, k.2)) k.3

report-eq :
    (t : RtcpReceiverState) (jitter now : ℕ)
    → t.first_packet_received ≡ true
    → generate_rr t jitter now ≡ (
      record { ssrc = t.ssrc; reports = report_block t jitter now ∷ [] },
      record t {
        last_rtcp_time = some now;
        expected_prior = expected_packets t;
        received_prior = t.packets_received;
      },
    )
unfolding generate_rr
report-eq t jitter now h = rw h refl

fraction-eq : (e c : ℕ) → fraction_of e c ≡ (if ltb c e then min ((e - c) * 256 / e) 255 else 0)
fraction-eq e c = ground arith

cumulative-eq :
    (e r : ℕ)
    → cumulative_of e r
      ≡ (if ltb e r then negsuc (min (r - e) (2 ^ 23) - 1) else pos (min (e - r) (2 ^ 23 - 1)))
cumulative-eq e r = ground arith

-- Two reports in a row, from a state that has received packets up to the number `m`, with packets
-- in any order between them, each below 2 ^ 32 and within half the sequence space of the highest
-- before it (and both totals below 2 ^ 32): the second carries the highest full number, as its
-- fraction the 256th parts of the numbers newly expected since the first report that were not
-- received, duplicates not counted, cut to 255 (0 if as many were received), and as its total the
-- numbers from the first packet on, less all packets received, cut to the range from - 2 ^ 23 to 2
-- ^ 23 - 1.
pub loss_between :
    (s : RtcpReceiverState) (m : ℕ) (ps : List (ℕ × Bool)) (jitter now jitter' now' : ℕ)
    → Tracks s m
    → Near m ps
    → s.base_seq ≤ m
    → m < 2 ^ 32
    → highest m ps + 1 < 2 ^ 32 + s.base_seq
    → s.packets_received + fresh_count ps < 2 ^ 32
    → (b : ReportBlock) × ((generate_rr
          (receive_run (generate_rr s jitter now).1 ps)
          jitter'
          now').0.reports
        ≡ b ∷ [])
      × (b.extended_highest_seq ≡ highest m ps)
      × (b.fraction_lost ≡ (
          if ltb (fresh_count ps) (highest m ps - m)
          then min ((highest m ps - m - fresh_count ps) * 256 / (highest m ps - m)) 255
          else 0))
      × (let expected = highest m ps + 1 - s.base_seq in
          let received = s.packets_received + fresh_count ps in
          b.cumulative_lost ≡ (
            if ltb expected received
            then negsuc (min (received - expected) (2 ^ 23) - 1)
            else pos (min (expected - received) (2 ^ 23 - 1))))
loss_between s m ps jitter now jitter' now' t k base lo room total =
    let s1 : RtcpReceiverState = record s {
      last_rtcp_time = some now;
      expected_prior = expected_packets s;
      received_prior = s.packets_received;
    } in
    let first : (generate_rr s jitter now).1 ≡ s1 =
      ap (λ r. r.1) (report-eq s jitter now t.started) in
    let t1 : Tracks s1 m = record {
      started = t.started;
      extended = t.extended;
      cycles = t.cycles;
      low = t.low;
    } in
    let run = receive_run-Tracks s1 m ps t1 k (omega (arith, total)) in
    let kept = receive_run-Kept s1 ps t.started in
    let u = receive_run s1 ps in
    let up = highest-le m ps in
    let top = highest-lt m ps lo k in
    let before : expected_packets s ≡ m + 1 - s.base_seq =
      omega (arith, t.extended, base, lo, up, room) in
    let after : expected_packets u ≡ highest m ps + 1 - s.base_seq =
      omega (arith, run.0.extended, kept.1, up, base, room, top) in
    let e : wrapping_sub32 (expected_packets u) u.expected_prior ≡ highest m ps - m =
      omega (arith, after, before, kept.2, up, base, room) in
    let count : u.packets_received ≡ s.packets_received + fresh_count ps =
      omega (arith, run.1, total) in
    let c : wrapping_sub32 u.packets_received u.received_prior ≡ fresh_count ps =
      omega (arith, count, kept.3, total) in
    (
      report_block u jitter' now',
      ap (λ r. (generate_rr (receive_run r ps) jitter' now').0.reports) first
          ∙ ap (λ r. r.0.reports) (report-eq u jitter' now' kept.0),
      run.0.extended,
      ap₂ (λ a b. fraction_of a b) e c ∙ fraction-eq (highest m ps - m) (fresh_count ps),
      ap₂ (λ a b. cumulative_of a b) after count
          ∙ cumulative-eq (highest m ps + 1 - s.base_seq) (s.packets_received + fresh_count ps),
    )
