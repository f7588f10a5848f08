-- ===== src/ReceiverState/Extended.antt =====
-- The extended highest sequence number against the numbers before they were cut to 16 bits.
use bilbycast_rist.Prelude.{
  ℕ, ◌+◌, ◌-◌, ◌*◌, ◌/◌, ◌%◌, ◌^◌, ◌≤◌, ◌<◌, ◌≡◌, ◌∙◌, inl, inr, refl, ap, sym, arith, Bool, true,
  false, List, [], ◌∷◌, if◌then◌else◌, ltb, wrapping_sub, bit_or, u16, u32, max, Bool-cases, subst,
}
use native.Mathlib.Decide.{dec_lt}
use bilbycast_rist.Prelude.Int.{signed16, is_positive, positive16, not_positive16_cases}
use bilbycast_rist.Prelude.Bits.{bit_or-shifted}
use bilbycast_rist.ReceiverState.{RtcpReceiverState, progress, start, on_packet_received}

-- The state after packets of which the highest had the number `m`.
pub record Tracks (s : RtcpReceiverState) (m : ℕ) : Type 0 where
  pub started : s.first_packet_received ≡ true
  pub extended : s.extended_max_seq ≡ m
  pub cycles : s.seq_cycles ≡ m / 2 ^ 16
  pub low : s.max_seq ≡ m % 2 ^ 16

-- A run of packets, by their full numbers, each with its mark as a duplicate.
abbrev pub receive_run : RtcpReceiverState → List (ℕ × Bool) → RtcpReceiverState
receive_run s [] = s
receive_run s (p ∷ ps) = receive_run (on_packet_received s (p.0 % 2 ^ 16) p.1) ps

-- The highest number so far, over the packets that are no duplicates, and how many those are.
abbrev pub highest : ℕ → List (ℕ × Bool) → ℕ
highest m [] = m
highest m (p ∷ ps) = highest (if p.1 then m else max m p.0) ps

abbrev pub fresh_count : List (ℕ × Bool) → ℕ
fresh_count [] = 0
fresh_count (p ∷ ps) = (if p.1 then 0 else 1) + fresh_count ps

-- No packet is further than half the sequence space from the highest one before it.
abbrev pub Near : ℕ → List (ℕ × Bool) → Type 0
Near m [] = Unit
Near m (p ∷ ps) =
    (p.0 < m + 2 ^ 15)
    × (m ≤ p.0 + 2 ^ 15)
    × (p.0 < 2 ^ 32)
    × Near (if p.1 then m else max m p.0) ps

turned :
    (x y c m n : ℕ)
    → y ≡ m % 2 ^ 16
    → c ≡ m / 2 ^ 16
    → m < n
    → n < m + 2 ^ 15
    → n < 2 ^ 32
    → x ≡ n % 2 ^ 16
    → (if ltb x y then u16 (c + 1) else c) ≡ n / 2 ^ 16
turned x y c m n hy hc lo hi top hx = ground (arith, hy, hc, hx)

forward :
    (s : RtcpReceiverState) (m n : ℕ)
    → Tracks s m
    → m < n
    → n < m + 2 ^ 15
    → n < 2 ^ 32
    → Tracks (progress s (n % 2 ^ 16)) n
unfolding progress
forward s m n t lo hi top =
    let diff : wrapping_sub (n % 2 ^ 16) s.max_seq ≡ n - m = omega (arith, t.low) in
    let ahead : is_positive (signed16 (wrapping_sub (n % 2 ^ 16) s.max_seq)) ≡ true =
      positive16 (wrapping_sub (n % 2 ^ 16) s.max_seq) (omega (arith, diff))
        (omega (arith, diff)) in
    let cycles : (if ltb (n % 2 ^ 16) s.max_seq then u16 (s.seq_cycles + 1) else s.seq_cycles)
        ≡ n / 2 ^ 16 =
      turned (n % 2 ^ 16) s.max_seq s.seq_cycles m n t.low t.cycles lo hi top refl in
    rw ahead (record {
      started = t.started;
      extended =
          ap (λ (c : ℕ). bit_or (c * 2 ^ 16) (n % 2 ^ 16)) cycles
          ∙ bit_or-shifted 16 (n / 2 ^ 16) (n % 2 ^ 16) (omega arith)
          ∙ omega arith;
      cycles = cycles;
      low = refl;
    })

back :
    (s : RtcpReceiverState) (m n : ℕ)
    → Tracks s m
    → n ≤ m
    → m ≤ n + 2 ^ 15
    → progress s (n % 2 ^ 16) ≡ s
unfolding progress
back s m n t lo hi =
    let diff : wrapping_sub (n % 2 ^ 16) s.max_seq ≡ (2 ^ 16 + n - m) % 2 ^ 16 =
      omega (arith, t.low) in
    let behind : is_positive (signed16 (wrapping_sub (n % 2 ^ 16) s.max_seq)) ≡ false =
      not_positive16_cases (wrapping_sub (n % 2 ^ 16) s.max_seq) (elim (dec_lt n m) [
        | yes p ↦ inr (omega (arith, diff))
        | no q ↦ inl (omega (arith, diff))
      ]) in
    rw behind refl

count : RtcpReceiverState → RtcpReceiverState
count s = record s { packets_received = u32 (s.packets_received + 1) }

count-Tracks : (s : RtcpReceiverState) (m : ℕ) → Tracks s m → Tracks (count s) m
unfolding count
count-Tracks s m t = record {
  started = t.started;
  extended = t.extended;
  cycles = t.cycles;
  low = t.low;
}

progress-packets :
    (s : RtcpReceiverState) (q : ℕ) → (progress s q).packets_received ≡ s.packets_received
unfolding progress
progress-packets s q = elim (Bool-cases (is_positive (signed16 (wrapping_sub q s.max_seq)))) [
  | inl e ↦ rw e refl
  | inr e ↦ rw e refl
]

received :
    (s : RtcpReceiverState) (m q : ℕ)
    → Tracks s m
    → on_packet_received s q false ≡ count (progress s q)
unfolding on_packet_received count
received s m q t = ap (λ b. count (if b then progress s q else start s q)) t.started

-- One packet after the first.
one_more :
    (s : RtcpReceiverState) (m n : ℕ)
    → Tracks s m
    → n < m + 2 ^ 15
    → m ≤ n + 2 ^ 15
    → n < 2 ^ 32
    → Tracks (on_packet_received s (n % 2 ^ 16) false) (max m n)
one_more s m n t hi lo top =
    subst (λ r. Tracks r (max m n)) (sym (received s m (n % 2 ^ 16) t))
      (count-Tracks (progress s (n % 2 ^ 16)) (max m n) (elim (dec_lt m n) [
        | yes p ↦
            subst (Tracks (progress s (n % 2 ^ 16))) {x = n} {y = max m n} (omega arith)
              (forward s m n t p hi top)
        | no q ↦
            subst (λ r. Tracks r (max m n)) (sym (back s m n t (omega arith) lo))
              (subst (Tracks s) {x = m} {y = max m n} (omega arith) t)
      ]))

packets_of :
    (s : RtcpReceiverState) (m q : ℕ)
    → Tracks s m
    → (on_packet_received s q false).packets_received ≡ u32 (s.packets_received + 1)
unfolding count
packets_of s m q t =
    ap (λ (r : RtcpReceiverState). r.packets_received) (received s m q t)
    ∙ ap (λ (k : ℕ). u32 (k + 1)) (progress-packets s q)

-- From a state that tracks `m`, with a count of 32 bits, packets in any order, each below 2 ^ 32
-- and within half the sequence space of the highest number before it: the extended number is the
-- highest full number received, however often the 16 bits wrap, and each packet that is no
-- duplicate is counted once, modulo 2 ^ 32.
pub receive_run-Tracks :
    (s : RtcpReceiverState) (m : ℕ) (ps : List (ℕ × Bool))
    → Tracks s m
    → Near m ps
    → s.packets_received < 2 ^ 32
    → Tracks (receive_run s ps) (highest m ps)
      × ((receive_run s ps).packets_received ≡ (s.packets_received + fresh_count ps) % 2 ^ 32)
unfolding on_packet_received
receive_run-Tracks s m [] t k room = (t, omega arith)
receive_run-Tracks s m ((n, true) ∷ ps) t k room =
    let rest = receive_run-Tracks s m ps t k.3 room in (rest.0, omega (arith, rest.1))
receive_run-Tracks s m ((n, false) ∷ ps) t k room =
    let s1 = on_packet_received s (n % 2 ^ 16) false in
    let one = packets_of s m (n % 2 ^ 16) t in
    let rest =
      receive_run-Tracks s1 (max m n) ps (one_more s m n t k.0 k.1 k.2) k.3 (omega (arith, one)) in
    (rest.0, omega (arith, rest.1, one))
