-- ===== src/Scheduler/Count.antt =====
-- `active_count` against the slots that are active.
use native.Mathlib.Decide.{ℕ_discrete, dec_le}
use bilbycast_rist.Prelude.{
  ℕ, zero, suc, ◌+◌, ◌-◌, ◌≤◌, ◌<◌, ◌≡◌, refl, ap, sym, subst, arith, Bool, true, false, Option,
  none, some, List, [], if◌then◌else◌, leb, ◌==◌, ◌||◌, not, bit_and, bit_of, wrapping_add,
  wrapping_sub, update, inl, inr, Bool-cases, le→leb, ◌^◌, update_self, update_ne,
}
use bilbycast_rist.Prelude.Int.{signed16, is_positive, is_zero}
use bilbycast_rist.Ring.{IsRing, slot_index-lt}
use bilbycast_rist.Scheduler.{
  NackSlot, NackScheduler, new, slot_of, tracks, track, track_gap, deactivate, received_after,
  received_at, on_packet_received, visit, is_given_up, scan, get_pending_nacks, max_trackable_gap,
  on_packet_recovered, update_base_delay, unwrap_or,
}

-- How many of the first `n` slots are active.
unfoldable pub tally : ℕ → (ℕ → NackSlot) → ℕ
tally zero f = 0
tally (suc n) f = tally n f + bit_of (f n).active

tally-update_ge :
    (n i : ℕ) (f : ℕ → NackSlot) (v : NackSlot) → n ≤ i → tally n (update f i v) ≡ tally n f
unfolding tally
tally-update_ge zero i f v h = refl
tally-update_ge (suc n) i f v h =
    rw (tally-update_ge n i f v (omega arith))
      (ap (λ (t : NackSlot). tally n f + bit_of t.active) (update_ne f i v n (omega arith)))

tally-update :
    (n i : ℕ) (f : ℕ → NackSlot) (v : NackSlot)
    → i < n
    → tally n (update f i v) + bit_of (f i).active ≡ tally n f + bit_of v.active
unfolding tally
tally-update zero i f v h = absurd (omega arith)
tally-update (suc n) i f v h = elim (ℕ_discrete i n) [
  | yes e ↦
      subst
        (λ (j : ℕ).
          tally n (update f j v) + bit_of (update f j v n).active + bit_of (f j).active
          ≡ tally n f + bit_of (f n).active + bit_of v.active)
        (sym e)
        (omega (
          arith,
          tally-update_ge n n f v (omega arith),
          ap (λ (t : NackSlot). bit_of t.active) (update_self f n v),
        ))
  | no q ↦ omega (
    arith,
    tally-update n i f v (omega arith),
    ap (λ (t : NackSlot). bit_of t.active) (update_ne f i v n (λ e. q (sym e))),
  )
]

-- The invariant: the counter never falls below the number of active slots, and no slot has been asked
-- for more often than `max_retries` allows.
pub record IsCounted (s : NackScheduler) : Type 0 where
  pub ring : IsRing (s.capacity - 1) s.capacity
  pub counted : tally s.capacity s.slots ≤ s.active_count
  pub bounded : (i : ℕ) → (s.slots i).nack_count ≤ s.max_retries

IsCounted-update :
    (s : NackScheduler) (i : ℕ) (v : NackSlot) (n : ℕ)
    → IsCounted s
    → i < s.capacity
    → v.nack_count ≤ s.max_retries
    → s.active_count + bit_of v.active ≤ n + bit_of (s.slots i).active
    → IsCounted (record s { slots = update s.slots i v; active_count = n })
IsCounted-update s i v n c hi hv h = record {
  ring = c.ring;
  counted = omega (arith, tally-update s.capacity i s.slots v hi, c.counted, h);
  bounded = λ j. ground (arith, c.bounded j, hv);
}

index-lt : (s : NackScheduler) (seq : ℕ) → IsCounted s → bit_and seq (s.capacity - 1) < s.capacity
index-lt s seq c = slot_index-lt seq c.ring

track-IsCounted :
    (s : NackScheduler) (missing now : ℕ)
    → s.active_count + 1 < 2 ^ 32
    → IsCounted s
    → IsCounted (track s missing now).0
unfolding track
track-IsCounted s missing now room c =
    let test = not (slot_of s missing).active || not ((slot_of s missing).seq == missing) in
    elim (Bool-cases test) [
      | inl e ↦ rw e (IsCounted-update s _ _ _ c (index-lt s missing c) (omega arith) (omega arith))
      | inr e ↦ rw e c
    ]

-- The counter grows by one at most.
track-grows :
    (s : NackScheduler) (missing now : ℕ)
    → (track s missing now).0.active_count ≤ s.active_count + 1
unfolding track
track-grows s missing now =
    elim (Bool-cases (not (slot_of s missing).active || not ((slot_of s missing).seq == missing))) [
      | inl e ↦ rw e (omega arith)
      | inr e ↦ rw e (omega arith)
    ]

track_gap-grows :
    (n : ℕ) (s : NackScheduler) (missing now : ℕ)
    → (track_gap n s missing now).0.active_count ≤ s.active_count + n
unfolding track_gap
track_gap-grows zero s missing now = omega arith
track_gap-grows (suc n) s missing now = omega (
  arith,
  track-grows s missing now,
  track_gap-grows n (track s missing now).0 (wrapping_add missing 1) now,
)

track_gap-IsCounted :
    (n : ℕ) (s : NackScheduler) (missing now : ℕ)
    → s.active_count + n < 2 ^ 32
    → IsCounted s
    → IsCounted (track_gap n s missing now).0
unfolding track_gap
track_gap-IsCounted zero s missing now room c = c
track_gap-IsCounted (suc n) s missing now room c =
    track_gap-IsCounted n (track s missing now).0 (wrapping_add missing 1) now
      (omega (arith, track-grows s missing now)) (track-IsCounted s missing now (omega arith) c)

pub deactivate-IsCounted :
    (s : NackScheduler) (seq : ℕ) → IsCounted s → IsCounted (deactivate s seq)
unfolding deactivate
deactivate-IsCounted s seq c = elim (Bool-cases (tracks (slot_of s seq) seq)) [
  | inl e ↦
      let on : bit_of (slot_of s seq).active ≡ 1 = ground (arith, e) in
      rw e (IsCounted-update s _ _ _ c (index-lt s seq c) (c.bounded _) (omega (arith, on)))
  | inr e ↦ rw e c
]

-- A change of `expected_seq` and `scan_lo` alone.
IsCounted-expect :
    (s : NackScheduler) (e : Option ℕ) (lo : ℕ)
    → IsCounted s
    → IsCounted (record s { expected_seq = e; scan_lo = lo })
IsCounted-expect s e lo c = record { ring = c.ring; counted = c.counted; bounded = c.bounded }

pick :
    (b : Bool) (x y : NackScheduler × List ℕ)
    → IsCounted x.0
    → IsCounted y.0
    → IsCounted (if b then x else y).0
pick true x y h k = h
pick false x y h k = k

pub not_le→not_leb : (a b : ℕ) → ((a ≤ b) → ⊥) → leb a b ≡ false
not_le→not_leb a b h = ground (arith, h)

received_after-IsCounted :
    (s : NackScheduler) (expected seq now : ℕ)
    → s.active_count + max_trackable_gap < 2 ^ 32
    → IsCounted s
    → IsCounted (received_after s expected seq now).0
unfolding received_after
received_after-IsCounted s expected seq now room c =
    let gap = wrapping_sub seq expected in
    let tracked = if leb gap max_trackable_gap then track_gap gap s expected now else (s, []) in
    let counted : IsCounted tracked.0 = elim (dec_le gap max_trackable_gap) [
      | yes h ↦
          rw (le→leb gap max_trackable_gap h)
            (track_gap-IsCounted gap s expected now (omega (arith, room, h)) c)
      | no h ↦ rw (not_le→not_leb gap max_trackable_gap h) c
    ] in
    pick (is_positive (signed16 gap)) _ _
      (IsCounted-expect tracked.0 (some (wrapping_add seq 1)) tracked.0.scan_lo counted)
      (pick (is_zero (signed16 gap)) _ _
        (IsCounted-expect s (some (wrapping_add seq 1)) s.scan_lo c) (deactivate-IsCounted s seq c))

received_at-IsCounted :
    (e : Option ℕ) (s : NackScheduler) (seq now : ℕ)
    → s.active_count + max_trackable_gap < 2 ^ 32
    → IsCounted s
    → IsCounted (received_at e s seq now).0
received_at-IsCounted none s seq now room c = IsCounted-expect s (some (wrapping_add seq 1)) seq c
received_at-IsCounted (some e) s seq now room c = received_after-IsCounted s e seq now room c

pub on_packet_received-IsCounted :
    (s : NackScheduler) (seq now : ℕ)
    → s.active_count + max_trackable_gap < 2 ^ 32
    → IsCounted s
    → IsCounted (on_packet_received s seq now).0
unfolding on_packet_received
on_packet_received-IsCounted s seq now room c =
    received_at-IsCounted s.expected_seq s seq now room c

visited_count :
    (max now delay : ℕ) (slot : NackSlot)
    → slot.nack_count ≤ max
    → (visit max now delay slot).nack_count ≤ max
visited_count max now delay slot h = ground arith

visited_active :
    (max now delay n : ℕ) (slot : NackSlot)
    → n + bit_of (visit max now delay slot).active
      ≤ (if is_given_up max now slot then n - 1 else n) + bit_of slot.active
visited_active max now delay n slot = ground arith

scan-IsCounted :
    (n i : ℕ) (s : NackScheduler) (now delay : ℕ)
    → i + n ≤ s.capacity
    → IsCounted s
    → IsCounted (scan n i s now delay).0
unfolding scan
scan-IsCounted zero i s now delay h c = c
scan-IsCounted (suc n) i s now delay h c = scan-IsCounted n (i + 1) _ now delay (omega arith) (
    IsCounted-update s i _ _ c (omega arith)
      (visited_count s.max_retries now delay (s.slots i) (c.bounded i))
      (visited_active s.max_retries now delay s.active_count (s.slots i)))

tally_none : (n : ℕ) (f : ℕ → NackSlot) → ((i : ℕ) → (f i).active ≡ false) → tally n f ≡ 0
unfolding tally
tally_none zero f h = refl
tally_none (suc n) f h = omega (arith, tally_none n f h, ap bit_of (h n))

pub tally-active : (n j : ℕ) (f : ℕ → NackSlot) → j < n → (f j).active ≡ true → 0 < tally n f
unfolding tally
tally-active zero j f h k = absurd (omega arith)
tally-active (suc n) j f h k = elim (ℕ_discrete j n) [
  | yes e ↦ omega (arith, ap bit_of (subst (λ (i : ℕ). (f i).active ≡ true) e k))
  | no q ↦ omega (arith, tally-active n j f (omega arith) k)
]

deactivate-grows : (s : NackScheduler) (seq : ℕ) → (deactivate s seq).active_count ≤ s.active_count
unfolding deactivate
deactivate-grows s seq = elim (Bool-cases (tracks (slot_of s seq) seq)) [
  | inl e ↦ rw e (omega arith)
  | inr e ↦ rw e (omega arith)
]

scan-grows :
    (n i : ℕ) (s : NackScheduler) (now delay : ℕ)
    → (scan n i s now delay).0.active_count ≤ s.active_count
unfolding scan
scan-grows zero i s now delay = omega arith
scan-grows (suc n) i s now delay =
    let slot = s.slots i in
    let s1 : NackScheduler = record s {
      slots = update s.slots i (visit s.max_retries now delay slot);
      active_count =
          if is_given_up s.max_retries now slot then s.active_count - 1 else s.active_count;
    } in
    let less : s1.active_count ≤ s.active_count = ground arith in
    omega (arith, scan-grows n (i + 1) s1 now delay, less)

received-grows :
    (s : NackScheduler) (seq now : ℕ)
    → (on_packet_received s seq now).0.active_count ≤ s.active_count + max_trackable_gap
unfolding on_packet_received received_after
received-grows s seq now = received (s.expected_seq)
  where
    received :
        (e : Option ℕ)
        → (received_at e s seq now).0.active_count ≤ s.active_count + max_trackable_gap
    received none = omega arith
    received (some e) =
        let tracked : (if leb (wrapping_sub seq e) max_trackable_gap
              then track_gap (wrapping_sub seq e) s e now
              else (s, [])).0.active_count
            ≤ s.active_count + max_trackable_gap =
          elim (dec_le (wrapping_sub seq e) max_trackable_gap) [
            | yes h ↦
                rw (le→leb (wrapping_sub seq e) max_trackable_gap h)
                  (omega (arith, h, track_gap-grows (wrapping_sub seq e) s e now))
            | no h ↦ rw (not_le→not_leb (wrapping_sub seq e) max_trackable_gap h) (omega arith)
          ] in
        elim (Bool-cases (is_positive (signed16 (wrapping_sub seq e)))) [
          | inl p ↦ rw p tracked
          | inr p ↦ rw p (elim (Bool-cases (is_zero (signed16 (wrapping_sub seq e)))) [
            | inl z ↦ rw z (omega arith)
            | inr z ↦ rw z (omega (arith, deactivate-grows s seq))
          ])
        ]

pub new-IsCounted :
    (created max_retries base_delay : ℕ) → IsCounted (new created max_retries base_delay)
unfolding new
new-IsCounted created max_retries base_delay = record {
  ring = record { masked = refl; exponent = 12; power = refl; turns = 16; divides = refl };
  counted = omega (arith, tally_none 4096 (new created max_retries base_delay).slots (λ i. refl));
  bounded = λ i. omega arith;
}

pub get_pending_nacks-IsCounted :
    (s : NackScheduler) (now : ℕ) (rtt : Option ℕ)
    → IsCounted s
    → IsCounted (get_pending_nacks s now rtt).0
unfolding get_pending_nacks
get_pending_nacks-IsCounted s now rtt c =
    pick (s.active_count == 0) (s, []) _ c
      (scan-IsCounted s.capacity 0 s now (unwrap_or rtt s.base_delay) (omega arith) c)

get_pending_nacks-grows :
    (s : NackScheduler) (now : ℕ) (rtt : Option ℕ)
    → (get_pending_nacks s now rtt).0.active_count ≤ s.active_count
unfolding get_pending_nacks
get_pending_nacks-grows s now rtt = elim (Bool-cases (s.active_count == 0)) [
  | inl e ↦ rw e (omega arith)
  | inr e ↦ rw e (scan-grows s.capacity 0 s now (unwrap_or rtt s.base_delay))
]

pub update_base_delay-IsCounted :
    (s : NackScheduler) (delay : ℕ) → IsCounted s → IsCounted (update_base_delay s delay)
update_base_delay-IsCounted s delay c = record {
  ring = c.ring;
  counted = c.counted;
  bounded = c.bounded;
}

-- With room for one more trackable gap below 2 ^ 32 in the counter: the invariant (the counter
-- never falls below the number of active slots, and no slot counts more requests than
-- `max_retries`) holds of a new scheduler, and every operation keeps it; a packet raises the
-- counter by one trackable gap at most, and no other operation raises it.
pub operations-IsCounted :
    (created max_retries base_delay : ℕ) (s : NackScheduler) (seq now delay : ℕ) (rtt : Option ℕ)
    → IsCounted s
    → s.active_count + max_trackable_gap < 2 ^ 32
    → IsCounted (new created max_retries base_delay)
      × (IsCounted (on_packet_received s seq now).0
          × ((on_packet_received s seq now).0.active_count ≤ s.active_count + max_trackable_gap))
      × (IsCounted (on_packet_recovered s seq)
          × ((on_packet_recovered s seq).active_count ≤ s.active_count))
      × (IsCounted (get_pending_nacks s now rtt).0
          × ((get_pending_nacks s now rtt).0.active_count ≤ s.active_count))
      × (IsCounted (update_base_delay s delay)
          × ((update_base_delay s delay).active_count ≤ s.active_count))
operations-IsCounted created max_retries base_delay s seq now delay rtt c room = (
  new-IsCounted created max_retries base_delay,
  (on_packet_received-IsCounted s seq now room c, received-grows s seq now),
  (deactivate-IsCounted s seq c, deactivate-grows s seq),
  (get_pending_nacks-IsCounted s now rtt c, get_pending_nacks-grows s now rtt),
  (update_base_delay-IsCounted s delay c, omega arith),
)
