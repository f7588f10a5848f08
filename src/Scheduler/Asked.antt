-- ===== src/Scheduler/Asked.antt =====
-- From a gap to the request for it: a number that is missed is asked for once its delay is over.
use native.Mathlib.Decide.{dec_le}
use bilbycast_rist.Prelude.{
  le→leb, update_ne, none, ℕ, zero, suc, List, subst, ◌+◌, ◌-◌, ◌^◌, ◌≤◌, ◌<◌, ◌≡◌, ◌≢◌, ◌∙◌, refl,
  ap, sym, arith, true, false, some, Option, ◌==◌, ◌||◌, not, bit_and, wrapping_add, wrapping_sub,
  inl, inr, Bool-cases, update_self,
}
use bilbycast_rist.Prelude.Int.{signed16, is_positive, is_zero}
use bilbycast_rist.Ring.{IsRing, slot_index, slot_index-lt}
use bilbycast_rist.Scheduler.{
  unwrap_or, scan, deactivate, received_at, received_after, NackSlot, NackScheduler, slot_of,
  tracks, track, track_gap, on_packet_received, get_pending_nacks, max_trackable_gap,
}
use bilbycast_rist.Scheduler.Gaps.{track_ne, fresh_of, track_gap_ne, first_apart, received_gap}
use bilbycast_rist.Nack.Builder.{contains}
use bilbycast_rist.Scheduler.Count.{
  IsCounted, not_le→not_leb, on_packet_received-IsCounted, get_pending_nacks-IsCounted,
}
use bilbycast_rist.Scheduler.Pending.{IsDue, IsQuiet, get_pending_nacks_lem}

-- The slot of a number that starts to be tracked.
abbrev pub created : ℕ → ℕ → NackSlot
created m due = record { seq = m; active = true; next_nack_at = due; nack_count = 0 }

-- What a gap does not change.
abbrev Kept : NackScheduler → NackScheduler → Type 0
Kept s t =
    (t.capacity ≡ s.capacity) × (t.max_retries ≡ s.max_retries) × (t.base_delay ≡ s.base_delay)

track-Kept : (s : NackScheduler) (m now : ℕ) → Kept s (track s m now).0
unfolding track
track-Kept s m now = elim (Bool-cases (not (slot_of s m).active || not ((slot_of s m).seq == m))) [
  | inl e ↦ rw e (refl, refl, refl)
  | inr e ↦ rw e (refl, refl, refl)
]

track_gap-Kept : (n : ℕ) (s : NackScheduler) (m now : ℕ) → Kept s (track_gap n s m now).0
unfolding track_gap
track_gap-Kept zero s m now = (refl, refl, refl)
track_gap-Kept (suc n) s m now =
    let first = track-Kept s m now in
    let rest = track_gap-Kept n (track s m now).0 (wrapping_add m 1) now in
    (rest.0 ∙ first.0, rest.1 ∙ first.1, rest.2 ∙ first.2)

track-created :
    (s : NackScheduler) (m now : ℕ)
    → tracks (slot_of s m) m ≡ false
    → (track s m now).0.slots (slot_index (s.capacity - 1) m) ≡ created m (now + s.base_delay)
unfolding track
track-created s m now h =
    let new : (not (slot_of s m).active || not ((slot_of s m).seq == m)) ≡ true =
      fresh_of (slot_of s m) m ∙ ap not h in
    rw new (update_self s.slots (bit_and m (s.capacity - 1)) _)

-- The number `x` is the one `i` past the first.
track_gap-created :
    (n : ℕ) (s : NackScheduler) (m now c i x : ℕ)
    → s.capacity ≡ c
    → IsRing (c - 1) c
    → m < 2 ^ 16
    → n ≤ c
    → i < n
    → x ≡ wrapping_add m i
    → tracks (s.slots (slot_index (c - 1) x)) x ≡ false
    → (track_gap n s m now).0.slots (slot_index (c - 1) x) ≡ created x (now + s.base_delay)
unfolding track_gap
track_gap-created zero s m now c i x e r hm hn hi hx h = absurd (omega arith)
track_gap-created (suc n) s m now c zero x e r hm hn hi hx h =
    let first : x ≡ m = omega arith in
    let s1 = (track s m now).0 in
    let keep : (track_gap n s1 (wrapping_add m 1) now).0.slots (slot_index (c - 1) m)
        ≡ s1.slots (slot_index (c - 1) m) =
      track_gap_ne n s1 (wrapping_add m 1) now c (slot_index (c - 1) m) ((track-Kept s m now).0 ∙ e)
        (omega arith) (first_apart n m c r hm hn) in
    let old : tracks (s.slots (slot_index (c - 1) m)) m ≡ false =
      ap (λ (k : ℕ). tracks (s.slots (slot_index (c - 1) k)) k) (sym first) ∙ h in
    rw first (
      keep
      ∙ ap (λ (k : ℕ). s1.slots (slot_index (k - 1) m)) (sym e)
      ∙ track-created s m now (ap (λ (k : ℕ). tracks (s.slots (slot_index (k - 1) m)) m) e ∙ old))
track_gap-created (suc n) s m now c (suc i) x e r hm hn hi hx h =
    let next : x ≡ wrapping_add (wrapping_add m 1) i = omega arith in
    let s1 = (track s m now).0 in
    let apart : slot_index (c - 1) x ≢ slot_index (s.capacity - 1) m = λ f.
      first_apart n m c r hm hn i (omega arith)
        (ap (λ (k : ℕ). slot_index (k - 1) m) (sym e) ∙ sym f ∙ ap (slot_index (c - 1)) next) in
    let before : s1.slots (slot_index (c - 1) x) ≡ s.slots (slot_index (c - 1) x) =
      track_ne s m now (slot_index (c - 1) x) apart in
    track_gap-created n s1 (wrapping_add m 1) now c i x ((track-Kept s m now).0 ∙ e) r (omega arith)
      (omega arith) (omega arith) next (ap (λ t. tracks t x) before ∙ h)
    ∙ ap (λ d. created x (now + d)) (track-Kept s m now).2

-- The number `x` waits for its first request, which is due at `due`.
pub record Waits (s : NackScheduler) (x due : ℕ) : Type 0 where
  pub counted : IsCounted s
  pub slot : slot_of s x ≡ created x due
  pub tries : 0 < s.max_retries

-- A number of a trackable gap that was not tracked waits from then on.
pub on_packet_received-Waits :
    (s : NackScheduler) (expected seq now i : ℕ)
    → IsCounted s
    → s.active_count + max_trackable_gap < 2 ^ 32
    → max_trackable_gap ≤ s.capacity
    → 0 < s.max_retries
    → expected < 2 ^ 16
    → s.expected_seq ≡ some expected
    → wrapping_sub seq expected ≤ max_trackable_gap
    → i < wrapping_sub seq expected
    → tracks (slot_of s (wrapping_add expected i)) (wrapping_add expected i) ≡ false
    → Waits (on_packet_received s seq now).0 (wrapping_add expected i) (now + s.base_delay)
on_packet_received-Waits s expected seq now i c room big tries he e hi within new =
    let x = wrapping_add expected i in
    let s1 = (on_packet_received s seq now).0 in
    let j = slot_index (s.capacity - 1) x in
    let run = received_gap s expected seq now e (omega arith) hi in
    let slot : s1.slots j ≡ created x (now + s.base_delay) =
      ap (λ (t : NackScheduler × List ℕ). t.0.slots j) run
      ∙ track_gap-created (wrapping_sub seq expected) s expected now s.capacity i x refl c.ring he
          (omega (arith, big, hi)) within refl new in
    let kept : Kept s s1 =
      subst (λ (t : NackScheduler × List ℕ). Kept s t.0) (sym run)
        (track_gap-Kept (wrapping_sub seq expected) s expected now) in
    record {
      counted = on_packet_received-IsCounted s seq now room c;
      slot = ap (λ (k : ℕ). s1.slots (slot_index (k - 1) x)) kept.0 ∙ slot;
      tries = omega (arith, tries, kept.1);
    }

-- A change of the delay alone.
pub delay-Waits :
    (s : NackScheduler) (x due delay : ℕ)
    → Waits s x due
    → Waits (record s { base_delay = delay }) x due
delay-Waits s x due delay v = record {
  counted = record {
    ring = v.counted.ring;
    counted = v.counted.counted;
    bounded = v.counted.bounded;
  };
  slot = v.slot;
  tries = v.tries;
}

scan-Kept : (n i : ℕ) (s : NackScheduler) (now delay : ℕ) → Kept s (scan n i s now delay).0
unfolding scan
scan-Kept zero i s now delay = (refl, refl, refl)
scan-Kept (suc n) i s now delay = scan-Kept n (i + 1) _ now delay

get_pending_nacks-Kept :
    (s : NackScheduler) (now : ℕ) (rtt : Option ℕ) → Kept s (get_pending_nacks s now rtt).0
unfolding get_pending_nacks
get_pending_nacks-Kept s now rtt = elim (Bool-cases (s.active_count == 0)) [
  | inl e ↦ rw e (refl, refl, refl)
  | inr e ↦ rw e (scan-Kept s.capacity 0 s now (unwrap_or rtt s.base_delay))
]

-- A round before the request is due leaves it waiting.
pub get_pending_nacks-Waits :
    (s : NackScheduler) (x due now : ℕ) (rtt : Option ℕ)
    → Waits s x due
    → now < due
    → Waits (get_pending_nacks s now rtt).0 x due
get_pending_nacks-Waits s x due now rtt v early =
    let j = slot_index (s.capacity - 1) x in
    let kept = get_pending_nacks-Kept s now rtt in
    let round = get_pending_nacks_lem s now rtt v.counted in
    let quiet : IsQuiet now (s.slots j) = subst (IsQuiet now) (sym v.slot) (inr early) in
    record {
      counted = get_pending_nacks-IsCounted s now rtt v.counted;
      slot =
          ap (λ (k : ℕ). (get_pending_nacks s now rtt).0.slots (slot_index (k - 1) x)) kept.0
          ∙ (round.0 j (slot_index-lt x v.counted.ring)).2 quiet
          ∙ v.slot;
      tries = omega (arith, v.tries, kept.1);
    }

-- A round from then on asks for it.
pub get_pending_nacks-asks :
    (s : NackScheduler) (x due now : ℕ) (rtt : Option ℕ)
    → Waits s x due
    → due ≤ now
    → contains (get_pending_nacks s now rtt).1 x ≡ true
get_pending_nacks-asks s x due now rtt v late =
    let j = slot_index (s.capacity - 1) x in
    let round = get_pending_nacks_lem s now rtt v.counted in
    let ready : IsDue s.max_retries now (s.slots j) =
      subst (IsDue s.max_retries now) (sym v.slot) (refl, late, v.tries) in
    ap (contains (get_pending_nacks s now rtt).1) (ap (λ (t : NackSlot). t.seq) (sym v.slot))
    ∙ ((round.0 j (slot_index-lt x v.counted.ring)).0 ready).1

-- A packet leaves the slot of `x` alone if it is another one, and none of the numbers that it skips
-- maps there.
abbrev pub Spares : NackScheduler → Option ℕ → ℕ → ℕ → Type 0
Spares s none x seq = Unit {0}
Spares s (some expected) x seq =
    (expected < 2 ^ 16)
    × (seq ≢ x)
    × ((i : ℕ)
        → i < wrapping_sub seq expected
        → wrapping_sub seq expected ≤ max_trackable_gap
        → slot_index (s.capacity - 1) x ≢ slot_index (s.capacity - 1) (wrapping_add expected i))

-- The parts of the state that waiting is about.
abbrev SameFor : NackScheduler → ℕ → NackScheduler → Type 0
SameFor s x t =
    (t.capacity ≡ s.capacity)
    × (t.max_retries ≡ s.max_retries)
    × (t.slots (slot_index (s.capacity - 1) x) ≡ s.slots (slot_index (s.capacity - 1) x))

deactivate-SameFor :
    (s : NackScheduler) (x due seq : ℕ)
    → slot_of s x ≡ created x due
    → seq ≢ x
    → SameFor s x (deactivate s seq)
unfolding deactivate
deactivate-SameFor s x due seq h q = elim (Bool-cases (tracks (slot_of s seq) seq)) [
  | inl e ↦
      let held : (slot_of s seq).seq ≡ seq = ground (arith, e) in
      let apart : slot_index (s.capacity - 1) x ≢ slot_index (s.capacity - 1) seq = λ f.
        q (sym held ∙ ap (λ (k : ℕ). (s.slots k).seq) (sym f) ∙ ap (λ (t : NackSlot). t.seq) h) in
      rw e (
        refl,
        refl,
        update_ne s.slots (slot_index (s.capacity - 1) seq) _ (slot_index (s.capacity - 1) x) apart,
      )
  | inr e ↦ rw e (refl, refl, refl)
]

received-SameFor :
    (s : NackScheduler) (e : Option ℕ) (x due seq now : ℕ)
    → slot_of s x ≡ created x due
    → Spares s e x seq
    → SameFor s x (received_at e s seq now).0
unfolding received_after
received-SameFor s none x due seq now h q = (refl, refl, refl)
received-SameFor s (some e) x due seq now h q =
    let gap = wrapping_sub seq e in
    let run = track_gap gap s e now in
    elim (Bool-cases (is_positive (signed16 gap))) [
      | inl p ↦ rw p (elim (dec_le gap max_trackable_gap) [
        | yes h' ↦
            let kept = track_gap-Kept gap s e now in
            rw (le→leb gap max_trackable_gap h') (
              kept.0,
              kept.1,
              track_gap_ne gap s e now s.capacity (slot_index (s.capacity - 1) x) refl q.0
                  (λ i hi. q.2 i hi h'),
            )
        | no h' ↦ rw (not_le→not_leb gap max_trackable_gap h') (refl, refl, refl)
      ])
      | inr p ↦ rw p (elim (Bool-cases (is_zero (signed16 gap))) [
        | inl z ↦ rw z (refl, refl, refl)
        | inr z ↦ rw z (deactivate-SameFor s x due seq h q.1)
      ])
    ]

pub spared-Waits :
    (s : NackScheduler) (x due seq now : ℕ)
    → Waits s x due
    → s.active_count + max_trackable_gap < 2 ^ 32
    → Spares s s.expected_seq x seq
    → Waits (on_packet_received s seq now).0 x due
unfolding on_packet_received
spared-Waits s x due seq now v room q =
    let same = received-SameFor s s.expected_seq x due seq now v.slot q in
    record {
      counted = on_packet_received-IsCounted s seq now room v.counted;
      slot =
          ap (λ (k : ℕ). (received_at s.expected_seq s seq now).0.slots (slot_index (k - 1) x))
            same.0
          ∙ same.2
          ∙ v.slot;
      tries = omega (arith, v.tries, same.1);
    }
