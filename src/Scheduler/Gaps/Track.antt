-- ===== src/Scheduler/Gaps/Track.antt =====
-- The slots that a gap takes, one number after the other.
use bilbycast_rist.Prelude.{
  ℕ, zero, suc, ◌+◌, ◌-◌, ◌^◌, ◌≤◌, ◌<◌, ◌≡◌, ◌≢◌, ◌∙◌, refl, ap, sym, arith, true, ◌==◌, ◌||◌, not,
  bit_and, wrapping_add, inl, inr, Bool-cases, update_self, update_ne, ==_self,
}
use bilbycast_rist.Ring.{IsRing, slot_index, slot_index-inj}
use bilbycast_rist.Scheduler.{NackSlot, NackScheduler, slot_of, tracks, track, track_gap}

pub capacity-track : (s : NackScheduler) (m now : ℕ) → (track s m now).0.capacity ≡ s.capacity
unfolding track
capacity-track s m now =
    elim (Bool-cases (not (slot_of s m).active || not ((slot_of s m).seq == m))) [
      | inl e ↦ rw e refl
      | inr e ↦ rw e refl
    ]

pub track_ne :
    (s : NackScheduler) (m now j : ℕ)
    → j ≢ slot_index (s.capacity - 1) m
    → (track s m now).0.slots j ≡ s.slots j
unfolding track
track_ne s m now j h =
    elim (Bool-cases (not (slot_of s m).active || not ((slot_of s m).seq == m))) [
      | inl e ↦ rw e (update_ne s.slots (bit_and m (s.capacity - 1)) _ j h)
      | inr e ↦ rw e refl
    ]

pub fresh_of :
    (slot : NackSlot) (m : ℕ) → (not slot.active || not (slot.seq == m)) ≡ not (tracks slot m)
fresh_of slot m = ground arith

track-tracks :
    (s : NackScheduler) (m now : ℕ)
    → tracks ((track s m now).0.slots (slot_index (s.capacity - 1) m)) m ≡ true
unfolding track
track-tracks s m now =
    elim (Bool-cases (not (slot_of s m).active || not ((slot_of s m).seq == m))) [
      | inl e ↦ rw e (
          ap (λ (t : NackSlot). tracks t m)
            (update_self s.slots (bit_and m (s.capacity - 1)) (record {
              seq = m;
              active = true;
              next_nack_at = now + s.base_delay;
              nack_count = 0;
            }))
          ∙ ==_self m)
      | inr e ↦ rw e (ground (arith, fresh_of (slot_of s m) m, e))
    ]

pub track-fresh : (s : NackScheduler) (m now : ℕ) → (track s m now).1 ≡ not (tracks (slot_of s m) m)
unfolding track
track-fresh s m now = elim (Bool-cases (not (slot_of s m).active || not ((slot_of s m).seq == m))) [
  | inl e ↦ rw e (sym e ∙ fresh_of (slot_of s m) m)
  | inr e ↦ rw e (sym e ∙ fresh_of (slot_of s m) m)
]

-- Slots that no number of the run maps to.
pub track_gap_ne :
    (n : ℕ) (s : NackScheduler) (m now c j : ℕ)
    → s.capacity ≡ c
    → m < 2 ^ 16
    → ((i : ℕ) → i < n → j ≢ slot_index (c - 1) (wrapping_add m i))
    → (track_gap n s m now).0.slots j ≡ s.slots j
unfolding track_gap
track_gap_ne zero s m now c j e hm apart = refl
track_gap_ne (suc n) s m now c j e hm apart =
    track_gap_ne n (track s m now).0 (wrapping_add m 1) now c j (capacity-track s m now ∙ e)
      (omega arith)
      (λ i hi f. apart (suc i) (omega arith) (
        f
        ∙ ap (slot_index (c - 1)) {x = wrapping_add (wrapping_add m 1) i}
            {y = wrapping_add m (suc i)} (omega arith)))
    ∙ track_ne s m now j (λ f. apart 0 (omega arith) (
        f
        ∙ ap (λ (k : ℕ). slot_index (k - 1) m) e
        ∙ ap (slot_index (c - 1)) {x = m} {y = wrapping_add m 0} (omega arith)))

-- The first number's slot is not touched by the rest of a run that fits the ring.
pub first_apart :
    (n m c : ℕ)
    → IsRing (c - 1) c
    → m < 2 ^ 16
    → suc n ≤ c
    → (i : ℕ) → i < n
    → slot_index (c - 1) m ≢ slot_index (c - 1) (wrapping_add (wrapping_add m 1) i)
first_apart n m c r hm h i hi f =
    let same : slot_index (c - 1) (wrapping_add m 0) ≡ slot_index (c - 1) (wrapping_add m (suc i)) =
      ap (slot_index (c - 1)) {x = wrapping_add m 0} {y = m} (omega arith)
      ∙ f
      ∙ ap (slot_index (c - 1)) {x = wrapping_add (wrapping_add m 1) i} {y = wrapping_add m (suc i)}
          (omega arith) in
    absurd (omega (arith, slot_index-inj m 0 (suc i) r (omega arith) (omega arith) same))

pub track_gap-tracks :
    (n : ℕ) (s : NackScheduler) (m now c i : ℕ)
    → s.capacity ≡ c
    → IsRing (c - 1) c
    → m < 2 ^ 16
    → n ≤ c
    → i < n
    → tracks
        ((track_gap n s m now).0.slots (slot_index (c - 1) (wrapping_add m i)))
        (wrapping_add m i)
      ≡ true
unfolding track_gap
track_gap-tracks zero s m now c i e r hm hn hi = absurd (omega arith)
track_gap-tracks (suc n) s m now c zero e r hm hn hi =
    let s1 = (track s m now).0 in
    let s2 = (track_gap n s1 (wrapping_add m 1) now).0 in
    let keep : s2.slots (slot_index (c - 1) m) ≡ s1.slots (slot_index (c - 1) m) =
      track_gap_ne n s1 (wrapping_add m 1) now c (slot_index (c - 1) m) (capacity-track s m now ∙ e)
        (omega arith) (first_apart n m c r hm hn) in
    ap (λ (k : ℕ). tracks (s2.slots (slot_index (c - 1) k)) k) {x = wrapping_add m 0} {y = m}
      (omega arith)
    ∙ ap (λ t. tracks t m) keep
    ∙ ap (λ (k : ℕ). tracks (s1.slots (slot_index (k - 1) m)) m) (sym e)
    ∙ track-tracks s m now
track_gap-tracks (suc n) s m now c (suc i) e r hm hn hi =
    ap
      (λ (k : ℕ).
        tracks
          ((track_gap n (track s m now).0 (wrapping_add m 1) now).0.slots (slot_index (c - 1) k)) k)
      {x = wrapping_add m (suc i)} {y = wrapping_add (wrapping_add m 1) i} (omega arith)
    ∙ track_gap-tracks n (track s m now).0 (wrapping_add m 1) now c i (capacity-track s m now ∙ e) r
        (omega arith) (omega arith) (omega arith)
