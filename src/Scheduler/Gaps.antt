-- ===== src/Scheduler/Gaps.antt =====
-- A gap in the received numbers becomes pending requests.
pub mod Track
use bilbycast_rist.Prelude.{
  ℕ, zero, suc, ◌+◌, ◌-◌, ◌^◌, ◌≤◌, ◌<◌, ◌≡◌, ◌≢◌, ◌∙◌, refl, ap, sym, subst, arith, true, some,
  List, [], ◌∷◌, if◌then◌else◌, ◌==◌, ◌||◌, not, bit_and, wrapping_add, wrapping_sub, inl, inr,
  Bool-cases, update_self, update_ne, ==_self, le→leb,
}
use bilbycast_rist.Prelude.Int.{positive16}
use bilbycast_rist.Ring.{IsRing, slot_index, slot_index-inj}
use bilbycast_rist.Scheduler.{
  NackSlot, NackScheduler, slot_of, tracks, track, track_gap, received_after, received_at,
  on_packet_received, max_trackable_gap,
}
pub use bilbycast_rist.Scheduler.Gaps.Track.{track_ne, fresh_of, track_gap_ne, first_apart}
use bilbycast_rist.Scheduler.Gaps.Track.{capacity-track, track-fresh, track_gap-tracks}

-- The numbers reported as new, as a list: those of the run that were not tracked before.
abbrev pub untracked : ℕ → NackScheduler → ℕ → List ℕ
untracked zero s m = []
untracked (suc n) s m =
    let rest = untracked n s (wrapping_add m 1) in
    if not (tracks (slot_of s m) m) then m ∷ rest else rest

untracked-cong :
    (n : ℕ) (s t : NackScheduler) (m : ℕ)
    → m < 2 ^ 16
    → ((i : ℕ) → i < n → slot_of s (wrapping_add m i) ≡ slot_of t (wrapping_add m i))
    → untracked n s m ≡ untracked n t m
untracked-cong zero s t m hm h = refl
untracked-cong (suc n) s t m hm h =
    let rest = untracked-cong n s t (wrapping_add m 1) (omega arith) (λ i hi.
      subst (λ (k : ℕ). slot_of s k ≡ slot_of t k) {x = wrapping_add m (suc i)}
        {y = wrapping_add (wrapping_add m 1) i} (omega arith) (h (suc i) (omega arith))) in
    let first : slot_of s m ≡ slot_of t m =
      subst (λ (k : ℕ). slot_of s k ≡ slot_of t k) {x = wrapping_add m 0} {y = m} (omega arith)
        (h 0 (omega arith)) in
    ap
      (λ t'.
        if not (tracks t' m)
        then m ∷ untracked n s (wrapping_add m 1)
        else untracked n s (wrapping_add m 1))
      first
    ∙ ap (λ l. if not (tracks (slot_of t m) m) then m ∷ l else l) rest

track_gap-new :
    (n : ℕ) (s : NackScheduler) (m now c : ℕ)
    → s.capacity ≡ c
    → IsRing (c - 1) c
    → m < 2 ^ 16
    → n ≤ c
    → (track_gap n s m now).1 ≡ untracked n s m
unfolding track_gap
track_gap-new zero s m now c e r hm hn = refl
track_gap-new (suc n) s m now c e r hm hn =
    let s1 = (track s m now).0 in
    let same : (i : ℕ)
        → i < n
        → slot_of s1 (wrapping_add (wrapping_add m 1) i)
          ≡ slot_of s (wrapping_add (wrapping_add m 1) i) =
      λ i hi.
        ap (λ (k : ℕ). s1.slots (slot_index (k - 1) (wrapping_add (wrapping_add m 1) i)))
          (capacity-track s m now)
        ∙ track_ne s m now (slot_index (s.capacity - 1) (wrapping_add (wrapping_add m 1) i)) (λ f.
          first_apart n m c r hm hn i hi (
            sym (
              subst
                (λ (k : ℕ).
                  slot_index (k - 1) (wrapping_add (wrapping_add m 1) i) ≡ slot_index (k - 1) m)
                e f))) in
    let rest =
      track_gap-new n s1 (wrapping_add m 1) now c (capacity-track s m now ∙ e) r (omega arith)
        (omega arith)
      ∙ untracked-cong n s1 s (wrapping_add m 1) (omega arith) same in
    ap
      (λ b.
        if b
        then m ∷ (track_gap n s1 (wrapping_add m 1) now).1
        else (track_gap n s1 (wrapping_add m 1) now).1)
      (track-fresh s m now)
    ∙ ap (λ l. if not (tracks (slot_of s m) m) then m ∷ l else l) rest

pub received_gap :
    (s : NackScheduler) (expected seq now : ℕ)
    → s.expected_seq ≡ some expected
    → 0 < wrapping_sub seq expected
    → wrapping_sub seq expected ≤ max_trackable_gap
    → on_packet_received s seq now ≡ (
      record (track_gap (wrapping_sub seq expected) s expected now).0 {
        expected_seq = some (wrapping_add seq 1);
      },
      (track_gap (wrapping_sub seq expected) s expected now).1,
    )
unfolding on_packet_received received_after
received_gap s expected seq now e lo hi =
    ap (λ t. received_at t s seq now) e
    ∙ rw
        (
          le→leb (wrapping_sub seq expected) max_trackable_gap hi,
          positive16 (wrapping_sub seq expected) lo (omega (arith, hi)),
        )
        refl

-- A packet ahead of the expected number by at most the trackable gap, in a ring whose capacity is a
-- power of two, divides the sequence space and is at least that gap: every number between the two is
-- then tracked, those that were not before are returned, in order, no slot that none of them maps to
-- changes, and the number after the packet is expected next.
pub on_packet_received-gap :
    (s : NackScheduler) (expected seq now : ℕ)
    → IsRing (s.capacity - 1) s.capacity
    → max_trackable_gap ≤ s.capacity
    → expected < 2 ^ 16
    → s.expected_seq ≡ some expected
    → 0 < wrapping_sub seq expected
    → wrapping_sub seq expected ≤ max_trackable_gap
    → ((i : ℕ)
        → i < wrapping_sub seq expected
        → tracks
            ((on_packet_received s seq now).0.slots
              (slot_index (s.capacity - 1) (wrapping_add expected i)))
            (wrapping_add expected i)
          ≡ true)
      × ((j : ℕ)
          → ((i : ℕ)
              → i < wrapping_sub seq expected
              → j ≢ slot_index (s.capacity - 1) (wrapping_add expected i))
          → (on_packet_received s seq now).0.slots j ≡ s.slots j)
      × ((on_packet_received s seq now).1 ≡ untracked (wrapping_sub seq expected) s expected)
      × ((on_packet_received s seq now).0.expected_seq ≡ some (wrapping_add seq 1))
on_packet_received-gap s expected seq now r big he e lo hi =
    let n = wrapping_sub seq expected in
    let run = received_gap s expected seq now e lo hi in
    let small : n ≤ s.capacity = omega (arith, big, hi) in
    (
      λ i h.
          ap
            (λ (t : NackScheduler × List ℕ).
              tracks (t.0.slots (slot_index (s.capacity - 1) (wrapping_add expected i)))
                (wrapping_add expected i))
            run
          ∙ track_gap-tracks n s expected now s.capacity i refl r he small h,
      λ j apart.
          ap (λ (t : NackScheduler × List ℕ). t.0.slots j) run
          ∙ track_gap_ne n s expected now s.capacity j refl he apart,
      ap (λ (t : NackScheduler × List ℕ). t.1) run
          ∙ track_gap-new n s expected now s.capacity refl r he small,
      ap (λ (t : NackScheduler × List ℕ). t.0.expected_seq) run,
    )
