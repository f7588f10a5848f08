-- ===== src/Scheduler/Pending.antt =====
-- What `get_pending_nacks` asks for.
mod Scan
use native.Mathlib.Decide.{ℕ_discrete}
use bilbycast_rist.Prelude.{
  ℕ, zero, suc, ◌+◌, ◌-◌, ◌≤◌, ◌<◌, ◌≡◌, ◌≢◌, ◌⊎◌, ◌∙◌, refl, ap, sym, subst, arith, Bool, true,
  false, Option, List, [], if◌then◌else◌, ltb, leb, ◌==◌, ◌&&◌, ◌||◌, update, inl, inr, Bool-cases,
  update_ne, le→leb, ◌↔◌,
}
use bilbycast_rist.Nack.Builder.{contains, contains-if}
use bilbycast_rist.Scheduler.{
  NackSlot, NackScheduler, visit, is_due, is_given_up, scan, sort, get_pending_nacks, unwrap_or,
}
use bilbycast_rist.Scheduler.Sort.{IsSorted, sort-IsSorted, contains-sort}
use bilbycast_rist.Scheduler.Count.{IsCounted, tally-active}
use bilbycast_rist.Scheduler.Pending.Scan.{scan-slots, scan-asks, scan-asked}

-- A slot whose request is due at `now`, with requests left or with none left.
abbrev pub IsDue : ℕ → ℕ → NackSlot → Type 0
IsDue max now slot = (slot.active ≡ true) × (slot.next_nack_at ≤ now) × (slot.nack_count < max)

abbrev pub IsSpent : ℕ → ℕ → NackSlot → Type 0
IsSpent max now slot = (slot.active ≡ true) × (slot.next_nack_at ≤ now) × (max ≤ slot.nack_count)

abbrev pub IsQuiet : ℕ → NackSlot → Type 0
IsQuiet now slot = (slot.active ≡ false) ⊎ (now < slot.next_nack_at)

-- What a round of requests does, with the result `r`: a slot that is due is asked for, counted and
-- put off by `delay`; a slot that is due but spent is given up; any other stays; nothing else is
-- asked for, and the numbers ascend.
abbrev pub Round : NackScheduler → ℕ → ℕ → NackScheduler × List ℕ → Type 0
Round s now delay r =
    ((j : ℕ)
      → j < s.capacity
      → (IsDue s.max_retries now (s.slots j)
          → (r.0.slots j ≡ record (s.slots j) {
            nack_count = (s.slots j).nack_count + 1;
            next_nack_at = now + delay;
          })
            × (contains r.1 (s.slots j).seq ≡ true))
        × (IsSpent s.max_retries now (s.slots j)
            → r.0.slots j ≡ record (s.slots j) { active = false })
        × (IsQuiet now (s.slots j) → r.0.slots j ≡ s.slots j))
    × ((x : ℕ)
        → contains r.1 x ≡ true
        → (j : ℕ) × (j < s.capacity) × IsDue s.max_retries now (s.slots j) × ((s.slots j).seq ≡ x))
    × IsSorted r.1

IsDue-test : (max now : ℕ) (slot : NackSlot) → (is_due max now slot ≡ true) ↔ IsDue max now slot
IsDue-test max now slot = ground arith

visit_due :
    (max now delay : ℕ) (slot : NackSlot)
    → IsDue max now slot
    → visit max now delay slot
      ≡ record slot { nack_count = slot.nack_count + 1; next_nack_at = now + delay }
visit_due max now delay slot h =
    let left : leb max slot.nack_count ≡ false = ground (arith, h.2) in
    rw (h.0, le→leb slot.next_nack_at now h.1, left) refl

visit_spent :
    (max now delay : ℕ) (slot : NackSlot)
    → IsSpent max now slot
    → visit max now delay slot ≡ record slot { active = false }
visit_spent max now delay slot h =
    rw (h.0, le→leb slot.next_nack_at now h.1, le→leb max slot.nack_count h.2) refl

visit_quiet :
    (max now delay : ℕ) (slot : NackSlot) → IsQuiet now slot → visit max now delay slot ≡ slot
visit_quiet max now delay slot (inl h) = rw h refl
visit_quiet max now delay slot (inr h) =
    let early : leb slot.next_nack_at now ≡ false = ground (arith, h) in
    elim (Bool-cases slot.active) [ inl e ↦ rw (e, early) refl | inr e ↦ rw e refl ]

Round-scan :
    (s : NackScheduler) (now delay : ℕ)
    → Round s now delay ((scan s.capacity 0 s now delay).0, sort (scan s.capacity 0 s now delay).1)
Round-scan s now delay =
    let r = scan s.capacity 0 s now delay in
    let visited : (j : ℕ)
        → j < s.capacity
        → r.0.slots j ≡ visit s.max_retries now delay (s.slots j) =
      λ j h.
        scan-slots s.capacity 0 s now delay j
        ∙ ap (λ b. if b then visit s.max_retries now delay (s.slots j) else s.slots j) {y = true}
            (ground arith) in
    (
      λ j h. (
        λ d. (
          visited j h ∙ visit_due s.max_retries now delay (s.slots j) d,
          contains-sort r.1 (s.slots j).seq
              ∙ scan-asks s.capacity 0 s now delay j (omega arith) (omega arith)
                  ((IsDue-test s.max_retries now (s.slots j)).1 d),
        ),
        λ d. visited j h ∙ visit_spent s.max_retries now delay (s.slots j) d,
        λ d. visited j h ∙ visit_quiet s.max_retries now delay (s.slots j) d,
      ),
      λ x h.
          let (j, lo, hi, due, same) =
            scan-asked s.capacity 0 s now delay x (sym (contains-sort r.1 x) ∙ h) in
          (j, omega (arith, hi), (IsDue-test s.max_retries now (s.slots j)).0 due, same),
      sort-IsSorted r.1,
    )

Round-idle :
    (s : NackScheduler) (now delay : ℕ)
    → IsCounted s
    → s.active_count ≡ 0
    → Round s now delay (s, [])
Round-idle s now delay c z =
    let off : (j : ℕ) → j < s.capacity → (s.slots j).active ≢ true =
      λ j h e. absurd (omega (arith, tally-active s.capacity j s.slots h e, c.counted, z)) in
    (
      λ j h. (λ d. absurd (off j h d.0), λ d. absurd (off j h d.0), λ d. refl),
      λ x h. absurd (ground (arith, h)),
      tt,
    )

-- A round of requests, where the counter covers the active slots: a slot whose request is due is
-- asked for, counted and put off if requests are left, and given up otherwise; any other slot
-- stays; nothing else is asked for, and the numbers ascend. That holds too where the early return
-- is taken.
pub get_pending_nacks_lem :
    (s : NackScheduler) (now : ℕ) (rtt : Option ℕ)
    → IsCounted s
    → Round s now (unwrap_or rtt s.base_delay) (get_pending_nacks s now rtt)
unfolding get_pending_nacks
get_pending_nacks_lem s now rtt c = elim (Bool-cases (s.active_count == 0)) [
  | inl e ↦ rw e (Round-idle s now (unwrap_or rtt s.base_delay) c (ground (arith, e)))
  | inr e ↦ rw e (Round-scan s now (unwrap_or rtt s.base_delay))
]
