-- ===== src/Scheduler/Pending/Scan.antt =====
-- The scan over the slots: what it leaves in each, and which numbers it pushes.
use native.Mathlib.Decide.{ℕ_discrete}
use bilbycast_rist.Prelude.{
  ℕ, zero, suc, ◌+◌, ◌-◌, ◌≤◌, ◌<◌, ◌≡◌, ◌≢◌, ◌⊎◌, ◌∙◌, refl, ap, sym, subst, arith, Bool, true,
  false, if◌then◌else◌, ltb, leb, ◌==◌, ◌&&◌, ◌||◌, update, inl, inr, update_ne,
}
use bilbycast_rist.Nack.Builder.{contains, contains-if}
use bilbycast_rist.Scheduler.{NackSlot, NackScheduler, visit, is_due, is_given_up, scan}

-- The scan of one slot, with the rest of the scan.
abbrev scanned : NackScheduler → ℕ → ℕ → ℕ → NackScheduler
scanned s i now delay = record s {
  slots = update s.slots i (visit s.max_retries now delay (s.slots i));
  active_count =
      if is_given_up s.max_retries now (s.slots i) then s.active_count - 1 else s.active_count;
}

at_i :
    (n i : ℕ) (f : ℕ → NackSlot) (g : NackSlot → NackSlot)
    → (if leb (i + 1) i && ltb i (i + 1 + n)
        then g (update f i (g (f i)) i)
        else update f i (g (f i)) i)
      ≡ (if leb i i && ltb i (i + suc n) then g (f i) else f i)
at_i n i f g = ground arith

next_range :
    (n i j : ℕ) → j ≢ i → (leb (i + 1) j && ltb j (i + 1 + n)) ≡ (leb i j && ltb j (i + suc n))
next_range n i j q = ground arith

hit : (b : Bool) (x y : ℕ) (c : Bool) → b ≡ true → x ≡ y → ((b && x == y) || c) ≡ true
hit b x y c h e = ground (arith, h, e)

or_right : (b c : Bool) → c ≡ true → (b || c) ≡ true
or_right true c h = refl
or_right false c h = h

or_cases : (b c : Bool) → (b || c) ≡ true → (b ≡ true) ⊎ (c ≡ true)
or_cases true c h = inl refl
or_cases false c h = inr h

and_left : (b c : Bool) → (b && c) ≡ true → b ≡ true
and_left true c h = refl
and_left false c h = h

and_right : (b c : Bool) → (b && c) ≡ true → c ≡ true
and_right true c h = h
and_right false c h = absurd (ground (arith, h))

-- Each slot of the range is visited once, the others are left alone.
pub scan-slots :
    (n i : ℕ) (s : NackScheduler) (now delay j : ℕ)
    → (scan n i s now delay).0.slots j
      ≡ (if leb i j && ltb j (i + n) then visit s.max_retries now delay (s.slots j) else s.slots j)
unfolding scan
scan-slots zero i s now delay j = ground arith
scan-slots (suc n) i s now delay j = elim (ℕ_discrete j i) [
  | yes e ↦
      scan-slots n (i + 1) (scanned s i now delay) now delay j
      ∙ subst
          (λ (k : ℕ).
            (if leb (i + 1) k && ltb k (i + 1 + n)
              then visit s.max_retries now delay
                  (update s.slots i (visit s.max_retries now delay (s.slots i)) k)
              else update s.slots i (visit s.max_retries now delay (s.slots i)) k)
            ≡ (if leb i k && ltb k (i + suc n)
                then visit s.max_retries now delay (s.slots k)
                else s.slots k))
          (sym e) (at_i n i s.slots (visit s.max_retries now delay))
  | no q ↦
      scan-slots n (i + 1) (scanned s i now delay) now delay j
      ∙ ap
          (λ (t : NackSlot).
            if leb (i + 1) j && ltb j (i + 1 + n) then visit s.max_retries now delay t else t)
          (update_ne s.slots i (visit s.max_retries now delay (s.slots i)) j q)
      ∙ ap (λ b. if b then visit s.max_retries now delay (s.slots j) else s.slots j)
          (next_range n i j q)
]

-- A slot of the range that is due is asked for, and nothing else is.
pub scan-asks :
    (n i : ℕ) (s : NackScheduler) (now delay j : ℕ)
    → i ≤ j
    → j < i + n
    → is_due s.max_retries now (s.slots j) ≡ true
    → contains (scan n i s now delay).1 (s.slots j).seq ≡ true
unfolding scan
scan-asks zero i s now delay j h k d = absurd (omega arith)
scan-asks (suc n) i s now delay j h k d =
    let rest = (scan n (i + 1) (scanned s i now delay) now delay).1 in
    let split =
      contains-if (is_due s.max_retries now (s.slots i)) (s.slots i).seq (s.slots j).seq rest in
    elim (ℕ_discrete j i) [
      | yes e ↦
          let due : is_due s.max_retries now (s.slots i) ≡ true =
            subst (λ (k : ℕ). is_due s.max_retries now (s.slots k) ≡ true) e d in
          let same : (s.slots i).seq ≡ (s.slots j).seq = ap (λ (k : ℕ). (s.slots k).seq) (sym e) in
          split
          ∙ hit (is_due s.max_retries now (s.slots i)) (s.slots i).seq (s.slots j).seq
              (contains rest (s.slots j).seq) due same
      | no q ↦
          let stays : update s.slots i (visit s.max_retries now delay (s.slots i)) j ≡ s.slots j =
            update_ne s.slots i (visit s.max_retries now delay (s.slots i)) j q in
          let later : contains rest (s.slots j).seq ≡ true =
            subst (λ (t : NackSlot). is_due s.max_retries now t ≡ true → contains rest t.seq ≡ true)
              stays
              (scan-asks n (i + 1) (scanned s i now delay) now delay j (omega arith) (omega arith))
              d in
          split
          ∙ or_right (is_due s.max_retries now (s.slots i) && (s.slots i).seq == (s.slots j).seq)
              (contains rest (s.slots j).seq) later
    ]

pub scan-asked :
    (n i : ℕ) (s : NackScheduler) (now delay x : ℕ)
    → contains (scan n i s now delay).1 x ≡ true
    → (j : ℕ) × (i ≤ j)
      × (j < i + n)
      × (is_due s.max_retries now (s.slots j) ≡ true)
      × ((s.slots j).seq ≡ x)
unfolding scan
scan-asked zero i s now delay x h = absurd (ground (arith, h))
scan-asked (suc n) i s now delay x h =
    let rest = (scan n (i + 1) (scanned s i now delay) now delay).1 in
    let split =
      sym (contains-if (is_due s.max_retries now (s.slots i)) (s.slots i).seq x rest) ∙ h in
    elim (or_cases (is_due s.max_retries now (s.slots i) && (s.slots i).seq == x) (contains rest x)
      split) [
        | inl e ↦ (
          i,
          omega arith,
          omega arith,
          and_left _ _ e,
          ground (arith, and_right (is_due s.max_retries now (s.slots i)) ((s.slots i).seq == x) e),
        )
        | inr e ↦
            let (j, lo, hi, due, same) =
              scan-asked n (i + 1) (scanned s i now delay) now delay x e in
            let stays : update s.slots i (visit s.max_retries now delay (s.slots i)) j ≡ s.slots j =
              update_ne s.slots i (visit s.max_retries now delay (s.slots i)) j
                (λ e. absurd (omega (arith, lo, e))) in
            (
              j,
              omega (arith, lo),
              omega (arith, hi),
              subst (λ (t : NackSlot). is_due s.max_retries now t ≡ true) stays due,
              subst (λ (t : NackSlot). t.seq ≡ x) stays same,
            )
      ]
