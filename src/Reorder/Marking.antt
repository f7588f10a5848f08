-- ===== src/Reorder/Marking.antt =====
-- The gap marking of `insert`, and the flush before it, position by position.
use native.Mathlib.Decide.{ℕ_discrete, dec_lt}
use bilbycast_rist.Prelude.{
  ℕ, zero, suc, ◌+◌, ◌-◌, ◌^◌, ◌≤◌, ◌<◌, ◌≡◌, ◌≢◌, ◌∙◌, ap, refl, arith, true, false, wrapping_add,
  update, if◌then◌else◌, ltb, leb, ◌&&◌, u32,
}
use bilbycast_rist.Ring.{IsRing, slot_index}
use bilbycast_rist.Reorder.{
  Slot, gap, is_empty, mark_gaps, flush_span, empty_slot, flush_one, replaces,
}
use bilbycast_rist.Reorder.Window.{slot_at, slot_at-update_self, slot_at-update_ne}

module _ {mask cap : ℕ} (r : IsRing mask cap) (base : ℕ) where
  -- The flush empties the positions from `i` to `i + k`, and no other.
  pub flush_span_lem :
      (k i : ℕ) (slots : ℕ → Slot) (flushed : ℕ)
      → i + k ≤ cap
      → (y : ℕ) → y < cap
      → slot_at (flush_span k i base mask slots flushed).0 mask base y
        ≡ (if leb i y && ltb y (i + k) then empty_slot else slot_at slots mask base y)
  unfolding flush_span
  flush_span_lem zero i slots flushed h y hy = ground arith
  flush_span_lem (suc k) i slots flushed h y hy =
      let s = wrapping_add base i in
      let rest =
        flush_span_lem k (i + 1) (update slots (slot_index mask s) empty_slot)
          (flush_one slots s mask flushed) (omega arith) y hy in
      elim (ℕ_discrete y i) [
        | yes e ↦
            let this : slot_at (update slots (slot_index mask s) empty_slot) mask base y
                ≡ empty_slot =
              rw e (slot_at-update_self r slots base i empty_slot (omega arith)) in
            rest ∙ rw this (ground arith)
        | no ne ↦
            rest
            ∙ rw (slot_at-update_ne r slots base i empty_slot (omega arith) y hy ne) (ground arith)
      ]

pub replaces_empty :
    (a seq : ℕ) (slot : Slot) → a ≢ seq → is_empty slot.state ≡ true → replaces a seq slot ≡ true
unfolding replaces
replaces_empty a seq slot ne e = ground arith

pub replaces_self : (a : ℕ) (slot : Slot) → replaces a a slot ≡ false
unfolding replaces
replaces_self a slot = ground arith

module _ {mask cap : ℕ} (r : IsRing mask cap) (small : cap ≤ 2 ^ 14) (highest start now : ℕ)
    (next : start ≡ wrapping_add highest 1) where
  -- One round, where the slot becomes a gap and where it does not.
  pub mark_gaps-replace :
      (k j a seq : ℕ) (slots : ℕ → Slot) (gaps : ℕ)
      → wrapping_add highest j ≡ a
      → replaces a seq (slots (slot_index mask a)) ≡ true
      → mark_gaps (suc k) j highest seq mask now slots gaps
        ≡ mark_gaps k
            (j + 1)
            highest
            seq
            mask
            now
            (update slots (slot_index mask a) (record { seq = a; state = gap now }))
            (u32 (gaps + 1))
  unfolding mark_gaps
  mark_gaps-replace k j a seq slots gaps pos e = rw (pos, e)

  pub mark_gaps-keep :
      (k j a seq : ℕ) (slots : ℕ → Slot) (gaps : ℕ)
      → wrapping_add highest j ≡ a
      → replaces a seq (slots (slot_index mask a)) ≡ false
      → mark_gaps (suc k) j highest seq mask now slots gaps
        ≡ mark_gaps k (j + 1) highest seq mask now slots gaps
  unfolding mark_gaps
  mark_gaps-keep k j a seq slots gaps pos e = rw (pos, e)

  pub mark_gaps-zero :
      (j seq : ℕ) (slots : ℕ → Slot) (gaps : ℕ) (k : ℕ)
      → k ≡ 0
      → mark_gaps k j highest seq mask now slots gaps ≡ (slots, gaps)
  unfolding mark_gaps
  mark_gaps-zero j seq slots gaps zero e = refl
  mark_gaps-zero j seq slots gaps (suc k) e = absurd (omega arith)

  -- `start` is the first number past `highest`, and the packet stands `e` places after it. The
  -- slots from `i` up to the packet turn from empty to gaps, and no other slot changes.
  pub mark_gaps_lem :
      (k j i e : ℕ) (slots : ℕ → Slot) (gaps : ℕ)
      → j ≡ i + 1
      → i + k ≡ e + 1
      → e < cap
      → ((x : ℕ) → i ≤ x → x < e → is_empty (slot_at slots mask start x).state ≡ true)
      → (y : ℕ) → y < cap
      → slot_at (mark_gaps k j highest (wrapping_add start e) mask now slots gaps).0 mask start y
        ≡ (if leb i y && ltb y e
            then record { seq = wrapping_add start y; state = gap now }
            else slot_at slots mask start y)
  mark_gaps_lem zero j i e slots gaps hj h he hs y hy =
      rw (mark_gaps-zero j (wrapping_add start e) slots gaps zero refl) (ground arith)
  mark_gaps_lem (suc k) j i e slots gaps hj h he hs y hy =
      let a = wrapping_add start i in
      let pos : wrapping_add highest j ≡ a = omega arith in
      elim (dec_lt i e) [
        | yes lt ↦
            let g : Slot = record { seq = a; state = gap now } in
            let slots' = update slots (slot_index mask a) g in
            let later : (x : ℕ)
                → i + 1 ≤ x
                → x < e
                → is_empty (slot_at slots' mask start x).state ≡ true =
              λ x lo hi.
                rw (slot_at-update_ne r slots start i g (omega arith) x (omega arith) (omega arith))
                  (hs x (omega arith) hi) in
            let rest =
              mark_gaps_lem k (j + 1) (i + 1) e slots' (u32 (gaps + 1)) (omega arith) (omega arith)
                he later y hy in
            let step = mark_gaps-replace k j a (wrapping_add start e) slots gaps pos (
              replaces_empty a (wrapping_add start e) (slot_at slots mask start i) (omega arith)
                (hs i (omega arith) lt)) in
            ap (λ p. slot_at p.0 mask start y) step ∙ rest ∙ elim (ℕ_discrete y i) [
              | yes here ↦
                  let this : slot_at slots' mask start y
                      ≡ record { seq = wrapping_add start y; state = gap now } =
                    rw here (slot_at-update_self r slots start i g (omega arith)) in
                  rw this (ground arith)
              | no ne ↦
                  rw (slot_at-update_ne r slots start i g (omega arith) y hy ne) (ground arith)
            ]
        | no ge ↦
            let last : i ≡ e = omega arith in
            let step = mark_gaps-keep k j a (wrapping_add start e) slots gaps pos (
              rw last (
                replaces_self (wrapping_add start e)
                  (slots (slot_index mask (wrapping_add start e))))) in
            ap (λ p. slot_at p.0 mask start y) step
            ∙ ap (λ p. slot_at p.0 mask start y)
                (mark_gaps-zero (j + 1) (wrapping_add start e) slots gaps k (omega arith))
            ∙ ground arith
      ]

  -- `new_gaps` counts those slots.
  pub mark_gaps-count :
      (k j i e : ℕ) (slots : ℕ → Slot) (gaps : ℕ)
      → j ≡ i + 1
      → i + k ≡ e + 1
      → e < cap
      → ((x : ℕ) → i ≤ x → x < e → is_empty (slot_at slots mask start x).state ≡ true)
      → gaps + k < 2 ^ 32
      → (mark_gaps k j highest (wrapping_add start e) mask now slots gaps).1 ≡ gaps + (e - i)
  mark_gaps-count zero j i e slots gaps hj h he hs few =
      rw (mark_gaps-zero j (wrapping_add start e) slots gaps zero refl) (omega arith)
  mark_gaps-count (suc k) j i e slots gaps hj h he hs few =
      let a = wrapping_add start i in
      let pos : wrapping_add highest j ≡ a = omega arith in
      elim (dec_lt i e) [
        | yes lt ↦
            let g : Slot = record { seq = a; state = gap now } in
            let slots' = update slots (slot_index mask a) g in
            let later : (x : ℕ)
                → i + 1 ≤ x
                → x < e
                → is_empty (slot_at slots' mask start x).state ≡ true =
              λ x lo hi.
                rw (slot_at-update_ne r slots start i g (omega arith) x (omega arith) (omega arith))
                  (hs x (omega arith) hi) in
            let step = mark_gaps-replace k j a (wrapping_add start e) slots gaps pos (
              replaces_empty a (wrapping_add start e) (slot_at slots mask start i) (omega arith)
                (hs i (omega arith) lt)) in
            let rest =
              mark_gaps-count k (j + 1) (i + 1) e slots' (u32 (gaps + 1)) (omega arith)
                (omega arith) he later (omega arith) in
            ap (λ p. p.1) step ∙ rest ∙ omega arith
        | no ge ↦
            let last : i ≡ e = omega arith in
            let step = mark_gaps-keep k j a (wrapping_add start e) slots gaps pos (
              rw last (
                replaces_self (wrapping_add start e)
                  (slots (slot_index mask (wrapping_add start e))))) in
            ap (λ p. p.1) step
            ∙ ap (λ p. p.1)
                (mark_gaps-zero (j + 1) (wrapping_add start e) slots gaps k (omega arith))
            ∙ omega arith
      ]
