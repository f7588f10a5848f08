-- ===== src/Reorder/Flush.antt =====
-- `insert` of a packet just past the ring: the oldest numbers are given up and the rest is kept.
use native.Mathlib.Decide.{dec_lt}
use bilbycast_rist.Prelude.{
  ◌∙◌, ℕ, ◌+◌, ◌-◌, ◌^◌, ◌≤◌, ◌<◌, ◌≡◌, ap, refl, arith, some, false, wrapping_add, wrapping_sub,
  if◌then◌else◌, ltb, leb, ◌||◌, sym, subst, max,
}
use bilbycast_rist.Reorder.{
  ReorderBuffer, Slot, Bytes, gap, filled, insert, overflow, no_outcome, empty_slot, flush_span,
  place,
}
use bilbycast_rist.Reorder.Window.{Window, content, slot_at, slot_at-from, slot_at-from_turn}
use bilbycast_rist.Reorder.Marking.{flush_span_lem}
use bilbycast_rist.Reorder.Admit.{Admits, place-Admits}
use bilbycast_rist.Reorder.Overflow.{insert-overflow}

module _ {b : ReorderBuffer} {base highest n : ℕ} (v : Window b base highest n) (a : ℕ)
    (inside : a < n) where
  abbrev flushed_slots : ℕ → Slot
  flushed_slots = (flush_span a 0 base b.mask b.slots 0).0

  abbrev flushed : ReorderBuffer
  flushed = record b { slots = flushed_slots; base_seq = some (wrapping_add base a) }

  flushed-slot :
      (y : ℕ)
      → y < b.capacity
      → slot_at flushed_slots b.mask (wrapping_add base a) y
        ≡ (if ltb (a + y) b.capacity then slot_at b.slots b.mask base (a + y) else empty_slot)
  flushed-slot y hy =
      let at = flush_span_lem v.ring base a 0 b.slots 0 (omega (arith, v.fits)) in
      elim (dec_lt (a + y) b.capacity) [
        | yes lt ↦
            slot_at-from flushed_slots b.mask base a y (a + y) refl ∙ at (a + y) lt ∙ ground arith
        | no ge ↦
            let z = a + y - b.capacity in
            slot_at-from_turn flushed_slots base a y z v.ring (omega arith)
            ∙ at z (omega (arith, v.fits))
            ∙ ground (arith, v.fits)
      ]

  flushed-Window : Window flushed (wrapping_add base a) highest (n - a)
  flushed-Window = record {
    ring = v.ring;
    roomy = v.roomy;
    small = v.small;
    base_is = refl;
    highest_is = v.highest_is;
    base_lt = omega arith;
    span = omega (arith, v.span);
    fits = omega (arith, v.fits);
    held = λ y hy. ground (arith, flushed-slot y (omega (arith, v.fits)), v.held (a + y), v.fits);
    clear = λ y lo hi. ground (arith, flushed-slot y hi, v.clear (a + y));
  }

  flushed-content :
      (y : ℕ) → y < n - a → content flushed (wrapping_add base a) y ≡ content b base (a + y)
  flushed-content y hy = ground (arith, flushed-slot y (omega (arith, v.fits)), v.fits)

pub overflow-keep :
    (b : ReorderBuffer) (base highest a seq : ℕ) (dat : Bytes) (now : ℕ)
    → (leb b.capacity a || ltb (wrapping_sub highest base) a) ≡ false
    → overflow b base highest a seq dat now
      ≡ place
          (record b {
            slots = (flush_span a 0 base b.mask b.slots 0).0;
            base_seq = some (wrapping_add base a);
          })
          highest
          seq
          dat
          now
          (record no_outcome { overflow_flushed = (flush_span a 0 base b.mask b.slots 0).1 })
unfolding overflow
overflow-keep b base highest a seq dat now e = rw e refl

-- What a minimal flush of `a` numbers leaves: the packet is the last of a full window.
pub record Flushed (b b' : ReorderBuffer) (base n a seq : ℕ) (dat : Bytes) (now : ℕ) : Type 0 where
  pub window : Window b' (wrapping_add base a) seq b.capacity
  pub kept : (y : ℕ) → a + y < n → content b' (wrapping_add base a) y ≡ content b base (a + y)
  pub fresh : content b' (wrapping_add base a) (b.capacity - 1) ≡ filled dat now
  pub opened :
      (y : ℕ) → n ≤ a + y → y < b.capacity - 1 → content b' (wrapping_add base a) y ≡ gap now
  pub same_time : b'.buffer_time ≡ b.buffer_time

-- A packet `a` places past the end of the ring, where `a` is less than the number of places from
-- the base to the highest number seen: the `a` oldest numbers are given up, all later contents are
-- kept, the packet is stored, and the numbers between are gaps noticed now.
pub insert-Flushed :
    {b : ReorderBuffer} {base highest n : ℕ} (v : Window b base highest n) (a : ℕ) (dat : Bytes)
    (now : ℕ)
    → 0 < a
    → a < n
    → let seq = wrapping_add base (b.capacity - 1 + a) in
      let (b', out) = insert b seq dat now in
      Flushed b b' base n a seq dat now
      × (out.stale ≡ false)
      × (out.duplicate ≡ false)
      × (out.new_gaps ≡ b.capacity - 1 + a - n)
insert-Flushed {b} {base} {highest} {n} v a dat now pos inside =
    let o = b.capacity - 1 + a in
    let seq = wrapping_add base o in
    let adv : o - (b.capacity - 1) ≡ a = omega arith in
    let keep : (leb b.capacity a || ltb (wrapping_sub highest base) a) ≡ false =
      ground (arith, v.span, v.fits, v.base_lt, v.small) in
    let fw = flushed-Window v a inside in
    let same : wrapping_add (wrapping_add base a) (b.capacity - 1) ≡ seq = omega (arith, v.roomy) in
    let f = (flush_span a 0 base b.mask b.slots 0).1 in
    let placed = place-Admits fw (b.capacity - 1) dat now f (omega (arith, v.roomy)) in
    let step : overflow b base highest (o - (b.capacity - 1)) seq dat now
        ≡ place (flushed v a inside) highest seq dat now
            (record no_outcome { overflow_flushed = f }) =
      ap (λ t. overflow b base highest t seq dat now) adv
      ∙ overflow-keep b base highest a seq dat now keep in
    let whole : insert b seq dat now
        ≡ place (flushed v a inside) highest (wrapping_add (wrapping_add base a) (b.capacity - 1))
            dat now (record no_outcome { overflow_flushed = f }) =
      insert-overflow v o dat now (omega (arith, v.roomy)) (omega (arith, v.small, v.fits))
      ∙ step
      ∙ ap
          (λ t.
            place (flushed v a inside) highest t dat now
              (record no_outcome { overflow_flushed = f }))
          (sym same) in
    rw whole (
      full fw placed.0,
      ap (λ t. t.stale) placed.1,
      ap (λ t. t.duplicate) placed.1 ∙ ground (arith, v.fits),
      ap (λ t. t.new_gaps) placed.1 ∙ omega (arith, v.fits),
    )
  where
    full :
        {b' : ReorderBuffer}
        → Window (flushed v a inside) (wrapping_add base a) highest (n - a)
        → Admits (flushed v a inside) b' (wrapping_add base a) (n - a) (b.capacity - 1) dat now
        → Flushed b b' base n a (wrapping_add base (b.capacity - 1 + a)) dat now
    full {b'} fw m =
        let count : max (n - a) (b.capacity - 1 + 1) ≡ b.capacity =
          omega (arith, v.fits, v.roomy) in
        let top : wrapping_add (wrapping_add base a) (b.capacity + (2 ^ 16 - 1))
            ≡ wrapping_add base (b.capacity - 1 + a) =
          omega (arith, v.roomy) in
        record {
          window =
              subst (λ h. Window b' (wrapping_add base a) h b.capacity) top
                (subst
                  (λ t.
                    Window b' (wrapping_add base a)
                      (wrapping_add (wrapping_add base a) (t + (2 ^ 16 - 1))) t)
                  count m.window);
          kept = λ y hy.
              m.contents y (omega (arith, v.fits))
              ∙ ground (arith, v.fits, flushed-content v a inside y);
          fresh = m.contents (b.capacity - 1) (omega (arith, v.roomy)) ∙ ground (arith, v.fits);
          opened = λ y lo hi. m.contents y (omega arith) ∙ ground arith;
          same_time = m.same_time;
        }
