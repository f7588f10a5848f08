-- ===== src/Reorder/Admit.antt =====
-- The effect of `insert` on a packet within the ring, in terms of the window alone.
use native.Mathlib.Decide.{dec_lt}
use bilbycast_rist.Prelude.{
  ◌∙◌, ℕ, ◌+◌, ◌-◌, ◌^◌, ◌≤◌, ◌<◌, ◌≡◌, ap, refl, arith, some, true, false, Option, wrapping_add,
  wrapping_sub, update, if◌then◌else◌, ltb, leb, ◌==◌, ◌&&◌, not, sym, subst, max, ◌⊎◌, inl, inr,
}
use bilbycast_rist.Prelude.Int.{signed16, is_positive, not_positive16_cases}
use bilbycast_rist.Ring.{slot_index}
use bilbycast_rist.Reorder.{
  mark_gaps, ReorderBuffer, InsertOutcome, Slot, SlotState, Bytes, empty, gap, filled, is_empty,
  is_filled, store, place, insert, no_outcome,
}
use bilbycast_rist.Reorder.Window.{Window, content, slot_at, slot_at-update_ne, slot_at-update}
use bilbycast_rist.Reorder.Insert.{
  marked, marked-count, extend-back, extend-forward, place-empty, place-gap, place-filled,
  insert-at-Window, insert_window-place,
}

-- The contents of the window after a packet at position `o`, from those before: a filled slot is
-- kept, and the positions between the old window and the packet are gaps noticed now.
abbrev pub admitted : (ℕ → SlotState) → ℕ → ℕ → Bytes → ℕ → ℕ → SlotState
admitted before n o dat now y =
    if y == o
    then (if ltb o n && is_filled (before o) then before o else filled dat now)
    else if leb n y && ltb y o
    then gap now
    else before y

abbrev pub admit_outcome : (ℕ → SlotState) → ℕ → ℕ → InsertOutcome
admit_outcome before n o = record {
  stale = false;
  duplicate = ltb o n && is_filled (before o);
  recovered = ltb o n && not (is_filled (before o));
  new_gaps = o - n;
  overflow_flushed = 0;
}

-- `b'` is `b` after a packet at position `o`.
pub record Admits (b b' : ReorderBuffer) (base n o : ℕ) (dat : Bytes) (now : ℕ) : Type 0 where
  pub window : Window b' base (wrapping_add base (max n (o + 1) + (2 ^ 16 - 1))) (max n (o + 1))
  pub contents :
      (y : ℕ) → y < b.capacity → content b' base y ≡ admitted (content b base) n o dat now y
  pub same_time : b'.buffer_time ≡ b.buffer_time
  pub same_size : b'.capacity ≡ b.capacity

module _ {b : ReorderBuffer} {base highest n : ℕ} (v : Window b base highest n) (o : ℕ)
    (dat : Bytes) (now : ℕ) where
  abbrev seq : ℕ
  seq = wrapping_add base o

  -- The slots of a window in which the packet is stored anew.
  abbrev stored_slot : ℕ → Slot
  stored_slot y =
      if y == o
      then record { seq = seq; state = filled dat now }
      else if leb n y && ltb y o
      then record { seq = wrapping_add base y; state = gap now }
      else slot_at b.slots b.mask base y

  Admits-stored :
      (s : ℕ → Slot) (p : Option ℕ)
      → o < b.capacity
      → (ltb o n && is_filled (content b base o)) ≡ false
      → p ≡ some (wrapping_add base (max n (o + 1) + (2 ^ 16 - 1)))
      → ((y : ℕ) → y < b.capacity → slot_at s b.mask base y ≡ stored_slot y)
      → Admits b (record b { slots = s; highest_seq = p }) base n o dat now
  Admits-stored s p ho fresh hp at = record {
    window = record {
      ring = v.ring;
      roomy = v.roomy;
      small = v.small;
      base_is = v.base_is;
      highest_is = hp;
      base_lt = v.base_lt;
      span = refl;
      fits = omega (arith, v.fits);
      held = λ y hy. rw (at y (omega (arith, v.fits))) (ground (arith, v.held y));
      clear = λ y lo hi. rw (at y hi) (ground (arith, v.clear y));
    };
    contents = λ y hy. ap (λ t. t.state) (at y hy) ∙ ground (arith, fresh);
    same_time = refl;
    same_size = refl;
  }

  -- A number of the window that is already there.
  Admits-kept : o < n → is_filled (content b base o) ≡ true → Admits b b base n o dat now
  Admits-kept ho full =
      let same : max n (o + 1) ≡ n = omega arith in
      record {
        window =
            subst (λ m. Window b base (wrapping_add base (m + (2 ^ 16 - 1))) m) (sym same)
              (subst (λ h. Window b base h n) v.span v);
        contents = λ y hy. ground (arith, full);
        same_time = refl;
        same_size = refl;
      }

  -- A number of the window that was missing.
  Admits-filled_gap :
      o < n → is_filled (content b base o) ≡ false → Admits b (store b seq dat now) base n o dat now
  Admits-filled_gap ho missing =
      let same : max n (o + 1) ≡ n = omega arith in
      Admits-stored
        (update b.slots (slot_index b.mask seq) (record { seq = seq; state = filled dat now }))
        b.highest_seq (omega (arith, v.fits)) (ground (arith, missing))
        (v.highest_is
          ∙ ap some v.span
          ∙ ap (λ m. some (wrapping_add base (m + (2 ^ 16 - 1)))) (sym same))
        (λ y hy.
          slot_at-update v.ring b.slots base o (record { seq = seq; state = filled dat now })
            (omega (arith, v.fits)) y hy
          ∙ if_drop y)
    where
      if_drop :
          (y : ℕ)
          → (if y == o
              then record { seq = seq; state = filled dat now }
              else slot_at b.slots b.mask base y)
            ≡ stored_slot y
      if_drop y = ground arith

  -- A number past the window.
  stored_ahead : ReorderBuffer × ℕ
  stored_ahead =
      let (slots, gaps) =
        mark_gaps (o + 1 - n) 1 highest seq b.mask now (store b seq dat now).slots 0 in
      (record b { slots = slots; highest_seq = some seq }, gaps)

  Admits-ahead :
      n ≤ o → o < b.capacity → Admits b stored_ahead.0 base n o dat now × (stored_ahead.1 ≡ o - n)
  unfolding stored_ahead
  Admits-ahead lo ho =
      let top : Slot = record { seq = seq; state = filled dat now } in
      let s1 = update b.slots (slot_index b.mask seq) top in
      let written = slot_at-update v.ring b.slots base o top ho in
      let empties : (y : ℕ) → n ≤ y → y < o → is_empty (slot_at s1 b.mask base y).state ≡ true =
        λ y p q.
          rw (slot_at-update_ne v.ring b.slots base o top ho y (omega arith) (omega arith))
            (v.clear y p (omega arith)) in
      let all = marked v.ring v.small base n now v.fits o s1 lo ho empties in
      (
        Admits-stored _ (some seq) ho (ground arith) (ap some (omega arith))
            (λ y hy. rw v.span (all y hy ∙ rw (written y hy) (ground arith))),
        rw v.span (marked-count v.ring v.small base n now v.fits o s1 lo ho empties),
      )

  SlotState-cases :
      (s : SlotState)
      → is_empty s ≡ false
      → ((d : Bytes) × (t : ℕ) × (s ≡ filled d t)) ⊎ ((t : ℕ) × (s ≡ gap t))
  SlotState-cases empty e = cc
  SlotState-cases (gap t) e = inr (t, refl)
  SlotState-cases (filled d t) e = inl (d, t, refl)

  -- `f` is what an overflow flushed before.
  abbrev flushed_outcome : ℕ → InsertOutcome
  flushed_outcome f = record no_outcome { overflow_flushed = f }

  pub place-Admits :
      (f : ℕ)
      → o < b.capacity
      → Admits b (place b highest seq dat now (flushed_outcome f)).0 base n o dat now
        × ((place b highest seq dat now (flushed_outcome f)).1
            ≡ record (admit_outcome (content b base) n o) { overflow_flushed = f })
  unfolding stored_ahead
  place-Admits f ho = elim (dec_lt o n) [
    | yes lt ↦ elim (SlotState-cases (content b base o) (v.held o lt).1) [
      | inl (d, t, e) ↦
          let full : is_filled (content b base o) ≡ true = ap is_filled e in
          rw (place-filled b highest seq dat now t d (flushed_outcome f) (v.held o lt).0 e)
            (Admits-kept lt full, ground (arith, full))
      | inr (t, e) ↦
          let missing : is_filled (content b base o) ≡ false = ap is_filled e in
          let back : is_positive (signed16 (wrapping_sub seq highest)) ≡ false =
            not_positive16_cases _ (omega (arith, v.span, v.small, v.fits, v.base_lt)) in
          rw
            (
              place-gap b highest seq dat now t (flushed_outcome f) (v.held o lt).0 e,
              extend-back (store b seq dat now) highest seq now
                  (record no_outcome { recovered = true; overflow_flushed = f }) back,
            )
            (Admits-filled_gap lt missing, ground (arith, missing))
    ]
    | no ge ↦
        let ahead : wrapping_sub seq highest ≡ o + 1 - n = omega (arith, v.span, v.small, v.fits) in
        let all = Admits-ahead (omega arith) ho in
        rw
          (
            place-empty b highest seq dat now (flushed_outcome f) (v.clear o (omega arith) ho),
            extend-forward (store b seq dat now) highest seq now (o + 1 - n) (flushed_outcome f)
                ahead (omega arith) (omega (arith, v.small)),
          )
          (all.0, ground (arith, all.1))
  ]

-- A packet whose sequence number stands `o` places after the base of the window, within the ring:
-- it is reported as a duplicate exactly if its slot is filled, and then changes nothing; it is
-- reported as a recovery exactly if it fills a gap of the window; otherwise it extends the window
-- up to itself, and `new_gaps` counts the numbers that it leaves out, which are gaps noticed now.
-- The window's invariant holds afterwards, nothing is dropped, and no other content changes.
pub insert-Admits :
    {b : ReorderBuffer} {base highest n : ℕ} (v : Window b base highest n) (o : ℕ) (dat : Bytes)
    (now : ℕ)
    → o < b.capacity
    → let (b', out) = insert b (wrapping_add base o) dat now in
      Admits b b' base n o dat now × (out ≡ admit_outcome (content b base) n o)
insert-Admits v o dat now ho =
    rw (insert-at-Window _ dat now v, insert_window-place o dat now v ho)
      (place-Admits v o dat now 0 ho)
