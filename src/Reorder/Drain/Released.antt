-- ===== src/Reorder/Drain/Released.antt =====
-- What a drain of a window releases, and the window behind its first number.
use native.Mathlib.Decide.{dec_lt}
use bilbycast_rist.Prelude.{
  ◌∙◌, ℕ, zero, suc, ◌+◌, ◌-◌, ◌<◌, ◌≡◌, ap, ap₂, refl, arith, some, none, Bool, true, false,
  wrapping_add, wrapping_sub, update, if◌then◌else◌, ltb, leb, sym, List, [], ◌∷◌, lt→ltb,
  le→not_ltb,
}
use bilbycast_rist.Prelude.Int.{signed16, is_positive, not_positive16_cases}
use bilbycast_rist.Ring.{slot_index}
use bilbycast_rist.Reorder.{
  ReorderBuffer, Slot, SlotState, DrainItem, delivered, lost, empty, gap, filled, is_empty,
  drain_step, drain_at, drain_slot,
}
use bilbycast_rist.Reorder.Window.{
  Window, slot_at, slot_at-update_self, slot_at-update_ne, slot_at-from, slot_at-from_turn,
}

-- The time from which a content is held.
abbrev pub held_since : SlotState → ℕ
held_since empty = 0
held_since (gap t) = t
held_since (filled d t) = t

-- Whether a content is due at `now`.
abbrev pub due : ℕ → ℕ → SlotState → Bool
due buffer_time now empty = false
due buffer_time now (gap t) = leb buffer_time (now - t)
due buffer_time now (filled d t) = leb buffer_time (now - t)

abbrev pub item : ℕ → SlotState → DrainItem
item seq empty = lost
item seq (gap t) = lost
item seq (filled d t) = delivered d seq t

-- What is due from the position `i` on, with `n` positions left: the contents are `c`.
unfoldable pub released : ℕ → ℕ → (ℕ → SlotState) → ℕ → ℕ → ℕ → List DrainItem
released buffer_time now c base zero i = []
released buffer_time now c base (suc n) i =
    if due buffer_time now (c i)
    then item (wrapping_add base i) (c i) ∷ released buffer_time now c base n (i + 1)
    else []

-- The buffer after the base has moved one place on.
unfoldable pub advanced : ReorderBuffer → ℕ → ReorderBuffer
advanced b base = record b {
  slots = update b.slots (slot_index b.mask base) (record { seq = base; state = empty });
  base_seq = some (wrapping_add base 1);
}

abbrev pub head : ReorderBuffer → ℕ → Slot
head b base = b.slots (slot_index b.mask base)

module _ {b : ReorderBuffer} {base highest n : ℕ} (v : Window b base highest (suc n)) where
  pub zeroth : wrapping_add base 0 ≡ base
  zeroth = omega (arith, v.base_lt)

  pub first : slot_at b.slots b.mask base 0 ≡ head b base
  first = ap (λ t. b.slots (slot_index b.mask t)) zeroth

  pub head-seq : (head b base).seq ≡ base
  head-seq = ap (λ t. t.seq) (sym first) ∙ (v.held 0 (omega arith)).0 ∙ zeroth

  abbrev done : Slot
  done = record { seq = base; state = empty }

  pub advanced-content :
      (y : ℕ)
      → y < b.capacity
      → slot_at (advanced b base).slots b.mask (wrapping_add base 1) y
        ≡ (if ltb (y + 1) b.capacity then slot_at b.slots b.mask base (y + 1) else done)
  unfolding advanced
  advanced-content y hy =
      let s' = update b.slots (slot_index b.mask base) done in
      let s0 : update b.slots (slot_index b.mask (wrapping_add base 0)) done ≡ s' =
        ap (λ t. update b.slots (slot_index b.mask t) done) zeroth in
      elim (dec_lt (y + 1) b.capacity) [
        | yes lt ↦
            slot_at-from s' b.mask base 1 y (y + 1) (omega arith)
            ∙ ap (λ s. slot_at s b.mask base (y + 1)) (sym s0)
            ∙ slot_at-update_ne v.ring b.slots base 0 done (omega arith) (y + 1) lt (omega arith)
            ∙ rw (lt→ltb _ _ lt) refl
        | no ge ↦
            slot_at-from_turn s' base 1 y 0 v.ring (omega arith)
            ∙ ap (λ s. slot_at s b.mask base 0) (sym s0)
            ∙ slot_at-update_self v.ring b.slots base 0 done (omega arith)
            ∙ rw (le→not_ltb (y + 1) b.capacity (omega arith)) refl
      ]

  pub advanced-Window : Window (advanced b base) (wrapping_add base 1) highest n
  unfolding advanced
  advanced-Window = record {
    ring = v.ring;
    roomy = v.roomy;
    small = v.small;
    base_is = refl;
    highest_is = v.highest_is;
    base_lt = omega arith;
    span = omega (arith, v.span);
    fits = omega (arith, v.fits);
    held =
        λ y hy. ground (arith, advanced-content y (omega (arith, v.fits)), v.held (y + 1), v.fits);
    clear = λ y lo hi. ground (arith, advanced-content y hi, v.clear (y + 1));
  }

  drain_step-head : (now : ℕ) → drain_step b now ≡ drain_slot b base now
  unfolding drain_step
  drain_step-head now =
      let open_window : is_positive (signed16 (wrapping_sub base highest)) ≡ false =
        not_positive16_cases _ (omega (arith, v.span, v.small, v.fits, v.base_lt)) in
      ap₂ (λ p q. drain_at p q b now) v.base_is v.highest_is ∙ rw open_window refl

  pub drain_step-due :
      (now : ℕ) (s : SlotState)
      → (head b base).state ≡ s
      → is_empty s ≡ false
      → due b.buffer_time now s ≡ true
      → drain_step b now ≡ some (advanced b base, item base s)
  unfolding drain_slot advanced
  drain_step-due now empty e f d = cc
  drain_step-due now (gap t) e f d = drain_step-head now ∙ ground (arith, head-seq, e)
  drain_step-due now (filled x t) e f d = drain_step-head now ∙ ground (arith, head-seq, e)

  pub drain_step-early :
      (now : ℕ) (s : SlotState)
      → (head b base).state ≡ s
      → due b.buffer_time now s ≡ false
      → drain_step b now ≡ none
  unfolding drain_slot
  drain_step-early now empty e d = drain_step-head now ∙ ground (arith, head-seq, e)
  drain_step-early now (gap t) e d = drain_step-head now ∙ ground (arith, head-seq, e)
  drain_step-early now (filled x t) e d = drain_step-head now ∙ ground (arith, head-seq, e)

pub released-ext :
    (buffer_time now : ℕ) (c c' : ℕ → SlotState) (base base' n i i' : ℕ)
    → ((y : ℕ) → y < n → c' (i' + y) ≡ c (i + y))
    → ((y : ℕ) → wrapping_add base' (i' + y) ≡ wrapping_add base (i + y))
    → released buffer_time now c' base' n i' ≡ released buffer_time now c base n i
unfolding released
released-ext buffer_time now c c' base base' zero i i' h k = refl
released-ext buffer_time now c c' base base' (suc n) i i' h k =
    let here : c' i' ≡ c i =
      ap c' {x = i'} {y = i' + 0} (omega arith)
      ∙ h 0 (omega arith)
      ∙ ap c {x = i + 0} {y = i} (omega arith) in
    let seq : wrapping_add base' i' ≡ wrapping_add base i = omega (arith, k 0) in
    let rest =
      released-ext buffer_time now c c' base base' n (i + 1) (i' + 1)
        (λ y hy.
          ap c' {x = i' + 1 + y} {y = i' + suc y} (omega arith)
          ∙ h (suc y) (omega arith)
          ∙ ap c {x = i + suc y} {y = i + 1 + y} (omega arith))
        (λ y. omega (arith, k (suc y))) in
    rw (here, seq, rest) refl
