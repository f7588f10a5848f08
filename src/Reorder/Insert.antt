-- ===== src/Reorder/Insert.antt =====
-- `insert` within the window: which packets are duplicates, which fill a gap, which open new gaps.
use native.Mathlib.Decide.{dec_lt}
use bilbycast_rist.Prelude.{
  ℕ, ◌+◌, ◌-◌, ◌^◌, ◌≤◌, ◌<◌, ◌≡◌, ◌∙◌, ap₂, arith, some, true, false, wrapping_add, wrapping_sub,
  if◌then◌else◌, ltb, leb, ◌&&◌, sym,
}
use bilbycast_rist.Prelude.Int.{signed16, is_positive, positive16}
use bilbycast_rist.Ring.{IsRing, slot_index}
use bilbycast_rist.Reorder.{
  insert, insert_at, ReorderBuffer, InsertOutcome, Slot, Bytes, gap, filled, is_empty, mark_gaps,
  store, extend, place, insert_window, no_outcome,
}
use bilbycast_rist.Reorder.Window.{Window, slot_at, slot_at-shift, slot_at-from, slot_at-from_turn}
use bilbycast_rist.Reorder.Marking.{mark_gaps_lem, mark_gaps-count}

-- The gap marking in positions after `base`, for a window of `n` numbers and a packet `o` places
-- after `base`, beyond the window.
module _ {mask cap : ℕ} (r : IsRing mask cap) (small : cap ≤ 2 ^ 14) (base n now : ℕ)
    (hn : n ≤ cap) where
  abbrev last : ℕ
  last = wrapping_add base (n + (2 ^ 16 - 1))

  pub marked :
      (o : ℕ) (slots : ℕ → Slot)
      → n ≤ o
      → o < cap
      → ((y : ℕ) → n ≤ y → y < o → is_empty (slot_at slots mask base y).state ≡ true)
      → (y : ℕ) → y < cap
      → slot_at (mark_gaps (o + 1 - n) 1 last (wrapping_add base o) mask now slots 0).0 mask base y
        ≡ (if leb n y && ltb y o
            then record { seq = wrapping_add base y; state = gap now }
            else slot_at slots mask base y)
  marked o slots lo hi hs y hy =
      let start = wrapping_add base n in
      let e1 : wrapping_add base o ≡ wrapping_add start (o - n) = omega arith in
      let empties : (x : ℕ)
          → 0 ≤ x
          → x < o - n
          → is_empty (slot_at slots mask start x).state ≡ true =
        λ x p q. rw (slot_at-shift slots mask base n x) (hs (n + x) (omega arith) (omega arith)) in
      let lem =
        mark_gaps_lem r small last start now (omega arith) (o + 1 - n) 1 0 (o - n) slots 0
          (omega arith) (omega arith) (omega arith) empties in
      let out = (mark_gaps (o + 1 - n) 1 last (wrapping_add base o) mask now slots 0).0 in
      let lem' : (x : ℕ)
          → x < cap
          → slot_at out mask start x ≡ (
              if leb 0 x && ltb x (o - n)
              then record { seq = wrapping_add start x; state = gap now }
              else slot_at slots mask start x) =
        rw e1 lem in
      elim (dec_lt y n) [
        | yes lt ↦
            let x = y + cap - n in
            sym (slot_at-from_turn out base n x y r (omega arith))
            ∙ lem' x (omega arith)
            ∙ rw (slot_at-from_turn slots base n x y r (omega arith)) (ground arith)
        | no ge ↦
            let x = y - n in
            let same : wrapping_add start x ≡ wrapping_add base y = omega arith in
            sym (slot_at-from out mask base n x y (omega arith))
            ∙ lem' x (omega arith)
            ∙ rw (slot_at-from slots mask base n x y (omega arith), same) (ground arith)
      ]

  pub marked-count :
      (o : ℕ) (slots : ℕ → Slot)
      → n ≤ o
      → o < cap
      → ((y : ℕ) → n ≤ y → y < o → is_empty (slot_at slots mask base y).state ≡ true)
      → (mark_gaps (o + 1 - n) 1 last (wrapping_add base o) mask now slots 0).1 ≡ o - n
  marked-count o slots lo hi hs =
      let start = wrapping_add base n in
      let e1 : wrapping_add start (o - n) ≡ wrapping_add base o = omega arith in
      let empties : (x : ℕ)
          → 0 ≤ x
          → x < o - n
          → is_empty (slot_at slots mask start x).state ≡ true =
        λ x p q. rw (slot_at-shift slots mask base n x) (hs (n + x) (omega arith) (omega arith)) in
      (rw e1 at (
        mark_gaps-count r small last start now (omega arith) (o + 1 - n) 1 0 (o - n) slots 0
          (omega arith) (omega arith) (omega arith) empties (omega arith)))
      ∙ omega arith

-- `extend` on its two branches.
pub extend-back :
    (b : ReorderBuffer) (highest seq now : ℕ) (out : InsertOutcome)
    → is_positive (signed16 (wrapping_sub seq highest)) ≡ false
    → extend b highest seq now out ≡ (b, out)
unfolding extend
extend-back b highest seq now out e = rw e

pub extend-forward :
    (b : ReorderBuffer) (highest seq now d : ℕ) (out : InsertOutcome)
    → wrapping_sub seq highest ≡ d
    → 0 < d
    → d < 2 ^ 15
    → extend b highest seq now out ≡ (
      record b {
        slots = (mark_gaps d 1 highest seq b.mask now b.slots out.new_gaps).0;
        highest_seq = some seq;
      },
      record out { new_gaps = (mark_gaps d 1 highest seq b.mask now b.slots out.new_gaps).1 },
    )
unfolding extend
extend-forward b highest seq now d out e lo hi = rw (e, positive16 d lo hi)

-- `place` by what the slot holds.
pub place-empty :
    (b : ReorderBuffer) (highest seq : ℕ) (dat : Bytes) (now : ℕ) (out : InsertOutcome)
    → is_empty (b.slots (slot_index b.mask seq)).state ≡ true
    → place b highest seq dat now out ≡ extend (store b seq dat now) highest seq now out
unfolding place
place-empty b highest seq dat now out e = ground arith

pub place-gap :
    (b : ReorderBuffer) (highest seq : ℕ) (dat : Bytes) (now t : ℕ) (out : InsertOutcome)
    → (b.slots (slot_index b.mask seq)).seq ≡ seq
    → (b.slots (slot_index b.mask seq)).state ≡ gap t
    → place b highest seq dat now out
      ≡ extend (store b seq dat now) highest seq now (record out { recovered = true })
unfolding place
place-gap b highest seq dat now t out e f = ground arith

pub place-filled :
    (b : ReorderBuffer) (highest seq : ℕ) (dat : Bytes) (now t : ℕ) (d : Bytes)
    (out : InsertOutcome)
    → (b.slots (slot_index b.mask seq)).seq ≡ seq
    → (b.slots (slot_index b.mask seq)).state ≡ filled d t
    → place b highest seq dat now out ≡ (b, record out { duplicate = true })
unfolding place
place-filled b highest seq dat now t d out e f = ground arith

-- `insert` at a known window, and for a packet that lies within the ring.
pub insert-at-Window :
    {b : ReorderBuffer} {base highest n : ℕ} (seq : ℕ) (dat : Bytes) (now : ℕ)
    → Window b base highest n
    → insert b seq dat now ≡ insert_window b base highest seq dat now
unfolding insert
insert-at-Window {b} seq dat now v = ap₂ (λ p q. insert_at p q b seq dat now) v.base_is v.highest_is

pub insert_window-place :
    {b : ReorderBuffer} {base highest n : ℕ} (o : ℕ) (dat : Bytes) (now : ℕ)
    → Window b base highest n
    → o < b.capacity
    → insert_window b base highest (wrapping_add base o) dat now
      ≡ place b highest (wrapping_add base o) dat now no_outcome
unfolding insert_window
insert_window-place {b} {base} {highest} o dat now v ho =
    let from : wrapping_sub (wrapping_add base o) base ≡ o = omega (arith, v.base_lt, v.small) in
    rw from (ground (arith, v.small, v.roomy))
