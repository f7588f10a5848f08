-- ===== src/Reorder/Window.antt =====
-- The invariant of the reorder buffer: which slots stand for the sequence numbers from `base_seq`
-- to `highest_seq`, and that no other slot holds anything.
use native.Mathlib.Decide.{ℕ_discrete}
use bilbycast_rist.Prelude.{
  ◌∙◌, ℕ, ◌+◌, ◌-◌, ◌^◌, ◌≤◌, ◌<◌, ◌≡◌, ◌≢◌, ap, arith, some, true, false, wrapping_add, update,
  update_ne, update_self, ==_self, ne→not_eq, if◌then◌else◌, ◌==◌, subst, sym, refl,
}
use bilbycast_rist.Ring.{IsRing, slot_index, slot_index-inj, slot_index-turn}
use bilbycast_rist.Reorder.{ReorderBuffer, Slot, SlotState, is_empty}

-- The slot of the sequence number `o` places after `base`.
abbrev pub slot_at : (ℕ → Slot) → ℕ → ℕ → ℕ → Slot
slot_at slots mask base o = slots (slot_index mask (wrapping_add base o))

-- The window has `n` numbers: none if everything up to `highest` is drained.
pub record Window (b : ReorderBuffer) (base highest n : ℕ) : Type 0 where
  pub ring : IsRing b.mask b.capacity
  pub roomy : 64 ≤ b.capacity
  pub small : b.capacity ≤ 2 ^ 14
  pub base_is : b.base_seq ≡ some base
  pub highest_is : b.highest_seq ≡ some highest
  pub base_lt : base < 2 ^ 16
  pub span : highest ≡ wrapping_add base (n + (2 ^ 16 - 1))
  pub fits : n ≤ b.capacity
  pub held :
      (o : ℕ)
      → o < n
      → ((slot_at b.slots b.mask base o).seq ≡ wrapping_add base o)
        × (is_empty (slot_at b.slots b.mask base o).state ≡ false)
  pub clear :
      (o : ℕ) → n ≤ o → o < b.capacity → is_empty (slot_at b.slots b.mask base o).state ≡ true

-- What the buffer holds for the number `o` places after `base`.
abbrev pub content : ReorderBuffer → ℕ → ℕ → SlotState
content b base o = (slot_at b.slots b.mask base o).state

pub wrapping_add_add : (a i j : ℕ) → wrapping_add (wrapping_add a i) j ≡ wrapping_add a (i + j)
wrapping_add_add a i j = omega arith

-- A write to one position of a window is seen there, and at no other position.
module _ {mask cap : ℕ} (r : IsRing mask cap) (slots : ℕ → Slot) (base o : ℕ) (v : Slot)
    (ho : o < cap) where
  abbrev write : ℕ → Slot
  write = update slots (slot_index mask (wrapping_add base o)) v

  pub slot_at-update_self : slot_at write mask base o ≡ v
  slot_at-update_self = update_self slots _ v

  pub slot_at-update_ne :
      (y : ℕ) → y < cap → y ≢ o → slot_at write mask base y ≡ slot_at slots mask base y
  slot_at-update_ne y hy ne = update_ne slots _ v _ (λ e. ne (slot_index-inj base y o r hy ho e))

module _ {mask cap : ℕ} (r : IsRing mask cap) (slots : ℕ → Slot) (base o : ℕ) (v : Slot)
    (ho : o < cap) where
  pub slot_at-update :
      (y : ℕ)
      → y < cap
      → slot_at (update slots (slot_index mask (wrapping_add base o)) v) mask base y
        ≡ (if y == o then v else slot_at slots mask base y)
  slot_at-update y hy = elim (ℕ_discrete y o) [
    | yes e ↦
        subst
          (λ t.
            slot_at (update slots (slot_index mask (wrapping_add base o)) v) mask base t
            ≡ (if t == o then v else slot_at slots mask base t))
          (sym e) (slot_at-update_self r slots base o v ho ∙ rw (==_self o) refl)
    | no ne ↦ slot_at-update_ne r slots base o v ho y hy ne ∙ rw (ne→not_eq y o ne) refl
  ]

-- Positions past one turn of the ring.
pub slot_at-turn :
    {mask cap : ℕ} (slots : ℕ → Slot) (base o : ℕ)
    → IsRing mask cap
    → slot_at slots mask base (o + cap) ≡ slot_at slots mask base o
slot_at-turn slots base o r = ap slots (slot_index-turn base o r)

pub slot_at-shift :
    (slots : ℕ → Slot) (mask base i j : ℕ)
    → slot_at slots mask (wrapping_add base i) j ≡ slot_at slots mask base (i + j)
slot_at-shift slots mask base i j = ap (λ s. slots (slot_index mask s)) (wrapping_add_add base i j)

-- A position after `base + n` as one after `base`, within the turn and one turn on.
pub slot_at-from :
    (slots : ℕ → Slot) (mask base n x y : ℕ)
    → n + x ≡ y
    → slot_at slots mask (wrapping_add base n) x ≡ slot_at slots mask base y
slot_at-from slots mask base n x y e =
    slot_at-shift slots mask base n x ∙ ap (λ t. slot_at slots mask base t) e

pub slot_at-from_turn :
    {mask cap : ℕ} (slots : ℕ → Slot) (base n x y : ℕ)
    → IsRing mask cap
    → n + x ≡ y + cap
    → slot_at slots mask (wrapping_add base n) x ≡ slot_at slots mask base y
slot_at-from_turn {mask} {cap} slots base n x y r e =
    slot_at-from slots mask base n x (y + cap) e ∙ slot_at-turn slots base y r
