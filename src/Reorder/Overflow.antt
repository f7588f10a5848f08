-- ===== src/Reorder/Overflow.antt =====
-- `insert` of a packet that is older than the window or further ahead than the ring can hold.
use bilbycast_rist.Prelude.{
  ◌∙◌, ℕ, ◌-◌, ◌^◌, ◌≤◌, ◌<◌, ◌≡◌, ◌≢◌, ap, refl, arith, true, false, wrapping_add, wrapping_sub,
  update, sym, subst, u16, next_power_of_two, update_self,
}
use bilbycast_rist.Ring.{IsRing, slot_index}
use bilbycast_rist.Reorder.{
  ReorderBuffer, Slot, Bytes, filled, is_empty, insert, insert_window, overflow, anchor, no_outcome,
  new, empty_slot,
}
use bilbycast_rist.Reorder.Window.{Window, content, slot_at, slot_at-update_ne}
use bilbycast_rist.Reorder.Insert.{insert-at-Window}

-- A packet behind the base changes nothing but the flag in its outcome.
pub insert-stale :
    {b : ReorderBuffer} {base highest n : ℕ} (seq : ℕ) (dat : Bytes) (now : ℕ)
    → Window b base highest n
    → 2 ^ 15 ≤ wrapping_sub seq base
    → insert b seq dat now ≡ (b, record no_outcome { stale = true })
unfolding insert_window
insert-stale seq dat now v h = insert-at-Window seq dat now v ∙ ground arith

-- A buffer whose one packet is `seq`.
pub record Anchored (b b' : ReorderBuffer) (seq : ℕ) (dat : Bytes) (now : ℕ) : Type 0 where
  pub window : Window b' seq seq 1
  pub only : content b' seq 0 ≡ filled dat now
  pub same_time : b'.buffer_time ≡ b.buffer_time

module _ (b : ReorderBuffer) (ring : IsRing b.mask b.capacity) (roomy : 64 ≤ b.capacity)
    (small : b.capacity ≤ 2 ^ 14) where
  -- The window after a reset or after the first packet, over slots that are all empty.
  anchor-Anchored :
      (seq : ℕ) (dat : Bytes) (now : ℕ)
      → seq < 2 ^ 16
      → Anchored b (anchor (record b { slots = λ _. empty_slot }) seq dat now) seq dat now
  anchor-Anchored seq dat now hs =
      let e : wrapping_add seq 0 ≡ seq = omega arith in
      let top : Slot = record { seq = seq; state = filled dat now } in
      let clean : ℕ → Slot = λ _. empty_slot in
      let s' = update clean (slot_index b.mask seq) top in
      let here : slot_at s' b.mask seq 0 ≡ top =
        ap (λ t. s' (slot_index b.mask t)) e ∙ update_self clean (slot_index b.mask seq) top in
      let there : (y : ℕ) → y < b.capacity → y ≢ 0 → slot_at s' b.mask seq y ≡ empty_slot =
        λ y hy ne.
          subst (λ t. slot_at (update clean (slot_index b.mask t) top) b.mask seq y ≡ empty_slot) e
            (slot_at-update_ne ring clean seq 0 top (omega (arith, roomy)) y hy ne) in
      record {
        window = record {
          ring = ring;
          roomy = roomy;
          small = small;
          base_is = refl;
          highest_is = refl;
          base_lt = hs;
          span = omega arith;
          fits = omega (arith, roomy);
          held = λ y hy.
              let z : 0 ≡ y = omega arith in
              subst
                (λ t.
                  ((slot_at s' b.mask seq t).seq ≡ wrapping_add seq t)
                  × (is_empty (slot_at s' b.mask seq t).state ≡ false))
                z (ap (λ s. s.seq) here ∙ sym e, ap (λ s. is_empty s.state) here);
          clear = λ y lo hi. ap (λ s. is_empty s.state) (there y hi (omega arith));
        };
        only = ap (λ s. s.state) here;
        same_time = refl;
      }

-- The first packet of a new buffer becomes the whole window.
pub new-Anchored :
    (buffer_time seq : ℕ) (dat : Bytes) (now : ℕ)
    → seq < 2 ^ 16
    → Anchored (new buffer_time) (insert (new buffer_time) seq dat now).0 seq dat now
unfolding new next_power_of_two insert
new-Anchored buffer_time seq dat now h =
    anchor-Anchored (new buffer_time)
      (record { masked = refl; exponent = 13; power = refl; turns = 8; divides = refl })
      (omega arith) (omega arith) seq dat now h

module _ {b : ReorderBuffer} {base highest n : ℕ} (v : Window b base highest n) (o : ℕ)
    (dat : Bytes) (now : ℕ) (far : b.capacity ≤ o) (near : o < 2 ^ 15) where
  abbrev pub advance : ℕ
  advance = o - (b.capacity - 1)

  pub insert-overflow :
      insert b (wrapping_add base o) dat now
      ≡ overflow b base highest advance (wrapping_add base o) dat now
  unfolding insert_window
  insert-overflow =
      let from : wrapping_sub (wrapping_add base o) base ≡ o = omega (arith, v.base_lt) in
      let ahead : wrapping_sub (u16 b.capacity) 1 ≡ b.capacity - 1 =
        omega (arith, v.small, v.roomy) in
      insert-at-Window (wrapping_add base o) dat now v ∙ rw (from, ahead) (ground (arith, v.roomy))
