-- ===== src/Reorder/Displaced.antt =====
-- `insert` into a drained buffer of a packet that is between one ring and two ahead: the gap
-- marking goes round the ring, and a gap takes the slot of the packet that was just stored.
use bilbycast_rist.Prelude.{
  ◌∙◌, ℕ, zero, suc, ◌+◌, ◌-◌, ◌^◌, ◌≤◌, ◌<◌, ◌≡◌, ◌≢◌, ap, refl, arith, some, true, false,
  wrapping_add, wrapping_sub, update, ltb, leb, ◌||◌, update_self, update_ne, sym, subst, u32,
  Bool-cases, inl, inr,
}
use native.Mathlib.Decide.{dec_lt}
use bilbycast_rist.Ring.{IsRing, slot_index, slot_index-inj, slot_index-turn, IsRing-pos}
use bilbycast_rist.Reorder.{
  ReorderBuffer, Slot, Bytes, gap, is_empty, insert, overflow, no_outcome, empty_slot, flush_span,
  mark_gaps, replaces, store,
}
use bilbycast_rist.Reorder.Window.{Window, slot_at, slot_at-update_self, slot_at-update_ne}
use bilbycast_rist.Reorder.Marking.{
  flush_span_lem, mark_gaps-replace, mark_gaps-keep, mark_gaps-zero, replaces_self,
}
use bilbycast_rist.Reorder.Insert.{place-empty, extend-forward}
use bilbycast_rist.Reorder.Overflow.{insert-overflow}
use bilbycast_rist.Reorder.Flush.{overflow-keep}

replaces_other : (a seq : ℕ) (slot : Slot) → a ≢ seq → slot.seq ≢ a → replaces a seq slot ≡ true
unfolding replaces
replaces_other a seq slot ne other = ground arith

module _ {mask cap : ℕ} (r : IsRing mask cap) (small : cap ≤ 2 ^ 14) (base highest now q : ℕ)
    (next : base ≡ wrapping_add highest 1) (hq : q < cap) where
  abbrev packet : ℕ
  packet = wrapping_add base (q + cap)

  abbrev displacing : Slot
  displacing = record { seq = wrapping_add base q; state = gap now }

  distinct :
      (x : ℕ)
      → q < x
      → x < q + cap
      → slot_index mask (wrapping_add base x) ≢ slot_index mask (wrapping_add base q)
  distinct x lo hi i =
      let e1 : wrapping_add (wrapping_add base q) (x - q) ≡ wrapping_add base x = omega arith in
      let e2 : wrapping_add (wrapping_add base q) 0 ≡ wrapping_add base q = omega arith in
      let f =
        slot_index-inj (wrapping_add base q) (x - q) 0 r (omega arith) (omega arith)
          (ap (slot_index mask) e1 ∙ i ∙ ap (slot_index mask) (sym e2)) in
      omega arith

  -- After the turn nothing touches the slot again.
  stays :
      (k j x : ℕ) (slots : ℕ → Slot) (gaps : ℕ)
      → j ≡ x + 1
      → x + k ≡ q + cap + 1
      → q < x
      → slot_at slots mask base q ≡ displacing
      → slot_at (mark_gaps k j highest packet mask now slots gaps).0 mask base q ≡ displacing
  stays zero j x slots gaps hj h past at =
      ap (λ p. slot_at p.0 mask base q)
        (mark_gaps-zero r small highest base now next j packet slots gaps zero refl)
      ∙ at
  stays (suc k) j x slots gaps hj h past at =
      let a = wrapping_add base x in
      let pos : wrapping_add highest j ≡ a = omega arith in
      elim (dec_lt x (q + cap)) [
        | yes lt ↦ elim (Bool-cases (replaces a packet (slots (slot_index mask a)))) [
          | inl e ↦
              let g : Slot = record { seq = a; state = gap now } in
              let apart : slot_index mask a ≢ slot_index mask (wrapping_add base q) =
                λ i. distinct x past lt i in
              ap (λ p. slot_at p.0 mask base q)
                (mark_gaps-replace r small highest base now next k j a packet slots gaps pos e)
              ∙ stays k (j + 1) (x + 1) (update slots (slot_index mask a) g) (u32 (gaps + 1))
                  (omega arith) (omega arith) (omega arith)
                  (update_ne slots (slot_index mask a) g (slot_index mask (wrapping_add base q))
                      (λ i. apart (sym i))
                    ∙ at)
          | inr e ↦
              ap (λ p. slot_at p.0 mask base q)
                (mark_gaps-keep r small highest base now next k j a packet slots gaps pos e)
              ∙ stays k (j + 1) (x + 1) slots gaps (omega arith) (omega arith) (omega arith) at
        ]
        | no ge ↦
            let here : x ≡ q + cap = omega arith in
            ap (λ p. slot_at p.0 mask base q)
              (mark_gaps-keep r small highest base now next k j a packet slots gaps pos
                (rw here (replaces_self packet (slots (slot_index mask packet)))))
            ∙ stays k (j + 1) (x + 1) slots gaps (omega arith) (omega arith) (omega arith) at
      ]

  -- Until the turn the slot holds the packet, and then it becomes the gap.
  becomes :
      (k j x : ℕ) (slots : ℕ → Slot) (gaps : ℕ)
      → j ≡ x + 1
      → x + k ≡ q + cap + 1
      → x ≤ q
      → (slot_at slots mask base q).seq ≡ packet
      → slot_at (mark_gaps k j highest packet mask now slots gaps).0 mask base q ≡ displacing
  becomes zero j x slots gaps hj h past at = absurd (omega arith)
  becomes (suc k) j x slots gaps hj h past at =
      let a = wrapping_add base x in
      let g : Slot = record { seq = a; state = gap now } in
      let pos : wrapping_add highest j ≡ a = omega arith in
      elim (dec_lt x q) [
        | yes lt ↦ elim (Bool-cases (replaces a packet (slots (slot_index mask a)))) [
          | inl e ↦
              ap (λ p. slot_at p.0 mask base q)
                (mark_gaps-replace r small highest base now next k j a packet slots gaps pos e)
              ∙ becomes k (j + 1) (x + 1) (update slots (slot_index mask a) g) (u32 (gaps + 1))
                  (omega arith) (omega arith) (omega arith)
                  (ap (λ s. s.seq)
                      (slot_at-update_ne r slots base x g (omega arith) q hq (omega arith))
                    ∙ at)
          | inr e ↦
              ap (λ p. slot_at p.0 mask base q)
                (mark_gaps-keep r small highest base now next k j a packet slots gaps pos e)
              ∙ becomes k (j + 1) (x + 1) slots gaps (omega arith) (omega arith) (omega arith) at
        ]
        | no ge ↦
            let here : x ≡ q = omega arith in
            let other : replaces a packet (slots (slot_index mask a)) ≡ true =
              replaces_other a packet (slots (slot_index mask a)) (omega (arith, IsRing-pos r))
                (rw here (λ i. omega (arith, IsRing-pos r))) in
            ap (λ p. slot_at p.0 mask base q)
              (mark_gaps-replace r small highest base now next k j a packet slots gaps pos other)
            ∙ stays k (j + 1) (x + 1) (update slots (slot_index mask a) g) (u32 (gaps + 1))
                (omega arith) (omega arith) (omega arith)
                (subst
                  (λ t.
                    slot_at
                      (update slots (slot_index mask (wrapping_add base t))
                        (record { seq = wrapping_add base t; state = gap now }))
                      mask base q
                    ≡ displacing)
                  (sym here) (slot_at-update_self r slots base q displacing hq))
      ]

-- In a drained buffer a packet `o` places after the base, with `capacity ≤ o < 2 capacity - 1`, is
-- stored and then displaced: its slot holds a gap for the number one ring earlier, which lies
-- behind the new base, and the outcome reports neither a stale packet nor a duplicate.
pub insert-displaces :
    {b : ReorderBuffer} {base highest : ℕ} (q : ℕ) (dat : Bytes) (now : ℕ)
    → Window b base highest 0
    → q < b.capacity - 1
    → let seq = wrapping_add base (q + b.capacity) in
      let (b', out) = insert b seq dat now in
      (b'.slots (slot_index b.mask seq) ≡ record { seq = wrapping_add base q; state = gap now })
      × (b'.base_seq ≡ some (wrapping_add base (q + 1)))
      × (b'.highest_seq ≡ some seq)
      × (out.stale ≡ false)
      × (out.duplicate ≡ false)
insert-displaces {b} {base} {highest} q dat now v hq =
    let o = q + b.capacity in
    let seq = wrapping_add base o in
    let a = q + 1 in
    let adv : o - (b.capacity - 1) ≡ a = omega arith in
    let keep : (leb b.capacity a || ltb (wrapping_sub highest base) a) ≡ false =
      ground (arith, v.span, v.base_lt, v.small) in
    let s = (flush_span a 0 base b.mask b.slots 0).0 in
    let f = (flush_span a 0 base b.mask b.slots 0).1 in
    let fb : ReorderBuffer = record b { slots = s; base_seq = some (wrapping_add base a) } in
    let flushed = flush_span_lem v.ring base a 0 b.slots 0 (omega arith) q (omega arith) in
    let emptied : slot_at s b.mask base q ≡ empty_slot = flushed ∙ ground arith in
    let turn = slot_index-turn base q v.ring in
    let there : is_empty (s (slot_index b.mask seq)).state ≡ true =
      ap (λ i. is_empty (s i).state) turn ∙ ap (λ t. is_empty t.state) emptied in
    let ahead : wrapping_sub seq highest ≡ o + 1 = omega (arith, v.span, v.base_lt, v.small) in
    let whole =
      insert-overflow v o dat now (omega arith) (omega (arith, v.small))
      ∙ ap (λ t. overflow b base highest t seq dat now) adv
      ∙ overflow-keep b base highest a seq dat now keep
      ∙ place-empty fb highest seq dat now (record no_outcome { overflow_flushed = f }) there
      ∙ extend-forward (store fb seq dat now) highest seq now (o + 1)
          (record no_outcome { overflow_flushed = f }) ahead (omega arith)
          (omega (arith, v.small)) in
    rw whole (
      ap (λ i. (mark_gaps (o + 1) 1 highest seq b.mask now (store fb seq dat now).slots 0).0 i) turn
          ∙ becomes v.ring v.small base highest now q (omega (arith, v.span, v.base_lt))
              (omega arith) (o + 1) 1 0 (store fb seq dat now).slots 0 (omega arith) (omega arith)
              (omega arith)
              (ap (λ i. ((store fb seq dat now).slots i).seq) (sym turn)
                ∙ ap (λ t. t.seq) (update_self s (slot_index b.mask seq) _)),
      refl,
      refl,
      refl,
      refl,
    )
