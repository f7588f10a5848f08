-- ===== src/Reorder/Deadline.antt =====
-- `next_drain_time`: the deadline that the delivery thread sleeps on.
use bilbycast_rist.Prelude.{
  ◌∙◌, ℕ, suc, ◌+◌, ◌^◌, ◌≤◌, ◌≡◌, ◌≢◌, ◌↔◌, ap, refl, arith, some, none, true, false, Bool-cases,
  inl, inr, sym, [], ne→not_eq,
}
use bilbycast_rist.Ring.{slot_index}
use bilbycast_rist.Reorder.{
  ReorderBuffer, SlotState, empty, gap, filled, is_empty, drain_ready, drain_step, drain_time_at,
  next_drain_time,
}
use bilbycast_rist.Reorder.Window.{Window, content}
use bilbycast_rist.Reorder.Drain.{loop-stop, drain_step-empty}
use bilbycast_rist.Reorder.Drain.Released.{
  drain_step-due, drain_step-early, head, head-seq, first, held_since, due,
}

module _ {b : ReorderBuffer} {base highest n : ℕ} (v : Window b base highest (suc n)) where
  deadline-of :
      (now : ℕ) (s : SlotState)
      → (head b base).state ≡ s
      → is_empty s ≡ false
      → next_drain_time b now ≡ some (held_since s + b.buffer_time)
  unfolding next_drain_time
  deadline-of now empty e f = cc
  deadline-of now (gap t) e f =
      ap (λ p. drain_time_at p b now) v.base_is ∙ ground (arith, head-seq v, e)
  deadline-of now (filled d t) e f =
      ap (λ p. drain_time_at p b now) v.base_is ∙ ground (arith, head-seq v, e)

  due-deadline :
      (now : ℕ) (s : SlotState)
      → is_empty s ≡ false
      → held_since s ≤ now
      → (due b.buffer_time now s ≡ true) ↔ (held_since s + b.buffer_time ≤ now)
  due-deadline now empty f past = cc
  due-deadline now (gap t) f past = ground arith
  due-deadline now (filled d t) f past = ground arith

-- With something in the window, `next_drain_time` does not depend on the clock, and it is the exact
-- time at which a round of `drain_ready` begins to release: not before it, and always from it on,
-- for any clock that has not run back behind the arrival.
pub next_drain_time-exact :
    {b : ReorderBuffer} {base highest n : ℕ} (now later : ℕ)
    → Window b base highest (suc n)
    → held_since (content b base 0) ≤ later
    → (t : ℕ) × (next_drain_time b now ≡ some t) × ((drain_step b later ≢ none) ↔ (t ≤ later))
next_drain_time-exact {b} {base} now later v past =
    let s = content b base 0 in
    let filled_head = (v.held 0 (omega arith)).1 in
    let head_is : (head b base).state ≡ s = ap (λ t. t.state) (sym (first v)) in
    (
      held_since s + b.buffer_time,
      deadline-of v now s head_is filled_head,
      (
        λ h. elim (Bool-cases (due b.buffer_time later s)) [
          | inl ready ↦ (due-deadline v later s filled_head past).0 ready
          | inr early ↦ absurd (h (drain_step-early v later s head_is early))
        ],
        λ le none_left. cc (
          none_left,
          drain_step-due v later s head_is filled_head
              ((due-deadline v later s filled_head past).1 le),
        ),
      ),
    )

-- Once everything is drained, and the slot of the next number does not bear that number,
-- `next_drain_time` answers the present instant, whatever it is, though no round of `drain_ready`
-- releases anything: the delivery thread, which sleeps only until a later deadline, does not sleep.
pub next_drain_time-idle :
    {b : ReorderBuffer} {base highest : ℕ} (now : ℕ)
    → Window b base highest 0
    → (b.slots (slot_index b.mask base)).seq ≢ base
    → (next_drain_time b now ≡ some now) × (drain_ready b now [] ≡ some (b, []))
unfolding next_drain_time drain_ready
next_drain_time-idle {b} {base} now v stale = (
  ap (λ p. drain_time_at p b now) v.base_is ∙ rw (ne→not_eq _ _ stale) refl,
  loop-stop (2 ^ 15 + 1) b now [] (drain_step-empty now v),
)
