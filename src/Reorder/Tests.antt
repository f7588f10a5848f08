-- ===== src/Reorder/Tests.antt =====
-- Runs of the reorder buffer, after the unit tests of rist-protocol/src/protocol/reorder.rs.
use bilbycast_rist.Prelude.{
  ℕ, ◌+◌, ◌-◌, ◌≤◌, ◌≡◌, ◌≢◌, ◌↔◌, refl, ap, sym, subst, arith, Option, none, some, List, [], ◌∷◌,
  ◌++◌, false, next_power_of_two, wrapping_add, length,
}
use bilbycast_rist.Ring.{slot_index}
use bilbycast_rist.Reorder.{
  ReorderBuffer, new, insert, drain_step, drain_ready, delivered, lost, gap, DrainItem,
  next_drain_time,
}
use bilbycast_rist.Reorder.Window.{Window, content}
use bilbycast_rist.Reorder.Admit.{insert-Admits, Admits, admit_outcome}
use bilbycast_rist.Reorder.Drain.{drain_ready-Drained, Drained}
use bilbycast_rist.Reorder.Drain.Released.{released}
use bilbycast_rist.Reorder.Deadline.{next_drain_time-exact, next_drain_time-idle}
use bilbycast_rist.Reorder.Overflow.{new-Anchored}
use bilbycast_rist.Reorder.Flush.{insert-Flushed, Flushed}
use bilbycast_rist.Reorder.Displaced.{insert-displaces}

-- Packet 10 arrives at 0, and 12 at 5.
abbrev pub one : ReorderBuffer
one = (insert (new 80) 10 (1 ∷ []) 0).0

pub one-Window : Window one 10 10 1
one-Window = (new-Anchored 80 10 (1 ∷ []) 0 (omega arith)).window

abbrev pub two : ReorderBuffer
two = (insert one (wrapping_add 10 2) (3 ∷ []) 5).0

insert-Admits_example :
    Admits one two 10 1 2 (3 ∷ []) 5
    × ((insert one (wrapping_add 10 2) (3 ∷ []) 5).1 ≡ admit_outcome (content one 10) 1 2)
unfolding insert new
insert-Admits_example = insert-Admits one-Window 2 (3 ∷ []) 5 (omega arith)

pub two-Window : Window two 10 12 3
unfolding insert new next_power_of_two
two-Window = (insert-Admits one-Window 2 (3 ∷ []) 5 (omega arith)).0.window

drain_ready-Drained_example :
    (b' : ReorderBuffer) × (drain_ready two 200 []
      ≡ some (b', [] ++ released two.buffer_time 200 (content two 10) 10 3 0))
    × Drained two b' 10 12 3 (length (released two.buffer_time 200 (content two 10) 10 3 0)) 200
drain_ready-Drained_example = drain_ready-Drained 200 [] two-Window

-- Everything drained: 10 and 12 are delivered, and 11 is lost.
abbrev items : List DrainItem
items = delivered (1 ∷ []) 10 0 ∷ lost ∷ delivered (3 ∷ []) 12 5 ∷ []

abbrev buffer_of : Option (ReorderBuffer × List DrainItem) → ReorderBuffer
buffer_of none = two
buffer_of (some (b, out)) = b

abbrev drained : ReorderBuffer
drained = buffer_of (drain_ready two 200 [])

gap_times_out : drain_ready two 200 [] ≡ some (drained, items)
unfolding drain_ready drain_step insert new next_power_of_two
gap_times_out = refl

drained-Window : Window drained 13 12 0
unfolding insert new released next_power_of_two
drained-Window =
    let (b', ran, after) = drain_ready-Drained 200 [] two-Window in
    subst (λ t. Window t 13 12 0) (sym (ap buffer_of ran)) after.window

insert-displaces_example :
    ((insert drained (wrapping_add 13 (3 + drained.capacity)) (9 ∷ []) 300).0.slots
        (slot_index drained.mask (wrapping_add 13 (3 + drained.capacity)))
      ≡ record { seq = wrapping_add 13 3; state = gap 300 })
    × ((insert drained (wrapping_add 13 (3 + drained.capacity)) (9 ∷ []) 300).0.base_seq
        ≡ some (wrapping_add 13 (3 + 1)))
    × ((insert drained (wrapping_add 13 (3 + drained.capacity)) (9 ∷ []) 300).0.highest_seq
        ≡ some (wrapping_add 13 (3 + drained.capacity)))
    × ((insert drained (wrapping_add 13 (3 + drained.capacity)) (9 ∷ []) 300).1.stale ≡ false)
    × ((insert drained (wrapping_add 13 (3 + drained.capacity)) (9 ∷ []) 300).1.duplicate ≡ false)
insert-displaces_example =
    insert-displaces 3 (9 ∷ []) 300 drained-Window (omega (arith, drained-Window.roomy))

drained-stale : (drained.slots (slot_index drained.mask 13)).seq ≢ 13
unfolding drain_ready drain_step insert new next_power_of_two
drained-stale e = absurd (omega (arith, e))

next_drain_time-idle_example :
    (next_drain_time drained 300 ≡ some 300) × (drain_ready drained 300 [] ≡ some (drained, []))
next_drain_time-idle_example = next_drain_time-idle 300 drained-Window drained-stale

insert-Flushed_example :
    Flushed two
      (insert two (wrapping_add 10 (two.capacity - 1 + 1)) (7 ∷ []) 9).0
      10
      3
      1
      (wrapping_add 10 (two.capacity - 1 + 1))
      (7 ∷ [])
      9
    × ((insert two (wrapping_add 10 (two.capacity - 1 + 1)) (7 ∷ []) 9).1.stale ≡ false)
    × ((insert two (wrapping_add 10 (two.capacity - 1 + 1)) (7 ∷ []) 9).1.duplicate ≡ false)
    × ((insert two (wrapping_add 10 (two.capacity - 1 + 1)) (7 ∷ []) 9).1.new_gaps
        ≡ two.capacity - 1 + 1 - 3)
insert-Flushed_example = insert-Flushed two-Window 1 (7 ∷ []) 9 (omega arith) (omega arith)

next_drain_time-exact_example :
    (t : ℕ) × (next_drain_time one 7 ≡ some t) × ((drain_step one 90 ≢ none) ↔ (t ≤ 90))
unfolding insert new next_power_of_two
next_drain_time-exact_example = next_drain_time-exact 7 90 one-Window (omega arith)
