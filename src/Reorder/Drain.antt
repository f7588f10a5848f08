-- ===== src/Reorder/Drain.antt =====
-- `drain_ready` against a plain description of what is due: it ends, and it releases the longest
-- run of contents from the base of the window whose hold time is over.
pub mod Released
use native.Mathlib.Decide.{dec_lt}
use bilbycast_rist.Prelude.{
  ◌∙◌, ℕ, zero, suc, ◌+◌, ◌-◌, ◌^◌, ◌≤◌, ◌<◌, ◌≡◌, ap, ap₂, refl, arith, some, none, Bool, true,
  false, wrapping_add, wrapping_sub, update, if◌then◌else◌, ltb, leb, sym, subst, List, [], ◌∷◌,
  ◌++◌, append_assoc, append-nil, Bool-cases, length, inl, inr, lt→ltb, le→not_ltb,
}
use bilbycast_rist.Prelude.Int.{signed16, is_positive, positive16, not_positive16_cases}
use bilbycast_rist.Ring.{slot_index}
use bilbycast_rist.Reorder.{
  ReorderBuffer, Slot, SlotState, DrainItem, delivered, lost, empty, gap, filled, is_empty,
  drain_step, drain_at, drain_slot, drain_loop, drain_ready,
}
use bilbycast_rist.Reorder.Window.{
  Window, content, slot_at, slot_at-update_self, slot_at-update_ne, slot_at-from, slot_at-from_turn,
}
use bilbycast_rist.Reorder.Drain.Released.{
  released, head, held_since, due, zeroth, first, advanced-content, advanced-Window, drain_step-due,
  drain_step-early, item, advanced, released-ext,
}

-- `b'` is `b` after `k` positions of a window of `n` have been released.
pub record Drained (b b' : ReorderBuffer) (base highest n k now : ℕ) : Type 0 where
  pub within : k ≤ n
  pub window : Window b' (wrapping_add base k) highest (n - k)
  pub kept : (y : ℕ) → k + y < n → content b' (wrapping_add base k) y ≡ content b base (k + y)
  pub stops : k < n → due b.buffer_time now (content b base k) ≡ false
  pub same_time : b'.buffer_time ≡ b.buffer_time

pub drain_step-empty :
    {b : ReorderBuffer} {base highest : ℕ} (now : ℕ)
    → Window b base highest 0
    → drain_step b now ≡ none
unfolding drain_step
drain_step-empty {b} {base} {highest} now v =
    let past : is_positive (signed16 (wrapping_sub base highest)) ≡ true =
      positive16 (wrapping_sub base highest) (omega (arith, v.span, v.base_lt))
        (omega (arith, v.span, v.base_lt)) in
    ap₂ (λ p q. drain_at p q b now) v.base_is v.highest_is ∙ rw past refl

pub loop-stop :
    (fuel : ℕ) (b : ReorderBuffer) (now : ℕ) (out : List DrainItem)
    → drain_step b now ≡ none
    → drain_loop (suc fuel) b now out ≡ some (b, out)
unfolding drain_loop
loop-stop fuel b now out e = rw (e, drain_loop) refl

loop-go :
    (fuel : ℕ) (b b' : ReorderBuffer) (i : DrainItem) (now : ℕ) (out : List DrainItem)
    → drain_step b now ≡ some (b', i)
    → drain_loop (suc fuel) b now out ≡ drain_loop fuel b' now (out ++ (i ∷ []))
unfolding drain_loop
loop-go fuel b b' i now out e = rw (e, drain_loop) refl

released-early :
    (buffer_time now : ℕ) (c : ℕ → SlotState) (base n i : ℕ)
    → due buffer_time now (c i) ≡ false
    → released buffer_time now c base (suc n) i ≡ []
unfolding released
released-early buffer_time now c base n i e = rw e refl

released-due :
    (buffer_time now : ℕ) (c : ℕ → SlotState) (base n i : ℕ)
    → due buffer_time now (c i) ≡ true
    → released buffer_time now c base (suc n) i
      ≡ item (wrapping_add base i) (c i) ∷ released buffer_time now c base n (i + 1)
unfolding released
released-due buffer_time now c base n i e = rw e refl

Drained-none :
    {b : ReorderBuffer} {base highest n : ℕ} (now : ℕ)
    → Window b base highest n
    → (0 < n → due b.buffer_time now (content b base 0) ≡ false)
    → Drained b b base highest n 0 now
Drained-none {b} {base} {highest} {n} now v early =
    let e : wrapping_add base 0 ≡ base = omega (arith, v.base_lt) in
    record {
      within = omega arith;
      window =
          subst (λ m. Window b (wrapping_add base 0) highest m) {x = n} {y = n - 0} (omega arith)
            (subst (λ t. Window b t highest n) (sym e) v);
      kept =
          λ y hy. ap (λ s. content b s y) e ∙ ap (content b base) {x = y} {y = 0 + y} (omega arith);
      stops = early;
      same_time = refl;
    }

advanced-next :
    {b : ReorderBuffer} {base highest n : ℕ} (v : Window b base highest (suc n)) (y : ℕ)
    → y < n
    → content (advanced b base) (wrapping_add base 1) y ≡ content b base (suc y)
unfolding advanced
advanced-next {b} {base} v y hy =
    ap (λ s. s.state) (advanced-content v y (omega (arith, v.fits)))
    ∙ rw (lt→ltb (y + 1) b.capacity (omega (arith, v.fits)))
        (ap (content b base) {x = y + 1} {y = suc y} (omega arith))

Drained-suc :
    {b : ReorderBuffer} {base highest n : ℕ} (now k : ℕ) {b' : ReorderBuffer}
    → Window b base highest (suc n)
    → Drained (advanced b base) b' (wrapping_add base 1) highest n k now
    → Drained b b' base highest (suc n) (suc k) now
unfolding advanced
Drained-suc {b} {base} {highest} {n} now k {b'} v d =
    let e : wrapping_add (wrapping_add base 1) k ≡ wrapping_add base (suc k) = omega arith in
    let inner = advanced-next v in
    record {
      within = omega (arith, d.within);
      window =
          subst (λ m. Window b' (wrapping_add base (suc k)) highest m) {x = n - k}
            {y = suc n - suc k} (omega arith) (subst (λ t. Window b' t highest (n - k)) e d.window);
      kept = λ y hy.
          ap (λ s. content b' s y) (sym e)
          ∙ d.kept y (omega arith)
          ∙ inner (k + y) (omega arith)
          ∙ ap (content b base) {x = suc (k + y)} {y = suc k + y} (omega arith);
      stops =
          λ hk. ap (due b.buffer_time now) (sym (inner k (omega arith))) ∙ d.stops (omega arith);
      same_time = d.same_time;
    }

abbrev Drains : ReorderBuffer → ℕ → ℕ → ℕ → ℕ → ℕ → List DrainItem → Type 0
Drains b base highest n fuel now out =
    (b' : ReorderBuffer) × (drain_loop fuel b now out
      ≡ some (b', out ++ released b.buffer_time now (content b base) base n 0))
    × Drained b b' base highest n (length (released b.buffer_time now (content b base) base n 0))
        now

drain_loop-Drains :
    (n fuel : ℕ) {b : ReorderBuffer} {base highest : ℕ} (now : ℕ) (out : List DrainItem)
    → Window b base highest n
    → n < fuel
    → Drains b base highest n fuel now out
unfolding advanced
drain_loop-Drains n zero now out v h = absurd (omega arith)
drain_loop-Drains zero (suc fuel) {b} {base} {highest} now out v h =
    let nothing : released b.buffer_time now (content b base) base 0 0 ≡ [] =
      unfold released in refl in
    rw nothing (
      b,
      loop-stop fuel b now out (drain_step-empty now v)
          ∙ ap (λ l. some (b, l)) (sym (append-nil out)),
      Drained-none now v (λ p. absurd (omega arith)),
    )
drain_loop-Drains (suc n) (suc fuel) {b} {base} {highest} now out v h =
    elim (Bool-cases (due b.buffer_time now (content b base 0))) [
      | inl ready ↦
          let s = content b base 0 in
          let head_is : (head b base).state ≡ s = ap (λ t. t.state) (sym (first v)) in
          let rest =
            drain_loop-Drains n fuel {b = advanced b base} now (out ++ (item base s ∷ []))
              (advanced-Window v) (omega arith) in
          let tail : released b.buffer_time now (content (advanced b base) (wrapping_add base 1))
                (wrapping_add base 1) n 0
              ≡ released b.buffer_time now (content b base) base n 1 =
            released-ext b.buffer_time now (content b base)
              (content (advanced b base) (wrapping_add base 1)) base (wrapping_add base 1) n 1 0
              (λ y hy.
                ap (content (advanced b base) (wrapping_add base 1)) {x = 0 + y} {y = y}
                  (omega arith)
                ∙ advanced-next v y hy
                ∙ ap (content b base) {x = suc y} {y = 1 + y} (omega arith))
              (λ y. omega arith) in
          let whole : released b.buffer_time now (content b base) base (suc n) 0
              ≡ item base s ∷ released b.buffer_time now (content b base) base n 1 =
            released-due b.buffer_time now (content b base) base n 0 ready ∙ rw (zeroth v) refl in
          rw (whole, ← tail)
            (
              rest.0,
              loop-go fuel b (advanced b base) (item base s) now out
                    (drain_step-due v now s head_is (v.held 0 (omega arith)).1 ready)
                  ∙ rest.1
                  ∙ ap (λ l. some (rest.0, l)) (append_assoc out (item base s ∷ []) _),
              Drained-suc now _ v rest.2,
            )
      | inr early ↦ rw (released-early b.buffer_time now (content b base) base n 0 early) (
        b,
        loop-stop fuel b now out
              (drain_step-early v now (content b base 0) (ap (λ t. t.state) (sym (first v))) early)
            ∙ ap (λ l. some (b, l)) (sym (append-nil out)),
        Drained-none now v (λ p. early),
      )
    ]

-- `drain_ready` on a window of `n` numbers ends, and appends to `out` exactly what is due: from
-- the base on, in sequence order, each filled slot whose hold time is over as a delivery with its
-- own number, data and arrival, and each gap whose time is over as a loss, up to the first that is
-- not yet due. The base moves on by as many places, the other contents stay, and the invariant
-- holds again.
pub drain_ready-Drained :
    {b : ReorderBuffer} {base highest n : ℕ} (now : ℕ) (out : List DrainItem)
    → Window b base highest n
    → let items = released b.buffer_time now (content b base) base n 0 in
      (b' : ReorderBuffer) × (drain_ready b now out ≡ some (b', out ++ items))
      × Drained b b' base highest n (length items) now
unfolding drain_ready
drain_ready-Drained {n = n} now out v =
    drain_loop-Drains n (2 ^ 15 + 2) now out v (omega (arith, v.fits, v.small))
