-- ===== src/Bonding/Refine.antt =====
-- The merger against an abstract one, which remembers what it has emitted by the distance behind the
-- highest number.
pub mod Ahead
use native.Mathlib.Decide.{ℕ_discrete, dec_lt}
use bilbycast_rist.Prelude.{
  ℕ, ◌-◌, ◌%◌, ◌^◌, ◌≤◌, ◌<◌, ◌≡◌, ◌⊎◌, ◌∙◌, refl, ap, sym, subst, arith, Bool, true, false,
  if◌then◌else◌, ltb, leb, ◌==◌, ◌||◌, ◌&&◌, not, wrapping_add, wrapping_sub, ne→not_eq, inl, inr,
  Bool-cases, lt→ltb, Option, none, some, List, ==_self,
}
use bilbycast_rist.Prelude.Int.{signed16, is_zero, positive16, not_positive16}
use bilbycast_rist.Bonding.{
  BondingMerger, window_size, mark_seq, is_seq_marked, advance_window, process_after, process_at,
  process, emit, drop_duplicate, drop_late,
}
use bilbycast_rist.Bonding.Bitmap.{mark_seq-marked}
use bilbycast_rist.Bonding.Window.{advance_window-marked, empty_unmarked}
pub use bilbycast_rist.Bonding.Refine.Ahead.{Emitted, nothing, emit_once, Refines}
use bilbycast_rist.Bonding.Refine.Ahead.{
  emit_once_after, Implements, mark_distance, by_equations, first, process_ahead, emit_ahead,
  behind,
}

ahead :
    (m : BondingMerger) (h seq : ℕ) (seen : ℕ → Bool) (payload : List ℕ)
    → seq < 2 ^ 16
    → Refines (some h) m.bitmap (behind h seen)
    → 0 < wrapping_sub seq h
    → wrapping_sub seq h < 2 ^ 15
    → Implements (process_after m h seq payload) payload (emit_once (behind h seen) seq)
ahead m h seq seen payload hs r lo hi =
    let adv = wrapping_sub seq h in
    let cleared = advance_window m.bitmap h adv in
    let new_highest : wrapping_add h adv ≡ seq = omega (arith, r.1) in
    let at_zero : wrapping_sub seq 0 ≡ seq = omega arith in
    by_equations _ _ payload _ _ (process_ahead m h seq payload lo hi) (emit_ahead h seq seen lo hi)
      (
        (
          refl,
          hs,
          λ d hd.
              ap (λ (k : ℕ). is_seq_marked (mark_seq cleared k) (wrapping_sub seq d)) (sym at_zero)
              ∙ mark_distance cleared seq 0 d hs (omega arith) hd
              ∙ ap (λ (k : ℕ). d == 0 || is_seq_marked cleared (wrapping_sub k d)) (sym new_highest)
              ∙ ap (λ t. d == 0 || t) (advance_window-marked m.bitmap h adv d r.1 lo hi hd)
              ∙ ap (λ t. d == 0 || (leb adv d && t)) (r.2 (d - adv) (omega (arith, hd))),
          refl,
        ),
        refl,
      )

process_same :
    (m : BondingMerger) (h : ℕ) (payload : List ℕ)
    → h < 2 ^ 16
    → process_after m h h payload ≡ drop_duplicate m
unfolding process_after
process_same m h payload hh =
    let zero_apart : wrapping_sub h h ≡ 0 = omega arith in rw zero_apart refl

-- A number that is not ahead, where the abstract merger keeps it back.
emit_back :
    (h seq : ℕ) (seen : ℕ → Bool)
    → (wrapping_sub seq h ≡ 0) ⊎ (2 ^ 15 ≤ wrapping_sub seq h)
    → (ltb (wrapping_sub h seq) window_size && not (seen (wrapping_sub h seq))) ≡ false
    → emit_once_after h seen seq ≡ (behind h seen, false)
emit_back h seq seen q e =
    let back : (ltb 0 (wrapping_sub seq h) && ltb (wrapping_sub seq h) (2 ^ 15)) ≡ false =
      ground (arith, q) in
    rw (back, e) refl

emit_gap :
    (h seq : ℕ) (seen : ℕ → Bool)
    → 2 ^ 15 ≤ wrapping_sub seq h
    → (ltb (wrapping_sub h seq) window_size && not (seen (wrapping_sub h seq))) ≡ true
    → emit_once_after h seen seq ≡ (behind h (λ d. d == wrapping_sub h seq || seen d), true)
emit_gap h seq seen q e =
    let back : (ltb 0 (wrapping_sub seq h) && ltb (wrapping_sub seq h) (2 ^ 15)) ≡ false =
      ground (arith, q) in
    rw (back, e) refl

process_late :
    (m : BondingMerger) (h seq : ℕ) (payload : List ℕ)
    → 2 ^ 15 ≤ wrapping_sub seq h
    → process_after m h seq payload ≡ (
        if leb window_size (2 ^ 16 - wrapping_sub seq h)
        then drop_late m
        else if is_seq_marked m.bitmap seq
        then drop_duplicate m
        else emit m (mark_seq m.bitmap seq) (some h) payload)
unfolding process_after
process_late m h seq payload lo =
    let far : is_zero (signed16 (wrapping_sub seq h)) ≡ false = ground (arith, lo) in
    rw (not_positive16 (wrapping_sub seq h) lo, far) refl

duplicate :
    (m : BondingMerger) (h : ℕ) (seen : ℕ → Bool) (payload : List ℕ)
    → m.highest_seq ≡ some h
    → Refines (some h) m.bitmap (behind h seen)
    → Implements (process_after m h h payload) payload (emit_once (behind h seen) h)
duplicate m h seen payload e r =
    let zero_apart : wrapping_sub h h ≡ 0 = omega (arith, r.1) in
    let known : (ltb (wrapping_sub h h) window_size && not (seen (wrapping_sub h h))) ≡ false =
      ap (λ (k : ℕ). ltb k window_size && not (seen k)) zero_apart ∙ ap (λ b. true && not b) r.3 in
    by_equations _ _ payload _ _ (process_same m h payload r.1)
      (emit_back h h seen (inl zero_apart) known) ((e, r.1, r.2, r.3), refl)

late :
    (m : BondingMerger) (h seq : ℕ) (seen : ℕ → Bool) (payload : List ℕ)
    → seq < 2 ^ 16
    → m.highest_seq ≡ some h
    → Refines (some h) m.bitmap (behind h seen)
    → 2 ^ 15 ≤ wrapping_sub seq h
    → Implements (process_after m h seq payload) payload (emit_once (behind h seen) seq)
late m h seq seen payload hs e r lo =
    let back = wrapping_sub h seq in
    let distance : 2 ^ 16 - wrapping_sub seq h ≡ back = omega (arith, r.1) in
    let self : wrapping_sub h back ≡ seq = omega (arith, r.1) in
    let code = process_late m h seq payload lo in
    elim (dec_lt back window_size) [
      | no q ↦
          let outside : leb window_size (2 ^ 16 - wrapping_sub seq h) ≡ true =
            ground (arith, q, distance) in
          let kept : (ltb back window_size && not (seen back)) ≡ false = ground (arith, q) in
          by_equations _ (drop_late m) payload _ _ (code ∙ rw outside refl)
            (emit_back h seq seen (inr lo) kept) ((e, r.1, r.2, r.3), refl)
      | yes p ↦
          let inside : leb window_size (2 ^ 16 - wrapping_sub seq h) ≡ false =
            ground (arith, p, distance) in
          let marked : is_seq_marked m.bitmap seq ≡ seen back =
            ap (is_seq_marked m.bitmap) (sym self) ∙ r.2 back p in
          elim (Bool-cases (seen back)) [
            | inl b ↦
                by_equations _ (drop_duplicate m) payload _ _ (code ∙ rw (inside, marked, b) refl)
                  (emit_back h seq seen (inr lo) (rw b (and_false (ltb back window_size))))
                  ((e, r.1, r.2, r.3), refl)
            | inr b ↦
                by_equations _ (emit m (mark_seq m.bitmap seq) (some h) payload) payload _ _
                  (code ∙ rw (inside, marked, b) refl)
                  (emit_gap h seq seen lo (rw b (ground (arith, p))))
                  (
                    (
                      refl,
                      r.1,
                      λ d hd.
                          ap (λ (k : ℕ). is_seq_marked (mark_seq m.bitmap k) (wrapping_sub h d))
                            (sym self)
                          ∙ mark_distance m.bitmap h back d r.1 p hd
                          ∙ ap (λ t. d == back || t) (r.2 d hd),
                      rw r.3 (or_true (0 == back)),
                    ),
                    refl,
                  )
          ]
    ]
  where
    and_false : (b : Bool) → (b && false) ≡ false
    and_false true = refl
    and_false false = refl

    or_true : (b : Bool) → (b || true) ≡ true
    or_true true = refl
    or_true false = refl

after_first :
    (m : BondingMerger) (h seq : ℕ) (seen : ℕ → Bool) (payload : List ℕ)
    → seq < 2 ^ 16
    → m.highest_seq ≡ some h
    → Refines (some h) m.bitmap (behind h seen)
    → Implements (process_after m h seq payload) payload (emit_once (behind h seen) seq)
after_first m h seq seen payload hs e r = elim (ℕ_discrete (wrapping_sub seq h) 0) [
  | yes z ↦
      let same : seq ≡ h = omega (arith, r.1, z) in
      subst
        (λ (k : ℕ). Implements (process_after m h k payload) payload (emit_once (behind h seen) k))
        (sym same) (duplicate m h seen payload e r)
  | no q ↦ elim (dec_lt (wrapping_sub seq h) (2 ^ 15)) [
    | yes p ↦ ahead m h seq seen payload hs r (omega (arith, q)) p
    | no p ↦ late m h seq seen payload hs e r (omega (arith, p))
  ]
]

-- If the state stands for an abstract one, any packet, from either path, ahead or behind, is
-- emitted or dropped as the abstract merger says, and the new state stands for the abstract one.
pub process-Refines :
    (m : BondingMerger) (a : Emitted) (seq : ℕ) (payload : List ℕ)
    → Refines m.highest_seq m.bitmap a
    → seq < 2 ^ 16
    → Refines
        (process m seq payload).0.highest_seq
        (process m seq payload).0.bitmap
        (emit_once a seq).0
      × ((process m seq payload).1 ≡ (if (emit_once a seq).1 then some payload else none))
unfolding process
process-Refines m nothing seq payload r hs =
    subst (λ t. Implements (process_at t m seq payload) payload (emit_once nothing seq)) (sym r)
      (first m seq payload hs)
process-Refines m (behind h seen) seq payload r hs =
    subst (λ t. Implements (process_at t m seq payload) payload (emit_once (behind h seen) seq))
      (sym r.0) (after_first m h seq seen payload hs r.0 (refl, r.1, r.2, r.3))
