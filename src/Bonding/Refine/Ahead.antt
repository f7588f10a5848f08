-- ===== src/Bonding/Refine/Ahead.antt =====
-- The abstract merger, and the packets ahead of the highest number.
use native.Mathlib.Decide.{ℕ_discrete}
use bilbycast_rist.Prelude.{
  ℕ, ◌-◌, ◌%◌, ◌^◌, ◌<◌, ◌≡◌, ◌∙◌, refl, ap, sym, subst, arith, Bool, true, false, if◌then◌else◌,
  ltb, leb, ◌==◌, ◌||◌, ◌&&◌, not, wrapping_sub, ne→not_eq, lt→ltb, Option, none, some, List,
  ==_self,
}
use bilbycast_rist.Prelude.Int.{positive16}
use bilbycast_rist.Bonding.{
  BondingMerger, window_size, mark_seq, is_seq_marked, advance_window, process_after, process_at,
  emit,
}
use bilbycast_rist.Bonding.Bitmap.{mark_seq-marked}
use bilbycast_rist.Bonding.Window.{empty_unmarked}

-- What has been emitted: nothing, or the highest number and the distances behind it.
pub data Emitted : Type 0 where
  nothing : Emitted
  behind : ℕ → (ℕ → Bool) → Emitted

-- A packet is emitted if it is ahead of the highest number, or within the window behind it and not
-- yet emitted.
abbrev pub emit_once_after : ℕ → (ℕ → Bool) → ℕ → Emitted × Bool
emit_once_after h seen seq =
    let ahead = wrapping_sub seq h in
    let back = wrapping_sub h seq in
    if ltb 0 ahead && ltb ahead (2 ^ 15)
    then (behind seq (λ d. d == 0 || (leb ahead d && seen (d - ahead))), true)
    else if ltb back window_size && not (seen back)
    then (behind h (λ d. d == back || seen d), true)
    else (behind h seen, false)

abbrev pub emit_once : Emitted → ℕ → Emitted × Bool
emit_once nothing seq = (behind seq (λ d. d == 0), true)
emit_once (behind h seen) seq = emit_once_after h seen seq

-- The merger's state stands for the abstract one.
abbrev pub Refines : Option ℕ → (ℕ → ℕ) → Emitted → Type 0
Refines highest bitmap nothing = highest ≡ none
Refines highest bitmap (behind h seen) =
    (highest ≡ some h)
    × (h < 2 ^ 16)
    × ((d : ℕ) → d < window_size → is_seq_marked bitmap (wrapping_sub h d) ≡ seen d)
    × (seen 0 ≡ true)

abbrev pub Implements : BondingMerger × Option (List ℕ) → List ℕ → Emitted × Bool → Type 0
Implements r payload spec =
    Refines r.0.highest_seq r.0.bitmap spec.0 × (r.1 ≡ (if spec.1 then some payload else none))

-- The marks of a number at distance `b`, seen from distance `d` of one window.
pub mark_distance :
    (f : ℕ → ℕ) (h b d : ℕ)
    → h < 2 ^ 16
    → b < window_size
    → d < window_size
    → is_seq_marked (mark_seq f (wrapping_sub h b)) (wrapping_sub h d)
      ≡ (d == b || is_seq_marked f (wrapping_sub h d))
mark_distance f h b d hh hb hd =
    mark_seq-marked f (wrapping_sub h b) (wrapping_sub h d)
    ∙ ap (λ t. t || is_seq_marked f (wrapping_sub h d)) same
  where
    same : (wrapping_sub h d % window_size == wrapping_sub h b % window_size) ≡ (d == b)
    same = elim (ℕ_discrete d b) [
      | yes e ↦
          ap (λ (k : ℕ). wrapping_sub h k % window_size == wrapping_sub h b % window_size) e
          ∙ ==_self (wrapping_sub h b % window_size)
          ∙ sym (ap (λ (k : ℕ). k == b) e ∙ ==_self b)
      | no q ↦
          ne→not_eq (wrapping_sub h d % window_size) (wrapping_sub h b % window_size)
            (λ e. q (omega (arith, e)))
          ∙ sym (ne→not_eq d b q)
    ]

pub by_equations :
    (r r' : BondingMerger × Option (List ℕ)) (payload : List ℕ) (a a' : Emitted × Bool)
    → r ≡ r'
    → a ≡ a'
    → Implements r' payload a'
    → Implements r payload a
by_equations r r' payload a a' e f i =
    subst (λ t. Implements t payload a) (sym e) (subst (λ t. Implements r' payload t) (sym f) i)

pub first :
    (m : BondingMerger) (seq : ℕ) (payload : List ℕ)
    → seq < 2 ^ 16
    → Implements (process_at none m seq payload) payload (emit_once nothing seq)
first m seq payload hs =
    let at_zero : wrapping_sub seq 0 ≡ seq = omega arith in
    (
      (
        refl,
        hs,
        λ d hd.
            ap (λ (k : ℕ). is_seq_marked (mark_seq (λ _. 0) k) (wrapping_sub seq d)) (sym at_zero)
            ∙ mark_distance (λ _. 0) seq 0 d hs (omega arith) hd
            ∙ ap (λ t. d == 0 || t) (empty_unmarked (wrapping_sub seq d))
            ∙ or_false (d == 0),
        refl,
      ),
      refl,
    )
  where
    or_false : (b : Bool) → (b || false) ≡ b
    or_false true = refl
    or_false false = refl

pub process_ahead :
    (m : BondingMerger) (h seq : ℕ) (payload : List ℕ)
    → 0 < wrapping_sub seq h
    → wrapping_sub seq h < 2 ^ 15
    → process_after m h seq payload
      ≡ emit m (mark_seq (advance_window m.bitmap h (wrapping_sub seq h)) seq) (some seq) payload
unfolding process_after
process_ahead m h seq payload lo hi = rw (positive16 (wrapping_sub seq h) lo hi) refl

pub emit_ahead :
    (h seq : ℕ) (seen : ℕ → Bool)
    → 0 < wrapping_sub seq h
    → wrapping_sub seq h < 2 ^ 15
    → emit_once_after h seen seq ≡ (
      behind seq (λ d. d == 0 || (leb (wrapping_sub seq h) d && seen (d - wrapping_sub seq h))),
      true,
    )
emit_ahead h seq seen lo hi =
    rw (lt→ltb 0 (wrapping_sub seq h) lo, lt→ltb (wrapping_sub seq h) (2 ^ 15) hi) refl
