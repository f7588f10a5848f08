-- ===== src/Bonding/Window.antt =====
-- Advancing the window, by the distance behind the highest number.
use native.Mathlib.Decide.{ℕ_discrete, dec_lt}
use bilbycast_rist.Prelude.{
  ℕ, zero, suc, ◌+◌, ◌-◌, ◌%◌, ◌^◌, ◌≤◌, ◌<◌, ◌≡◌, ◌≢◌, ◌∙◌, refl, ap, sym, subst, arith, Bool,
  true, false, leb, ◌==◌, ◌&&◌, not, wrapping_add, wrapping_sub, ne→not_eq, le→leb,
}
use bilbycast_rist.Prelude.Bits.{digit-zero}
use bilbycast_rist.Bonding.{window_size, is_seq_marked, clear_seq, clear_run, advance_window}
use bilbycast_rist.Bonding.Bitmap.{is_seq_marked_lem, clear_seq-marked}

clear_same :
    (f : ℕ → ℕ) (s x : ℕ)
    → x % window_size ≡ s % window_size
    → is_seq_marked (clear_seq f s) x ≡ false
clear_same f s x e =
    clear_seq-marked f s x ∙ test (x % window_size) (s % window_size) (is_seq_marked f x) e
  where
    test : (a b : ℕ) (c : Bool) → a ≡ b → (not (a == b) && c) ≡ false
    test a b c e = ground (arith, e)

clear_other :
    (f : ℕ → ℕ) (s x : ℕ)
    → x % window_size ≢ s % window_size
    → is_seq_marked (clear_seq f s) x ≡ is_seq_marked f x
clear_other f s x q =
    clear_seq-marked f s x ∙ rw (ne→not_eq (x % window_size) (s % window_size) q) refl

clear_unmarked :
    (f : ℕ → ℕ) (s x : ℕ) → is_seq_marked f x ≡ false → is_seq_marked (clear_seq f s) x ≡ false
clear_unmarked f s x h =
    clear_seq-marked f s x ∙ rw h (and_false (not (x % window_size == s % window_size)))
  where
    and_false : (b : Bool) → (b && false) ≡ false
    and_false true = refl
    and_false false = refl

run_unmarked :
    (n i : ℕ) (f : ℕ → ℕ) (h x : ℕ)
    → is_seq_marked f x ≡ false
    → is_seq_marked (clear_run n i f h) x ≡ false
unfolding clear_run
run_unmarked zero i f h x e = e
run_unmarked (suc n) i f h x e =
    run_unmarked n (i + 1) (clear_seq f (wrapping_add h i)) h x
      (clear_unmarked f (wrapping_add h i) x e)

run_clears :
    (n i : ℕ) (f : ℕ → ℕ) (h x k : ℕ)
    → i ≤ k
    → k < i + n
    → x % window_size ≡ wrapping_add h k % window_size
    → is_seq_marked (clear_run n i f h) x ≡ false
unfolding clear_run
run_clears zero i f h x k lo hi e = absurd (omega arith)
run_clears (suc n) i f h x k lo hi e = elim (ℕ_discrete k i) [
  | yes p ↦ run_unmarked n (i + 1) (clear_seq f (wrapping_add h i)) h x (
      clear_same f (wrapping_add h i) x
        (subst (λ (t : ℕ). x % window_size ≡ wrapping_add h t % window_size) p e))
  | no q ↦ run_clears n (i + 1) (clear_seq f (wrapping_add h i)) h x k (omega arith) (omega arith) e
]

run_keeps :
    (n i : ℕ) (f : ℕ → ℕ) (h x : ℕ)
    → ((k : ℕ) → i ≤ k → k < i + n → x % window_size ≢ wrapping_add h k % window_size)
    → is_seq_marked (clear_run n i f h) x ≡ is_seq_marked f x
unfolding clear_run
run_keeps zero i f h x apart = refl
run_keeps (suc n) i f h x apart =
    run_keeps n (i + 1) (clear_seq f (wrapping_add h i)) h x
      (λ k lo hi. apart k (omega arith) (omega arith))
    ∙ clear_other f (wrapping_add h i) x (apart i (omega arith) (omega arith))

guarded : (d adv : ℕ) (b : Bool) → d < adv → false ≡ (leb adv d && b)
guarded d adv b h = ground (arith, h)

advance_small :
    (f : ℕ → ℕ) (h adv : ℕ) → adv < window_size → advance_window f h adv ≡ clear_run adv 1 f h
unfolding advance_window
advance_small f h adv p = let e : leb window_size adv ≡ false = ground (arith, p) in rw e refl

advance_big : (f : ℕ → ℕ) (h adv : ℕ) → window_size ≤ adv → advance_window f h adv ≡ (λ _. 0)
unfolding advance_window
advance_big f h adv p = rw (le→leb window_size adv p) refl

pub empty_unmarked : (x : ℕ) → is_seq_marked (λ _. 0) x ≡ false
empty_unmarked x =
    is_seq_marked_lem (λ _. 0) x ∙ ap (λ (t : ℕ). not (t == 0)) (digit-zero (x % window_size % 64))

-- After an advance by `adv`, the numbers fewer than `adv` behind the new highest are unmarked, and
-- those further behind, up to the window, are as they were.
pub advance_window-marked :
    (f : ℕ → ℕ) (h adv d : ℕ)
    → h < 2 ^ 16
    → 0 < adv
    → adv < 2 ^ 15
    → d < window_size
    → is_seq_marked (advance_window f h adv) (wrapping_sub (wrapping_add h adv) d)
      ≡ (leb adv d && is_seq_marked f (wrapping_sub h (d - adv)))
advance_window-marked f h adv d hh lo hi hd = elim (dec_lt adv window_size) [
  | yes p ↦ elim (dec_lt d adv) [
    | yes q ↦
        ap (λ g. is_seq_marked g (wrapping_sub (wrapping_add h adv) d)) (advance_small f h adv p)
        ∙ run_clears adv 1 f h (wrapping_sub (wrapping_add h adv) d) (adv - d) (omega arith)
            (omega arith) (omega arith)
        ∙ guarded d adv (is_seq_marked f (wrapping_sub h (d - adv))) q
    | no q ↦
        ap (λ g. is_seq_marked g (wrapping_sub (wrapping_add h adv) d)) (advance_small f h adv p)
        ∙ run_keeps adv 1 f h (wrapping_sub (wrapping_add h adv) d)
            (λ k l u e. absurd (omega (arith, e, l, u, q)))
        ∙ ap (is_seq_marked f) {x = wrapping_sub (wrapping_add h adv) d}
            {y = wrapping_sub h (d - adv)} (omega arith)
        ∙ ap (λ b. b && is_seq_marked f (wrapping_sub h (d - adv)))
            (sym (le→leb adv d (omega arith)))
  ]
  | no p ↦
      ap (λ g. is_seq_marked g (wrapping_sub (wrapping_add h adv) d))
        (advance_big f h adv (omega arith))
      ∙ empty_unmarked (wrapping_sub (wrapping_add h adv) d)
      ∙ guarded d adv (is_seq_marked f (wrapping_sub h (d - adv))) (omega arith)
]
