-- ===== src/Bonding/Bitmap.antt =====
-- The bitmap as a set of residues: what marking and clearing one bit does to every other.
use native.Mathlib.Nat.{pow-suc, one-le-pow}
use native.Mathlib.Decide.{ℕ_discrete}
use bilbycast_rist.Prelude.{
  ℕ, zero, suc, ◌-◌, ◌/◌, ◌%◌, ◌^◌, ◌≤◌, ◌<◌, ◌≡◌, ◌∙◌, refl, ap, sym, subst, arith, if◌then◌else◌,
  ◌==◌, ◌||◌, ◌&&◌, not, bit_and, bit_or, update, update_self, update_ne, min, max, ne→not_eq,
}
use bilbycast_rist.Prelude.Bits.{
  digit, digit-le, digit-bit_or, digit-bit_and, digit-pow, bit_and-pow_eq_zero,
}
use bilbycast_rist.Bonding.{window_size, mark_seq, is_seq_marked, clear_seq}

pub is_seq_marked_lem :
    (f : ℕ → ℕ) (x : ℕ)
    → is_seq_marked f x ≡ not (digit (f (x % window_size / 64)) (x % window_size % 64) == 0)
unfolding is_seq_marked
is_seq_marked_lem f x =
    ap not (bit_and-pow_eq_zero (x % window_size % 64) (f (x % window_size / 64)))

digit-ones : (k i : ℕ) → i < k → digit (2 ^ k - 1) i ≡ 1
unfolding digit
digit-ones zero i h = absurd (omega arith)
digit-ones (suc k) zero h = omega (arith, pow-suc 2 k, one-le-pow k 2)
digit-ones (suc k) (suc i) h =
    let e : (2 ^ suc k - 1) / 2 ≡ 2 ^ k - 1 = omega (arith, pow-suc 2 k, one-le-pow k 2) in
    rw e (digit-ones k i (omega arith))

pow-le : (b k : ℕ) → b < k → 2 ^ b < 2 ^ k
pow-le b zero h = absurd (omega arith)
pow-le zero (suc k) h = omega (arith, pow-suc 2 k, one-le-pow k 2)
pow-le (suc b) (suc k) h = omega (arith, pow-suc 2 k, pow-suc 2 b, pow-le b k (omega arith))

-- `!(1 << b)` on a word of `k` bits.
digit-hole : (k b i : ℕ) → b < k → i < k → digit (2 ^ k - 1 - 2 ^ b) i ≡ (if b == i then 0 else 1)
unfolding digit
digit-hole zero b i hb hi = absurd (omega arith)
digit-hole (suc k) zero zero hb hi = omega (arith, pow-suc 2 k, one-le-pow k 2)
digit-hole (suc k) zero (suc i) hb hi =
    let e : (2 ^ suc k - 1 - 2 ^ 0) / 2 ≡ 2 ^ k - 1 = omega (arith, pow-suc 2 k, one-le-pow k 2) in
    rw e (digit-ones k i (omega arith) ∙ ground arith)
digit-hole (suc k) (suc b) zero hb hi =
    let odd : (2 ^ suc k - 1 - 2 ^ suc b) % 2 ≡ 1 =
      omega (arith, pow-suc 2 k, pow-suc 2 b, pow-le b k (omega arith)) in
    odd ∙ ground arith
digit-hole (suc k) (suc b) (suc i) hb hi =
    let e : (2 ^ suc k - 1 - 2 ^ suc b) / 2 ≡ 2 ^ k - 1 - 2 ^ b =
      omega (arith, pow-suc 2 k, pow-suc 2 b, pow-le b k (omega arith)) in
    rw e (digit-hole k b i (omega arith) (omega arith) ∙ ground arith)

-- Setting or clearing the bit of residue `a`, seen from residue `r`.
set_bit :
    (f : ℕ → ℕ) (a r : ℕ)
    → digit (update f (a / 64) (bit_or (f (a / 64)) (2 ^ (a % 64))) (r / 64)) (r % 64)
      ≡ (if r == a then 1 else digit (f (r / 64)) (r % 64))
set_bit f a r = elim (ℕ_discrete (r / 64) (a / 64)) [
  | yes e ↦
      subst
        (λ (k : ℕ).
          digit (update f (a / 64) (bit_or (f (a / 64)) (2 ^ (a % 64))) k) (r % 64)
          ≡ (if r == a then 1 else digit (f k) (r % 64)))
        (sym e)
        (ap (λ (w : ℕ). digit w (r % 64))
            (update_self f (a / 64) (bit_or (f (a / 64)) (2 ^ (a % 64))))
          ∙ digit-bit_or (f (a / 64)) (2 ^ (a % 64)) (r % 64)
          ∙ ap (max (digit (f (a / 64)) (r % 64))) (digit-pow (a % 64) (r % 64))
          ∙ max_test (digit (f (a / 64)) (r % 64)) a r (digit-le (f (a / 64)) (r % 64)) e)
  | no q ↦
      ap (λ (w : ℕ). digit w (r % 64))
        (update_ne f (a / 64) (bit_or (f (a / 64)) (2 ^ (a % 64))) (r / 64) q)
      ∙ rw (ne→not_eq r a (λ e. q (ap (λ (k : ℕ). k / 64) e))) refl
]
  where
    max_test :
        (d a r : ℕ)
        → d ≤ 1
        → r / 64 ≡ a / 64
        → max d (if a % 64 == r % 64 then 1 else 0) ≡ (if r == a then 1 else d)
    max_test d a r h e = ground (arith, h, e)

clear_bit :
    (f : ℕ → ℕ) (a r : ℕ)
    → digit (update f (a / 64) (bit_and (f (a / 64)) (2 ^ 64 - 1 - 2 ^ (a % 64))) (r / 64)) (r % 64)
      ≡ (if r == a then 0 else digit (f (r / 64)) (r % 64))
clear_bit f a r = elim (ℕ_discrete (r / 64) (a / 64)) [
  | yes e ↦
      subst
        (λ (k : ℕ).
          digit (update f (a / 64) (bit_and (f (a / 64)) (2 ^ 64 - 1 - 2 ^ (a % 64))) k) (r % 64)
          ≡ (if r == a then 0 else digit (f k) (r % 64)))
        (sym e)
        (ap (λ (w : ℕ). digit w (r % 64))
            (update_self f (a / 64) (bit_and (f (a / 64)) (2 ^ 64 - 1 - 2 ^ (a % 64))))
          ∙ digit-bit_and (f (a / 64)) (2 ^ 64 - 1 - 2 ^ (a % 64)) (r % 64)
          ∙ ap (min (digit (f (a / 64)) (r % 64)))
              (digit-hole 64 (a % 64) (r % 64) (omega arith) (omega arith))
          ∙ min_test (digit (f (a / 64)) (r % 64)) a r (digit-le (f (a / 64)) (r % 64)) e)
  | no q ↦
      ap (λ (w : ℕ). digit w (r % 64))
        (update_ne f (a / 64) (bit_and (f (a / 64)) (2 ^ 64 - 1 - 2 ^ (a % 64))) (r / 64) q)
      ∙ rw (ne→not_eq r a (λ e. q (ap (λ (k : ℕ). k / 64) e))) refl
]
  where
    min_test :
        (d a r : ℕ)
        → d ≤ 1
        → r / 64 ≡ a / 64
        → min d (if a % 64 == r % 64 then 0 else 1) ≡ (if r == a then 0 else d)
    min_test d a r h e = ground (arith, h, e)

-- The same for sequence numbers.
pub mark_seq-marked :
    (f : ℕ → ℕ) (s x : ℕ)
    → is_seq_marked (mark_seq f s) x ≡ (x % window_size == s % window_size || is_seq_marked f x)
unfolding mark_seq
mark_seq-marked f s x =
    is_seq_marked_lem (mark_seq f s) x
    ∙ ap (λ (d : ℕ). not (d == 0)) (set_bit f (s % window_size) (x % window_size))
    ∙ set_test (x % window_size) (s % window_size)
        (digit (f (x % window_size / 64)) (x % window_size % 64))
    ∙ ap (λ t. x % window_size == s % window_size || t) (sym (is_seq_marked_lem f x))
  where
    set_test : (r a d : ℕ) → not ((if r == a then 1 else d) == 0) ≡ (r == a || not (d == 0))
    set_test r a d = ground arith

pub clear_seq-marked :
    (f : ℕ → ℕ) (s x : ℕ)
    → is_seq_marked (clear_seq f s) x
      ≡ (not (x % window_size == s % window_size) && is_seq_marked f x)
unfolding clear_seq
clear_seq-marked f s x =
    is_seq_marked_lem (clear_seq f s) x
    ∙ ap (λ (d : ℕ). not (d == 0)) (clear_bit f (s % window_size) (x % window_size))
    ∙ clear_test (x % window_size) (s % window_size)
        (digit (f (x % window_size / 64)) (x % window_size % 64))
    ∙ ap (λ t. not (x % window_size == s % window_size) && t) (sym (is_seq_marked_lem f x))
  where
    clear_test : (r a d : ℕ) → not ((if r == a then 0 else d) == 0) ≡ (not (r == a) && not (d == 0))
    clear_test r a d = ground arith
