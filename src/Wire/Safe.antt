-- ===== src/Wire/Safe.antt =====
-- Fallible code that does not panic, and the rules that show it of a parser.
use bilbycast_rist.Prelude.{ℕ, ◌+◌, ◌≤◌, ◌≡◌, refl, arith, Bool, true, false, List, [], ◌∷◌, length}
use bilbycast_rist.Wire.{Buf, Result, ok, err, panic, RistError, guard, or_panic, ◌>>=◌}
use bilbycast_rist.Wire.BigEndian.{IsBigEndian}

abbrev pub Safe {ℓ} : {A : Type ℓ} → Result A → Type 0
Safe (ok a) = Unit {0}
Safe (err e) = Unit {0}
Safe panic = ⊥

pub Safe-guard {ℓ} :
    {A : Type ℓ} (b : Bool) (e : RistError) (k : Unit {0} → Result A)
    → (b ≡ true → Safe (k tt))
    → Safe (guard b e >>= k)
Safe-guard true e k h = h refl
Safe-guard false e k h = tt

pub Safe-bind {ℓ κ} :
    {A : Type ℓ} {B : Type κ} (m : Result A) (k : A → Result B)
    → Safe m
    → ((a : A) → m ≡ ok a → Safe (k a))
    → Safe (m >>= k)
Safe-bind (ok a) k s h = h a refl
Safe-bind (err e) k s h = tt
Safe-bind panic k s h = s

module _ {ℓ} {A : Type ℓ} {w : Buf} (be : IsBigEndian w) where
  -- A read where enough bytes remain.
  pub Safe-get_u16 :
      (buf : List ℕ) (k : ℕ × List ℕ → Result A)
      → 2 ≤ length buf
      → ((v : ℕ) (r : List ℕ) → length r + 2 ≡ length buf → Safe (k (v, r)))
      → Safe (or_panic (w.get_u16 buf) >>= k)
  Safe-get_u16 [] k n h = absurd (omega arith)
  Safe-get_u16 (a ∷ []) k n h = absurd (omega arith)
  Safe-get_u16 (a ∷ b ∷ r) k n h = rw (be.get_u16_be a b r) (h _ r (omega arith))

  pub Safe-get_u32 :
      (buf : List ℕ) (k : ℕ × List ℕ → Result A)
      → 4 ≤ length buf
      → ((v : ℕ) (r : List ℕ) → length r + 4 ≡ length buf → Safe (k (v, r)))
      → Safe (or_panic (w.get_u32 buf) >>= k)
  Safe-get_u32 [] k n h = absurd (omega arith)
  Safe-get_u32 (a ∷ []) k n h = absurd (omega arith)
  Safe-get_u32 (a ∷ b ∷ []) k n h = absurd (omega arith)
  Safe-get_u32 (a ∷ b ∷ c ∷ []) k n h = absurd (omega arith)
  Safe-get_u32 (a ∷ b ∷ c ∷ d ∷ r) k n h = rw (be.get_u32_be a b c d r) (h _ r (omega arith))

  pub Safe-copy_to_slice4 :
      (buf : List ℕ) (k : List ℕ × List ℕ → Result A)
      → 4 ≤ length buf
      → ((bytes r : List ℕ) → length r + 4 ≡ length buf → Safe (k (bytes, r)))
      → Safe (or_panic (w.copy_to_slice 4 buf) >>= k)
  Safe-copy_to_slice4 [] k n h = absurd (omega arith)
  Safe-copy_to_slice4 (a ∷ []) k n h = absurd (omega arith)
  Safe-copy_to_slice4 (a ∷ b ∷ []) k n h = absurd (omega arith)
  Safe-copy_to_slice4 (a ∷ b ∷ c ∷ []) k n h = absurd (omega arith)
  Safe-copy_to_slice4 (a ∷ b ∷ c ∷ d ∷ r) k n h =
      rw (be.copy_to_slice_be (a ∷ b ∷ c ∷ d ∷ []) r) (h _ r (omega arith))
