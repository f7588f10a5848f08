-- ===== src/Nack/Builder.antt =====
-- The builders name exactly the numbers that they are given.
use native.Mathlib.Decide.{ℕ_discrete}
use bilbycast_rist.Prelude.{
  ℕ, zero, suc, ◌+◌, ◌^◌, ◌<◌, ◌≡◌, ◌≢◌, ◌∙◌, refl, ap, arith, Bool, true, false, List, [], ◌∷◌,
  ◌++◌, if◌then◌else◌, ◌==◌, ◌&&◌, ◌||◌, wrapping_add, u16, length, All, append_assoc, ==_self,
  ne→not_eq,
}
use bilbycast_rist.Nack.{
  NackListBuilder, build_range, range_from, range_lost_seqs, pack_range, packet_seqs, range_seqs,
}

abbrev pub IsU16 : ℕ → Type 0
IsU16 s = s < 2 ^ 16

abbrev pub contains : List ℕ → ℕ → Bool
contains [] s = false
contains (x ∷ xs) s = x == s || contains xs s

pub contains-append :
    (xs ys : List ℕ) (s : ℕ) → contains (xs ++ ys) s ≡ (contains xs s || contains ys s)
contains-append [] ys s = refl
contains-append (x ∷ xs) ys s = ground (arith, contains-append xs ys s)

pub contains-if :
    (b : Bool) (x s : ℕ) (rest : List ℕ)
    → contains (if b then x ∷ rest else rest) s ≡ ((b && x == s) || contains rest s)
contains-if true x s rest = refl
contains-if false x s rest = refl

-- The expansion of a range, one number further.
range_from-snoc :
    (n i start : ℕ)
    → i + n < 2 ^ 16
    → range_from (suc n) i start ≡ range_from n i start ++ (wrapping_add start (i + n) ∷ [])
unfolding range_from
range_from-snoc zero i start h = ap (λ t. t ∷ []) (omega arith)
range_from-snoc (suc n) i start h =
    let e : i + 1 + n ≡ i + suc n = omega arith in
    let ih = range_from-snoc n (i + 1) start (omega arith) in
    ap (λ t. wrapping_add start (u16 i) ∷ t) (rw e at ih)

-- A number that extends the open range, and one that does not.
pack_range-join :
    (start extra s : ℕ) (seqs : List ℕ)
    → s ≡ wrapping_add start (u16 (extra + 1))
    → pack_range (record { start = start; extra = extra }) (s ∷ seqs)
      ≡ pack_range (record { start = start; extra = u16 (extra + 1) }) seqs
unfolding pack_range
pack_range-join start extra s seqs h =
    rw h (rw (==_self (wrapping_add start (u16 (extra + 1)))) refl)

pack_range-close :
    (start extra s : ℕ) (seqs : List ℕ)
    → s ≢ wrapping_add start (u16 (extra + 1))
    → pack_range (record { start = start; extra = extra }) (s ∷ seqs)
      ≡ record { start = start; extra = extra } ∷ pack_range (record { start = s; extra = 0 }) seqs
unfolding pack_range
pack_range-close start extra s seqs h =
    rw (ne→not_eq s (wrapping_add start (u16 (extra + 1))) h) refl

single : (s : ℕ) → IsU16 s → range_lost_seqs (record { start = s; extra = 0 }) ≡ s ∷ []
unfolding range_lost_seqs
single s h = ap (λ t. t ∷ []) (omega arith)

grown :
    (start extra s : ℕ)
    → extra + 1 < 2 ^ 16
    → s ≡ wrapping_add start (u16 (extra + 1))
    → range_lost_seqs (record { start = start; extra = u16 (extra + 1) })
      ≡ range_lost_seqs (record { start = start; extra = extra }) ++ (s ∷ [])
unfolding range_lost_seqs
grown start extra s h k =
    let fits : u16 (extra + 1) ≡ extra + 1 = omega arith in
    let last : wrapping_add start (0 + (extra + 1)) ≡ s = omega arith in
    let n : extra + 1 + 1 ≡ suc (extra + 1) = omega arith in
    rw (fits, n)
      (range_from-snoc (extra + 1) 0 start (omega arith)
        ∙ ap (λ t. range_from (extra + 1) 0 start ++ (t ∷ [])) last)

pack_range-seqs :
    (seqs : List ℕ) (start extra : ℕ)
    → All IsU16 seqs
    → extra + length seqs < 2 ^ 16
    → range_seqs (pack_range (record { start = start; extra = extra }) seqs)
      ≡ range_lost_seqs (record { start = start; extra = extra }) ++ seqs
unfolding pack_range
pack_range-seqs [] start extra u h = refl
pack_range-seqs (s ∷ seqs) start extra u h =
    elim (ℕ_discrete s (wrapping_add start (u16 (extra + 1)))) [
      | yes p ↦
          let fits : u16 (extra + 1) ≡ extra + 1 = omega arith in
          ap range_seqs (pack_range-join start extra s seqs p)
          ∙ pack_range-seqs seqs start (u16 (extra + 1)) u.1 (rw fits (omega arith))
          ∙ ap (λ t. t ++ seqs) (grown start extra s (omega arith) p)
          ∙ append_assoc (range_lost_seqs (record { start = start; extra = extra })) (s ∷ []) seqs
      | no q ↦
          ap range_seqs (pack_range-close start extra s seqs q)
          ∙ ap (λ t. range_lost_seqs (record { start = start; extra = extra }) ++ t)
              (pack_range-seqs seqs s 0 u.1 (omega arith) ∙ ap (λ t. t ++ seqs) (single s u.0))
    ]

-- A list of fewer than 2^16 sequence numbers is what the range entries built from it expand to, in
-- its order.
pub seqs-build_range :
    (b : NackListBuilder) (seqs : List ℕ)
    → All IsU16 seqs
    → length seqs < 2 ^ 16
    → packet_seqs (build_range b seqs) ≡ seqs
unfolding build_range
seqs-build_range b [] u h = refl
seqs-build_range b (s ∷ seqs) u h =
    pack_range-seqs seqs s 0 u.1 (omega arith) ∙ ap (λ t. t ++ seqs) (single s u.0)
