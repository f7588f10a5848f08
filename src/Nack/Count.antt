-- ===== src/Nack/Count.antt =====
-- The bitmask builder asks for no more numbers than it is given.
use bilbycast_rist.Prelude.{
  ℕ, zero, suc, ◌+◌, ◌-◌, ◌^◌, ◌≤◌, ◌≡◌, refl, arith, Bool, true, false, inl, inr, List, [], ◌∷◌,
  ◌&&◌, ◌==◌, not, leb, if◌then◌else◌, length, length-append, bit_or, bit_and, wrapping_add,
  wrapping_sub, Bool-cases,
}
use bilbycast_rist.Prelude.Bits.{
  digit, digit-bit_or, digit-pow, digit-le, digit-zero, bit_and-pow_eq_zero,
}
use bilbycast_rist.Nack.{
  NackListBuilder, build_bitmask, pack_bits, masked_seqs, bitmask_lost_seqs, bitmask_seqs,
  packet_seqs,
}

-- The bits `i`, …, `i + n - 1` that are set.
ones : ℕ → ℕ → ℕ → ℕ
ones zero i blp = 0
ones (suc n) i blp = digit blp i + ones n (i + 1) blp

length-if :
    (b : Bool) (x : ℕ) (rest : List ℕ)
    → length (if b then x ∷ rest else rest) ≡ (if b then 1 else 0) + length rest
length-if true x rest = omega arith
length-if false x rest = omega arith

length-masked_seqs :
    (n i pid blp : ℕ) → length (masked_seqs n i (record { pid = pid; blp = blp })) ≡ ones n i blp
unfolding masked_seqs ones
length-masked_seqs zero i pid blp = refl
length-masked_seqs (suc n) i pid blp =
    let rest = masked_seqs n (i + 1) (record { pid = pid; blp = blp }) in
    ground (
      arith,
      length-if (not (bit_and blp (2 ^ i) == 0)) (wrapping_add pid (i + 1)) rest,
      bit_and-pow_eq_zero i blp,
      digit-le blp i,
      length-masked_seqs n (i + 1) pid blp,
    )

ones-zero : (n i : ℕ) → ones n i 0 ≡ 0
unfolding ones
ones-zero zero i = refl
ones-zero (suc n) i = omega (arith, digit-zero i, ones-zero n (i + 1))

-- One more bit.
ones-bit_or :
    (n i blp j : ℕ) → ones n i (bit_or blp (2 ^ j)) ≤ ones n i blp + (if leb i j then 1 else 0)
unfolding ones
ones-bit_or zero i blp j = omega arith
ones-bit_or (suc n) i blp j =
    ground (
      arith,
      ones-bit_or n (i + 1) blp j,
      digit-bit_or blp (2 ^ j) i,
      digit-pow j i,
      digit-le blp i,
    )

length-pack_bits :
    (pid blp : ℕ) (seqs : List ℕ)
    → length (bitmask_seqs (pack_bits (record { pid = pid; blp = blp }) seqs))
      ≤ 1 + ones 16 0 blp + length seqs
unfolding pack_bits bitmask_lost_seqs
length-pack_bits pid blp [] = omega (
  arith,
  length-append (pid ∷ masked_seqs 16 0 (record { pid = pid; blp = blp })) [],
  length-masked_seqs 16 0 pid blp,
)
length-pack_bits pid blp (s ∷ seqs) =
    let diff = wrapping_sub s pid in
    elim (Bool-cases (leb 1 diff && leb diff 16)) [
      | inl e ↦ rw e (
          omega (
            arith,
            length-pack_bits pid (bit_or blp (2 ^ (diff - 1))) seqs,
            ones-bit_or 16 0 blp (diff - 1),
            one_or_none (leb 0 (diff - 1)),
          ))
      | inr e ↦ rw e (
          omega (
            arith,
            length-append (pid ∷ masked_seqs 16 0 (record { pid = pid; blp = blp }))
                (bitmask_seqs (pack_bits (record { pid = s; blp = 0 }) seqs)),
            length-masked_seqs 16 0 pid blp,
            length-pack_bits s 0 seqs,
            ones-zero 16 0,
          ))
    ]
  where
    one_or_none : (b : Bool) → (if b then 1 else 0) ≤ 1
    one_or_none true = omega arith
    one_or_none false = omega arith

pub length-build_bitmask :
    (b : NackListBuilder) (seqs : List ℕ)
    → length (packet_seqs (build_bitmask b seqs)) ≤ length seqs
unfolding build_bitmask
length-build_bitmask b [] = omega arith
length-build_bitmask b (s ∷ seqs) = omega (arith, length-pack_bits s 0 seqs, ones-zero 16 0)
