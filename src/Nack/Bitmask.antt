-- ===== src/Nack/Bitmask.antt =====
-- The bitmask builder asks for exactly the numbers that it is given.
use native.Mathlib.Decide.{ℕ_discrete}
use bilbycast_rist.Prelude.{
  inl, inr, ℕ, zero, suc, ◌+◌, ◌-◌, ◌^◌, ◌≤◌, ◌<◌, ◌≡◌, ◌∙◌, refl, ap, sym, arith, Bool, true,
  false, List, [], ◌∷◌, max, if◌then◌else◌, leb, ◌==◌, ◌&&◌, ◌||◌, not, wrapping_add, wrapping_sub,
  All, bit_or, bit_and, Bool-cases, ne→not_eq,
}
use bilbycast_rist.Prelude.Bits.{
  digit, digit-bit_or, digit-pow, digit-zero, digit-le, bit_and-pow_eq_zero,
}
use bilbycast_rist.Nack.Builder.{IsU16, contains, contains-append, contains-if}
use bilbycast_rist.Nack.{
  packet_seqs, bitmask_seqs, NackListBuilder, build_bitmask, masked_seqs, bitmask_lost_seqs,
  pack_bits,
}

-- The test that a mask of `n` bits from bit `i` on makes on the distance `d` from its PID.
abbrev in_mask : ℕ → ℕ → ℕ → ℕ → Bool
in_mask n i blp d = leb (i + 1) d && (leb d (i + n) && digit blp (d - 1) == 1)

-- The value of bit `i`, at distance `i + 1`.
bit_i :
    (n i pid blp s : ℕ)
    → IsU16 pid
    → IsU16 s
    → i < 16
    → ((not (digit blp i == 0) && wrapping_add pid (i + 1) == s)
        || in_mask n (i + 1) blp (wrapping_sub s pid))
      ≡ in_mask (suc n) i blp (wrapping_sub s pid)
bit_i n i pid blp s p u h =
    let far : wrapping_add pid (i + 1) ≡ s → wrapping_sub s pid ≡ i + 1 = λ e. omega (arith, e) in
    elim (ℕ_discrete (wrapping_sub s pid) (i + 1)) [
      | yes e ↦
          let same : wrapping_add pid (i + 1) ≡ s = omega (arith, e) in
          let back : digit blp (wrapping_sub s pid - 1) ≡ digit blp i =
            ap (digit blp) (omega (arith, e)) in
          ground (arith, e, same, back, digit-le blp i)
      | no q ↦
          let other : (wrapping_add pid (i + 1) == s) ≡ false =
            ne→not_eq (wrapping_add pid (i + 1)) s (λ e. q (far e)) in
          ground (arith, q, other)
    ]

contains-masked_seqs :
    (n i pid blp s : ℕ)
    → IsU16 pid
    → IsU16 s
    → i + n ≤ 16
    → contains (masked_seqs n i (record { pid = pid; blp = blp })) s
      ≡ in_mask n i blp (wrapping_sub s pid)
unfolding masked_seqs
contains-masked_seqs zero i pid blp s p u h = ground arith
contains-masked_seqs (suc n) i pid blp s p u h =
    let rest = masked_seqs n (i + 1) (record { pid = pid; blp = blp }) in
    let ih : contains rest s ≡ in_mask n (i + 1) blp (wrapping_sub s pid) =
      contains-masked_seqs n (i + 1) pid blp s p u (omega arith) in
    contains-if (not (bit_and blp (2 ^ i) == 0)) (wrapping_add pid (i + 1)) s rest
    ∙ ap (λ t. (not t && wrapping_add pid (i + 1) == s) || contains rest s)
        (bit_and-pow_eq_zero i blp)
    ∙ ap (λ t. (not (digit blp i == 0) && wrapping_add pid (i + 1) == s) || t) ih
    ∙ bit_i n i pid blp s p u (omega arith)

contains-bitmask_lost_seqs :
    (pid blp s : ℕ)
    → IsU16 pid
    → IsU16 s
    → contains (bitmask_lost_seqs (record { pid = pid; blp = blp })) s
      ≡ (pid == s || in_mask 16 0 blp (wrapping_sub s pid))
unfolding bitmask_lost_seqs
contains-bitmask_lost_seqs pid blp s p u =
    ap (λ t. pid == s || t) (contains-masked_seqs 16 0 pid blp s p u (omega arith))

-- A number that joins the open entry, and one that closes it.
pack_bits-join :
    (pid blp x : ℕ) (seqs : List ℕ)
    → (leb 1 (wrapping_sub x pid) && leb (wrapping_sub x pid) 16) ≡ true
    → pack_bits (record { pid = pid; blp = blp }) (x ∷ seqs)
      ≡ pack_bits (record { pid = pid; blp = bit_or blp (2 ^ (wrapping_sub x pid - 1)) }) seqs
unfolding pack_bits
pack_bits-join pid blp x seqs h = rw h refl

pack_bits-close :
    (pid blp x : ℕ) (seqs : List ℕ)
    → (leb 1 (wrapping_sub x pid) && leb (wrapping_sub x pid) 16) ≡ false
    → pack_bits (record { pid = pid; blp = blp }) (x ∷ seqs)
      ≡ record { pid = pid; blp = blp } ∷ pack_bits (record { pid = x; blp = 0 }) seqs
unfolding pack_bits
pack_bits-close pid blp x seqs h = rw h refl

or_assoc : (a b c : Bool) → ((a || b) || c) ≡ (a || (b || c))
or_assoc true b c = refl
or_assoc false b c = refl

fresh :
    (x s : ℕ)
    → IsU16 x
    → IsU16 s
    → contains (bitmask_lost_seqs (record { pid = x; blp = 0 })) s ≡ (x == s)
fresh x s p u =
    contains-bitmask_lost_seqs x 0 s p u ∙ ground (arith, digit-zero (wrapping_sub s x - 1))

either_bit :
    (pid s d k blp blp' : ℕ)
    → digit blp' (d - 1) ≡ max (digit blp (d - 1)) (if k - 1 == d - 1 then 1 else 0)
    → (leb 1 k && leb k 16) ≡ true
    → (pid == s || in_mask 16 0 blp' d) ≡ ((pid == s || in_mask 16 0 blp d) || k == d)
either_bit pid s d k blp blp' e h = ground (arith, e, h, digit-le blp (d - 1))

marked :
    (pid blp x s : ℕ)
    → IsU16 pid
    → IsU16 x
    → IsU16 s
    → (leb 1 (wrapping_sub x pid) && leb (wrapping_sub x pid) 16) ≡ true
    → contains
        (bitmask_lost_seqs (record { pid = pid; blp = bit_or blp (2 ^ (wrapping_sub x pid - 1)) }))
        s
      ≡ (contains (bitmask_lost_seqs (record { pid = pid; blp = blp })) s || x == s)
marked pid blp x s p v u h =
    let bit : digit (bit_or blp (2 ^ (wrapping_sub x pid - 1))) (wrapping_sub s pid - 1)
        ≡ max (digit blp (wrapping_sub s pid - 1))
            (if wrapping_sub x pid - 1 == wrapping_sub s pid - 1 then 1 else 0) =
      digit-bit_or blp (2 ^ (wrapping_sub x pid - 1)) (wrapping_sub s pid - 1)
      ∙ ap (max (digit blp (wrapping_sub s pid - 1)))
          (digit-pow (wrapping_sub x pid - 1) (wrapping_sub s pid - 1)) in
    let same : (x == s) ≡ (wrapping_sub x pid == wrapping_sub s pid) = ground arith in
    contains-bitmask_lost_seqs pid (bit_or blp (2 ^ (wrapping_sub x pid - 1))) s p u
    ∙ either_bit pid s (wrapping_sub s pid) (wrapping_sub x pid) blp
        (bit_or blp (2 ^ (wrapping_sub x pid - 1))) bit h
    ∙ ap (λ t. (pid == s || in_mask 16 0 blp (wrapping_sub s pid)) || t) (sym same)
    ∙ ap (λ t. t || x == s) (sym (contains-bitmask_lost_seqs pid blp s p u))

contains-pack_bits :
    (seqs : List ℕ) (pid blp s : ℕ)
    → IsU16 pid
    → IsU16 s
    → All IsU16 seqs
    → contains (bitmask_seqs (pack_bits (record { pid = pid; blp = blp }) seqs)) s
      ≡ (contains (bitmask_lost_seqs (record { pid = pid; blp = blp })) s || contains seqs s)
unfolding pack_bits
contains-pack_bits [] pid blp s p u h =
    contains-append (bitmask_lost_seqs (record { pid = pid; blp = blp })) [] s
contains-pack_bits (x ∷ seqs) pid blp s p u h =
    elim (Bool-cases (leb 1 (wrapping_sub x pid) && leb (wrapping_sub x pid) 16)) [
      | inl j ↦
          ap (λ t. contains (bitmask_seqs t) s) (pack_bits-join pid blp x seqs j)
          ∙ contains-pack_bits seqs pid (bit_or blp (2 ^ (wrapping_sub x pid - 1))) s p u h.1
          ∙ ap (λ t. t || contains seqs s) (marked pid blp x s p h.0 u j)
          ∙ or_assoc (contains (bitmask_lost_seqs (record { pid = pid; blp = blp })) s) (x == s)
              (contains seqs s)
      | inr k ↦
          ap (λ t. contains (bitmask_seqs t) s) (pack_bits-close pid blp x seqs k)
          ∙ contains-append (bitmask_lost_seqs (record { pid = pid; blp = blp }))
              (bitmask_seqs (pack_bits (record { pid = x; blp = 0 }) seqs)) s
          ∙ ap (λ t. contains (bitmask_lost_seqs (record { pid = pid; blp = blp })) s || t)
              (contains-pack_bits seqs x 0 s h.0 u h.1
                ∙ ap (λ t. t || contains seqs s) (fresh x s h.0 u))
    ]

-- The entries of a bitmask packet built from 16-bit numbers ask for a number exactly if the list
-- that it was built from, in whatever order and with whatever repetitions, contains it.
pub contains-build_bitmask :
    (b : NackListBuilder) (seqs : List ℕ) (s : ℕ)
    → All IsU16 seqs
    → IsU16 s
    → contains (packet_seqs (build_bitmask b seqs)) s ≡ contains seqs s
unfolding build_bitmask
contains-build_bitmask b [] s h u = refl
contains-build_bitmask b (x ∷ seqs) s h u =
    contains-pack_bits seqs x 0 s h.0 u h.1 ∙ ap (λ t. t || contains seqs s) (fresh x s h.0 u)
