-- ===== src/Seq/Laws.antt =====
-- What `precedes` and `cmp` of rist-protocol/src/packet/seq.rs say of the circular order.
use bilbycast_rist.Prelude.{ℕ, ◌^◌, ◌<◌, ◌≡◌, ◌⊎◌, true, false, arith, ltb, ◌&&◌}
use bilbycast_rist.Prelude.Int.{signed16}
use bilbycast_rist.Seq.{less, greater, diff, precedes, add, cmp}

-- Stepping `n` ahead of any `a` gives distance `n` read as an `i16`, so `a` precedes the result
-- exactly for 0 < n < 2 ^ 15, across the wrap too.
pub diff-add :
    (a n : ℕ)
    → a < 2 ^ 16
    → n < 2 ^ 16
    → (diff a (add a n) ≡ signed16 n) × (precedes a (add a n) ≡ (ltb 0 n && ltb n (2 ^ 15)))
unfolding precedes add diff
diff-add a n ha hn = (ground arith, ground arith)

-- At most one of two 16-bit numbers precedes the other; with neither, they are equal or exactly
-- half the space apart.
pub precedes_asym :
    (a b : ℕ)
    → a < 2 ^ 16
    → b < 2 ^ 16
    → (precedes a b ≡ true → precedes b a ≡ false)
      × (precedes a b ≡ false → precedes b a ≡ false → (a ≡ b) ⊎ (add a (2 ^ 15) ≡ b))
unfolding precedes add diff
precedes_asym a b ha hb = (ground arith, ground arith)

-- On 16-bit numbers, `cmp` is the reverse of the order that `precedes` describes: the earlier
-- number compares as `Greater`, and the later one as `Less`.
pub cmp_reversed :
    (a b : ℕ)
    → a < 2 ^ 16
    → b < 2 ^ 16
    → precedes a b ≡ true
    → (cmp a b ≡ greater) × (cmp b a ≡ less)
unfolding precedes cmp
cmp_reversed a b ha hb h = ground arith
