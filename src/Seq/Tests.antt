-- ===== src/Seq/Tests.antt =====
-- The cases of the unit tests of rist-protocol/src/packet/seq.rs.
use bilbycast_rist.Prelude.{◌^◌, ◌≡◌, refl, true, false, arith, ltb, ◌&&◌}
use bilbycast_rist.Prelude.Int.{negsuc, signed16}
use bilbycast_rist.Seq.{diff, precedes, add, cmp, greater, less}
use bilbycast_rist.Seq.Laws.{diff-add, cmp_reversed}

wraps : (precedes 65535 0 ≡ true) × (precedes 0 65535 ≡ false) × (diff 0 32768 ≡ negsuc 32767)
unfolding precedes
wraps = (refl, refl, refl)

diff-add_example :
    (diff 65530 (add 65530 10) ≡ signed16 10)
    × (precedes 65530 (add 65530 10) ≡ (ltb 0 10 && ltb 10 (2 ^ 15)))
diff-add_example = diff-add 65530 10 (omega arith) (omega arith)

cmp_reversed_example : (cmp 65535 0 ≡ greater) × (cmp 0 65535 ≡ less)
unfolding precedes
cmp_reversed_example = cmp_reversed 65535 0 (omega arith) (omega arith) refl
