-- ===== src/Bonding/Tests.antt =====
-- A run of the merger, after the unit tests of rist-protocol/src/protocol/bonding.rs.
use bilbycast_rist.Prelude.{◌≡◌, refl, arith, none, some, [], ◌∷◌, if◌then◌else◌}
use bilbycast_rist.Bonding.{BondingMerger, new, process}
use bilbycast_rist.Bonding.Refine.{Emitted, nothing, emit_once, Refines, process-Refines}

-- After 100 and 102.
abbrev merger : BondingMerger
merger = (process (process new 100 (1 ∷ [])).0 102 (2 ∷ [])).0

abbrev emitted : Emitted
emitted = (emit_once (emit_once nothing 100).0 102).0

merger-Refines : Refines merger.highest_seq merger.bitmap emitted
unfolding new
merger-Refines =
    (process-Refines (process new 100 (1 ∷ [])).0 (emit_once nothing 100).0 102 (2 ∷ [])
      (process-Refines new nothing 100 (1 ∷ []) refl (omega arith)).0 (omega arith)).0

-- 101 arrives late, on the other path.
process-Refines_example :
    Refines
      (process merger 101 (3 ∷ [])).0.highest_seq
      (process merger 101 (3 ∷ [])).0.bitmap
      (emit_once emitted 101).0
    × ((process merger 101 (3 ∷ [])).1
        ≡ (if (emit_once emitted 101).1 then some (3 ∷ []) else none))
process-Refines_example = process-Refines merger emitted 101 (3 ∷ []) merger-Refines (omega arith)

fills_gap : (process merger 101 (3 ∷ [])).1 ≡ some (3 ∷ [])
unfolding process new
fills_gap = refl

drops_copy : (process merger 100 (1 ∷ [])).1 ≡ none
unfolding process new
drops_copy = refl
