-- ===== src/Guard/Tests.antt =====
-- The guards at concrete inputs.
use bilbycast_rist.Prelude.{ℕ, ◌/◌, ◌≡◌, ◌↔◌, ◌⊎◌, arith, true}
use bilbycast_rist.Guard.{nack_targets_us}
use bilbycast_rist.Guard.Budget.{nack_targets_us_iff}

-- Our SSRC with the retransmit flag set.
abbrev flagged : ℕ
flagged = 43

abbrev ours : ℕ
ours = 42

nack_targets_us_example :
    (nack_targets_us flagged ours ≡ true) ↔ ((flagged ≡ 0) ⊎ (flagged / 2 ≡ ours / 2))
nack_targets_us_example = nack_targets_us_iff flagged ours (omega arith) (omega arith)
