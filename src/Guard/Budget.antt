-- ===== src/Guard/Budget.antt =====
-- The work budget of a datagram, and which NACKs are ours.
use bilbycast_rist.Prelude.{ℕ, ◌*◌, ◌/◌, ◌^◌, ◌≤◌, ◌<◌, ◌≡◌, ◌↔◌, ◌⊎◌, arith, true}
use bilbycast_rist.Prelude.Bits.{bit_and-even}
use bilbycast_rist.Guard.{for_capacity, min_retx, max_retx, nack_targets_us}

-- The budget of a datagram: the retransmits lie between the two bounds and reach the ring's
-- capacity wherever the upper bound does, and there are four lookups for each.
pub for_capacity_bounds :
    (c : ℕ)
    → (min_retx ≤ (for_capacity c).retx)
      × ((for_capacity c).retx ≤ max_retx)
      × (c ≤ max_retx → c ≤ (for_capacity c).retx)
      × ((for_capacity c).scan ≡ 4 * (for_capacity c).retx)
unfolding for_capacity
for_capacity_bounds c = omega arith

-- With 32-bit SSRCs, a NACK is taken for one of ours exactly if it names media SSRC 0, or our SSRC
-- up to the retransmit flag in its lowest bit.
pub nack_targets_us_iff :
    (media_ssrc our_ssrc : ℕ)
    → media_ssrc < 2 ^ 32
    → our_ssrc < 2 ^ 32
    → (nack_targets_us media_ssrc our_ssrc ≡ true)
      ↔ ((media_ssrc ≡ 0) ⊎ (media_ssrc / 2 ≡ our_ssrc / 2))
unfolding nack_targets_us
nack_targets_us_iff m o hm ho = ground (arith, bit_and-even m hm, bit_and-even o ho)
