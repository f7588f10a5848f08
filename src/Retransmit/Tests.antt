-- ===== src/Retransmit/Tests.antt =====
-- A ring of 64 packets.
use bilbycast_rist.Prelude.{
  ℕ, ◌+◌, ◌≡◌, arith, List, [], ◌∷◌, ◌++◌, get_elem?, length, wrapping_add, next_power_of_two,
}
use bilbycast_rist.Ring.Tests.{ring_64}
use bilbycast_rist.Retransmit.{new, get}
use bilbycast_rist.Retransmit.History.{insert_run, get-insert_run}

abbrev older : List (List ℕ)
older = (1 ∷ []) ∷ []

abbrev newer : List (List ℕ)
newer = (2 ∷ []) ∷ (3 ∷ []) ∷ []

get-insert_run_example :
    get (insert_run (new 64) 65534 (older ++ newer)) (wrapping_add 65534 (length older + 1))
    ≡ get_elem? newer 1
unfolding new next_power_of_two
get-insert_run_example =
    get-insert_run (new 64) 65534 older newer 1 ring_64 (omega arith) (omega arith) (omega arith)
