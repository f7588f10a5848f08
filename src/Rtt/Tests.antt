-- ===== src/Rtt/Tests.antt =====
-- Exchanges with the round-trip estimator.
use bilbycast_rist.Prelude.{arith, List, [], ◌∷◌}
use bilbycast_rist.Rtt.{new}
use bilbycast_rist.Rtt.Smoothing.{Echo, echo_run, SrttIn, echo_run_bounds}

-- Round trips of 20 and of 28 ms, the second with 4 ms spent at the responder.
abbrev echoes : List Echo
echoes =
    record { sent = 0; received = 20_000_000; processing_delay_us = 0 }
    ∷ record { sent = 1_000_000_000; received = 1_028_000_000; processing_delay_us = 4000 }
    ∷ []

echo_run_bounds_example : SrttIn 20_000_000 24_000_000 (echo_run (new 1_000_000_000) echoes).srtt
unfolding new
echo_run_bounds_example =
    echo_run_bounds 20_000_000 24_000_000 (new 1_000_000_000) echoes tt
      ((omega arith, omega arith), ((omega arith, omega arith), tt))
