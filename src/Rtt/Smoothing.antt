-- ===== src/Rtt/Smoothing.antt =====
-- Where the smoothed estimate lies, and when the next request is due.
use bilbycast_rist.Prelude.{
  ℕ, ◌+◌, ◌-◌, ◌*◌, ◌/◌, ◌^◌, ◌≤◌, ◌<◌, ◌≡◌, ◌↔◌, ap, arith, true, Option, none, some, List, [],
  ◌∷◌, All, u32, u64,
}
use bilbycast_rist.Rtt.{
  RttEstimator, update_rtt, generate_request, should_send_request, on_response, sample_of,
  unwrap_or, smoothed, next_timestamp,
}

-- A run of requests and their responses: the instants of the request and of the response, and the
-- responder's delay.
pub record Echo : Type 0 where
  pub sent : ℕ
  pub received : ℕ
  pub processing_delay_us : ℕ

abbrev pub echo_run : RttEstimator → List Echo → RttEstimator
echo_run e [] = e
echo_run e (x ∷ xs) =
    let (asked, words) = generate_request e x.sent in
    echo_run (on_response asked x.received words.0 words.1 x.processing_delay_us) xs

abbrev pub SrttIn : ℕ → ℕ → Option ℕ → Type 0
SrttIn lo hi none = Unit
SrttIn lo hi (some s) = (lo ≤ s + 14) × (s ≤ hi)

smoothed_bounds :
    (lo hi sample : ℕ) (e : RttEstimator)
    → SrttIn lo hi e.srtt
    → lo ≤ sample
    → sample ≤ hi
    → SrttIn lo hi (update_rtt e sample).srtt
unfolding update_rtt
smoothed_bounds lo hi sample e h a b = bounds e.srtt h
  where
    bounds : (s : Option ℕ) → SrttIn lo hi s → SrttIn lo hi (some (smoothed s sample))
    bounds none k = (omega (arith, a), b)
    bounds (some s) k = (omega (arith, a, k.0), omega (arith, b, k.1))

-- If the time between request and response, less the responder's delay, always lies between two
-- bounds, and the estimate does at the start, where there is one, the smoothed estimate does not
-- exceed the upper one, and is not below the lower one by more than the 14 ns that the divisions
-- may lose, after any number of exchanges.
pub echo_run_bounds :
    (lo hi : ℕ) (e : RttEstimator) (xs : List Echo)
    → SrttIn lo hi e.srtt
    → All
        (λ (x : Echo).
          (lo ≤ sample_of x.sent x.received x.processing_delay_us)
          × (sample_of x.sent x.received x.processing_delay_us ≤ hi))
        xs
    → SrttIn lo hi (echo_run e xs).srtt
unfolding generate_request on_response
echo_run_bounds lo hi e [] h k = h
echo_run_bounds lo hi e (x ∷ xs) h k =
    echo_run_bounds lo hi
      (on_response (generate_request e x.sent).0 x.received (generate_request e x.sent).1.0
        (generate_request e x.sent).1.1 x.processing_delay_us)
      xs
      (smoothed_bounds lo hi (sample_of x.sent x.received x.processing_delay_us)
        (generate_request e x.sent).0 h k.0.0 k.0.1)
      k.1

two_words : (ts : ℕ) → ts < 2 ^ 64 → ts ≡ u32 (ts / 2 ^ 32) * 2 ^ 32 + u32 ts
two_words ts h = omega arith

next_timestamp-lt : (t : Option ℕ) (elapsed : ℕ) → next_timestamp t elapsed < 2 ^ 64
next_timestamp-lt none elapsed = omega arith
next_timestamp-lt (some t) elapsed = omega arith

-- After a request, the next one is due once the interval has passed, and not before; and the two
-- words of the timestamp put together are the 64-bit timestamp that the estimator remembers.
pub generate_request_lem :
    (e : RttEstimator) (now later : ℕ)
    → ((should_send_request (generate_request e now).0 later ≡ true)
        ↔ (now + e.request_interval ≤ later))
      × ((generate_request e now).0.last_request_timestamp
          ≡ some ((generate_request e now).1.0 * 2 ^ 32 + (generate_request e now).1.1))
unfolding generate_request should_send_request
generate_request_lem e now later =
    let elapsed = u64 ((now - unwrap_or e.last_request_time now) / 1000) in
    (
      ground arith,
      ap some (
          two_words (next_timestamp e.last_request_timestamp elapsed)
            (next_timestamp-lt e.last_request_timestamp elapsed)),
    )
