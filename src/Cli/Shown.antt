-- ===== src/Cli/Shown.antt =====
-- What the demonstrations of aiolab/cli.py print, whatever the event loop chooses.
use asyncio_tests.Base.{
  ℕ, zero, suc, ◌*◌, ◌≡◌, ◌<◌, refl, ap, ◌∙◌, true, false, some, List, [], ◌∷◌, length, replicate,
  total, arith,
}
use asyncio_tests.Errors.{is_cancelled, is_exception, ok}
use asyncio_tests.Float.{Float, lt}
use asyncio_tests.Retry.Policy.{RetryPolicy, raw_delay, delay_for, default_retryable}
use asyncio_tests.Retry.Loop.{retry, retry_from, caught}
use asyncio_tests.Streams.Source.{collect}
use asyncio_tests.Streams.Amap.{Batch}
use asyncio_tests.Streams.InOrder.{amap-SameAs-serial}
use asyncio_tests.Sync.Counters.{Call, returned, schedule, start}
use asyncio_tests.Sync.Updates.{racey_loses, finished, safe_counts}
use asyncio_tests.Cli.Demos.{
  heading, seconds, number, numbers, delays, remark, demo_races, racey_value, demo_streams,
  collect_squares, squared, range_from, demo_retry,
}

all_finished : (n : ℕ) → total finished (replicate n returned) ≡ n
all_finished zero = refl
all_finished (suc n) = omega (arith, all_finished n)

-- Of any number of calls, one at least, `demo_races` shows that all but one increment of the racey
-- counter are lost, and none of the safe one, in whatever order the calls of that run until all have
-- returned.
demo_races_lem :
    {R : Type 0} (n : ℕ) (order : List ℕ)
    → (schedule (start (suc n)) order).calls ≡ replicate (suc n) returned
    → demo_races {R = R} (suc n) order ≡ heading ∷ number 1 ∷ number (suc n) ∷ []
unfolding demo_races
demo_races_lem {R} n order all =
    let lost : racey_value (suc n) ≡ 1 = ap (λ (r : ℕ × List Call). r.0) (racey_loses 0 n) in
    let kept : (schedule (start (suc n)) order).value ≡ suc n =
      safe_counts (suc n) order ∙ ap (total finished) all ∙ all_finished (suc n) in
    rw (lost, kept) refl

abbrev squares : List ℕ
squares = 0 ∷ 1 ∷ 4 ∷ 9 ∷ 16 ∷ 25 ∷ 36 ∷ 49 ∷ []

collect_squares-eq :
    (schedule : List Batch) → 8 < length schedule → collect_squares 4 schedule ≡ some (ok squares)
unfolding collect_squares collect
collect_squares-eq batches enough =
    let (left, e) =
      amap-SameAs-serial (λ n. ok (n * n)) (range_from 0 8) 4 batches (omega arith) enough in
    rw (e, squared) refl

-- Whichever tasks are done first, `demo_streams` shows the squares of 0 to 7 in their order.
demo_streams_lem :
    {R : Type 0} (elapsed : R) (first second : List Batch)
    → 8 < length first
    → 8 < length second
    → demo_streams elapsed first second
      ≡ some (ok (heading ∷ numbers squares ∷ seconds elapsed ∷ []))
unfolding demo_streams
demo_streams_lem elapsed first second enough enough' =
    rw (collect_squares-eq first enough, collect_squares-eq second enough') refl

-- `demo_retry` shows three attempts and the two delays between them, as its policy makes them, if these
-- are positive.
demo_retry_lem :
    (F : Float) (base factor longest : F.Carrier)
    → let p : RetryPolicy F.Carrier = record {
      attempts = 5;
      base_delay = base;
      factor = factor;
      max_delay = longest;
      jitter = false;
    } in
      lt F F.nought (raw_delay F p 2) ≡ true
      → lt F F.nought (raw_delay F p 3) ≡ true
      → demo_retry F base factor longest
        ≡ ok (heading ∷ remark ∷ number 3 ∷ delays (raw_delay F p 2 ∷ raw_delay F p 3 ∷ []) ∷ [])
unfolding demo_retry retry retry_from delay_for caught is_cancelled default_retryable is_exception
demo_retry_lem F base factor longest second third =
    rw (F.overflows-zero factor, F.overflows-one factor)
      (ground (arith, second, third, F.le_refl F.nought))
