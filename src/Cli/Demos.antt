-- ===== src/Cli/Demos.antt =====
-- The demonstrations of aiolab/cli.py but for `demo_queue`: what they print. The clock, what the event
-- loop chooses, and the decimal fractions in the code, which are no whole numbers, are arguments.
use asyncio_tests.Base.{
  ℕ, zero, suc, ◌*◌, true, false, Option, none, some, List, [], ◌∷◌, ◌++◌, map, replicate, ltb,
  if◌then◌else◌,
}
use asyncio_tests.Errors.{
  Exn, Errors, Result, ok, raised, Async, pure, ◌>>=◌, cancelled, runtime_error, other,
  concurrency_error,
}
use asyncio_tests.Float.{Float}
use asyncio_tests.Basics.{delay, timed, run_sequential, run_concurrent}
use asyncio_tests.Retry.Policy.{default_retryable}
use asyncio_tests.Retry.Loop.{Hooks, retry}
use asyncio_tests.Streams.Source.{collect}
use asyncio_tests.Streams.Amap.{Batch, Outcome, amap}
use asyncio_tests.Sync.Bucket.{TokenBucket, init, acquire}
use asyncio_tests.Sync.Counters.{begun, turn, schedule, start}
use asyncio_tests.Tasks.Group.{Task, pending, done, run_all}

-- A line of output by its value. The labels, and what `demo_streams` says of its time, are left out.
pub data Line (R : Type 0) : Type 0 where
  -- the first line of a demonstration, and a fixed text
  heading remark : Line R
  seconds ratio : R → Line R
  delays : List R → Line R
  number : ℕ → Line R
  numbers : List ℕ → Line R
  error : Exn → Line R
  errors : Errors → Line R

-- `asyncio.gather` of many `RaceyCounter.increment`.
abbrev pub racey_value : ℕ → ℕ
racey_value n = let (value, calls) = turn 0 (replicate n begun) in (turn value calls).0

-- `demo_races`, with the number of calls, which is 1000 in the code, and the order in which the calls of
-- `SafeCounter.increment` run on.
unfoldable pub demo_races : {R : Type 0} → ℕ → List ℕ → List (Line R)
unfolding turn schedule start
demo_races n order = heading ∷ number (racey_value n) ∷ number (schedule (start n) order).value ∷ []

-- The children of `demo_tasks` when `asyncio.wait` returns: two that are slow and one that has failed.
abbrev pub children : List (Task ℕ)
children = pending ∷ pending ∷ done (raised runtime_error) ∷ []

-- The numbers of the children that are cancelled, which note it.
abbrev pub noted : ℕ → List (Task ℕ) → List ℕ
noted i [] = []
noted i (pending ∷ ts) = i ∷ noted (suc i) ts
noted i (done r ∷ ts) = noted (suc i) ts

-- The `except` clause of `demo_tasks`: other exceptions are passed on.
abbrev pub told : {R A : Type 0} → Result A → Result (List (Line R))
told (ok v) = ok []
told (raised (concurrency_error es)) = ok (error (concurrency_error es) ∷ errors es ∷ [])
told (raised e) = raised e

abbrev pub after_told :
    {R : Type 0} → Result (List (Line R)) → List (Line R) → Result (List (Line R))
after_told (ok lines) more = ok (heading ∷ lines ++ more)
after_told (raised e) more = raised e

unfoldable pub demo_tasks : {R : Type 0} → R → Result (List (Line R))
unfolding run_all
demo_tasks elapsed =
    after_told (told (run_all (ok tt) (λ i. raised cancelled) children).0)
      (numbers (noted 0 children) ∷ seconds elapsed ∷ [])

-- `range(n)`
abbrev pub range_from : ℕ → ℕ → List ℕ
range_from i zero = []
range_from i (suc n) = i ∷ range_from (suc i) n

abbrev pub squared : Outcome ℕ ℕ → Option (Result (List ℕ))
squared none = none
squared (some (values, end, left)) =
    some
      (collect
        (record { feed = record { items = values; end = end }; has_aclose = true; closed = false })
        none).0

-- `collect(amap(aiter_from(range(8)), slow_square))`, by the concurrency and the schedule.
unfoldable pub collect_squares : ℕ → List Batch → Option (Result (List ℕ))
unfolding amap collect
collect_squares concurrency schedule = squared (
    amap (record { items = range_from 0 8; end = ok tt }) (λ n. ok (n * n)) concurrency true
      schedule)

abbrev pub streams_lines :
    {R : Type 0} → R → Option (Result (List ℕ)) → Option (Result (List (Line R)))
streams_lines elapsed none = none
streams_lines elapsed (some (raised e)) = some (raised e)
streams_lines elapsed (some (ok out)) = some (ok (heading ∷ numbers out ∷ seconds elapsed ∷ []))

abbrev pub if_collected :
    {R : Type 0}
    → Option (Result (List ℕ))
    → Option (Result (List (Line R)))
    → Option (Result (List (Line R)))
if_collected none rest = none
if_collected (some (raised e)) rest = some (raised e)
if_collected (some (ok out)) rest = rest

-- `demo_streams`: a run that is timed, and one that is shown.
unfoldable pub demo_streams :
    {R : Type 0} → R → List Batch → List Batch → Option (Result (List (Line R)))
unfolding collect_squares
demo_streams elapsed first second =
    if_collected (collect_squares 4 first) (streams_lines elapsed (collect_squares 4 second))

module _ (F : Float) where
  open F use {Carrier, nought, one, add, div}

  module _ {W : Type 0} (clock : W → Carrier) (sleep : Carrier → Async W (Unit {0}))
      (gather : List (Async W ℕ) → Async W (List ℕ)) where
    abbrev pub factories : Carrier → List (Async W ℕ)
    factories pause = map (λ i. delay sleep i pause) (range_from 0 4)

    -- `demo_basics`, with the length of a delay.
    unfoldable pub demo_basics : Carrier → Async W (List (Line Carrier))
    unfolding timed run_sequential run_concurrent delay
    demo_basics pause = do
      (_, seq) ← timed F clock (run_sequential (factories pause))
      (_, con) ← timed F clock (run_concurrent gather (factories pause))
      pure (heading ∷ seconds seq ∷ seconds con ∷ ratio (div seq con) ∷ [])

  -- How often `flaky` has been called, and what has been slept.
  abbrev pub Calls : Type 0
  Calls = ℕ × List Carrier

  abbrev pub flaky : Async Calls (Unit {0})
  flaky (n, slept) =
      if ltb (suc n) 3 then (raised (other 0), (suc n, slept)) else (ok tt, (suc n, slept))

  abbrev pub flaky_hooks : Hooks Carrier Calls (Unit {0})
  flaky_hooks = record {
    factory = flaky;
    retry_on = default_retryable;
    sleep = λ d s. (ok tt, (s.0, s.1 ++ d ∷ []));
    rand = λ s. (ok one, s);
    on_retry = λ n e d s. (ok tt, s);
  }

  abbrev pub retry_lines : Result (Unit {0}) × Calls → Result (List (Line Carrier))
  retry_lines (ok _, (n, slept)) = ok (heading ∷ remark ∷ number n ∷ delays slept ∷ [])
  retry_lines (raised e, s) = raised e

  -- `demo_retry`, with the policy's base delay, and its default factor and longest delay.
  unfoldable pub demo_retry : Carrier → Carrier → Carrier → Result (List (Line Carrier))
  unfolding retry default_retryable
  demo_retry base factor longest = retry_lines (
      retry F
        (record {
          attempts = 5;
          base_delay = base;
          factor = factor;
          max_delay = longest;
          jitter = false;
        })
        flaky_hooks (0, []))

  -- The time that the injected clock shows, and what has been slept.
  abbrev pub Injected : Type 0
  Injected = Carrier × List Carrier

  abbrev pub shown : Injected → Carrier
  shown (now, slept) = now

  abbrev pub fake_sleep : Carrier → Async (TokenBucket Carrier × Injected) (Unit {0})
  fake_sleep pause (b, (now, slept)) = (ok tt, (b, (add now pause, slept ++ pause ∷ [])))

  abbrev pub Acquired : Type 0
  Acquired = Option (Result Carrier × (TokenBucket Carrier × Injected))

  abbrev pub then_more : Acquired → (TokenBucket Carrier × Injected → Acquired) → Acquired
  then_more none rest = none
  then_more (some (raised e, s)) rest = some (raised e, s)
  then_more (some (ok waited, s)) rest = rest s

  -- `n` calls of `acquire`, and one more that is reported; with fuel for each.
  unfoldable pub acquire_after : ℕ → ℕ → TokenBucket Carrier × Injected → Acquired
  unfolding acquire
  acquire_after fuel zero s = acquire F shown fake_sleep fuel one s
  acquire_after fuel (suc n) s =
      then_more (acquire F shown fake_sleep fuel one s) (acquire_after fuel n)

  abbrev pub ratelimit_lines : Acquired → Option (Result (List (Line Carrier)))
  ratelimit_lines none = none
  ratelimit_lines (some (raised e, s)) = some (raised e)
  ratelimit_lines (some (ok waited, (b, (now, slept)))) =
      some (ok (heading ∷ remark ∷ seconds waited ∷ seconds now ∷ []))

  abbrev pub with_bucket :
      Result (TokenBucket Carrier)
      → (TokenBucket Carrier → Option (Result (List (Line Carrier))))
      → Option (Result (List (Line Carrier)))
  with_bucket (raised e) rest = some (raised e)
  with_bucket (ok b) rest = rest b

  -- `demo_ratelimit`, with its rate, which is the capacity too.
  unfoldable pub demo_ratelimit : ℕ → Carrier → Option (Result (List (Line Carrier)))
  unfolding init acquire_after
  demo_ratelimit fuel rate =
      with_bucket (init F rate (some rate) nought)
        (λ b. ratelimit_lines (acquire_after fuel 5 (b, (nought, []))))
