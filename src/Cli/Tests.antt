-- ===== src/Cli/Tests.antt =====
-- Tests of the model of aiolab/cli.py, and its theorems at concrete inputs.
use asyncio_tests.Queues.Events.{Event, starts, submits, takes, handles, stops, run}
use asyncio_tests.Whole.{whole}
use asyncio_tests.Retry.Policy.{delay_for, raw_delay}
use asyncio_tests.Cli.Demos.{
  heading, ratio, demo_basics, remark, seconds, delays, number, numbers, error, errors, range_from,
  demo_tasks, demo_retry, demo_ratelimit,
}
use asyncio_tests.Cli.Pool.{handle, demo_queue}
use asyncio_tests.Basics.{timed, run_sequential, run_concurrent, delay}
use asyncio_tests.Base.{ℕ, ◌+◌, ◌≡◌, refl, none, some, List, [], ◌∷◌, ◌++◌}
use asyncio_tests.Errors.{
  ok, raised, Async, pure, ◌>>=◌, runtime_error, value_error, errors_of, concurrency_error,
  is_exception, is_cancelled,
}
use asyncio_tests.Cli.{
  Demo, basics, races, tasks, queue, streams, retry, ratelimit, Message, blank, demo_failed, main,
}
use asyncio_tests.Cli.Exit.{Exits, none_left, then_on, at_failure, main_lem}

-- What has been seen: demonstrations and messages.
pub data Seen : Type 0 where
  shown : Demo → Seen
  printed : Message → Seen

-- The third demonstration fails.
abbrev stage : Demo → Async (List Seen) (Unit {0})
stage tasks seen = (raised runtime_error, seen ++ shown tasks ∷ [])
stage d seen = (ok tt, seen ++ shown d ∷ [])

abbrev print : Message → List Seen → List Seen
print m seen = seen ++ printed m ∷ []

abbrev up_to_failure : List Seen
up_to_failure = shown basics ∷ printed blank ∷ shown races ∷ printed blank ∷ shown tasks ∷ []

one_demo : main stage print (some queue) [] ≡ (ok 0, shown queue ∷ [])
unfolding main
one_demo = refl

main_lem_example :
    Exits stage print (raised runtime_error, up_to_failure) (main stage print none [])
main_lem_example =
    main_lem stage print none (basics ∷ races ∷ [])
      (tasks ∷ queue ∷ streams ∷ retry ∷ ratelimit ∷ []) []
      (shown basics ∷ printed blank ∷ shown races ∷ []) (raised runtime_error, up_to_failure) refl
      (then_on refl (then_on refl none_left)) (at_failure refl)

third_fails :
    main stage print none [] ≡ (ok 1, up_to_failure ++ printed (demo_failed runtime_error) ∷ [])
unfolding main is_exception
third_fails = refl

-- One worker after the other item, while the other two wait.
abbrev one_by_one : List ℕ → List (Event ℕ ℕ)
one_by_one [] = []
one_by_one (n ∷ ns) = submits n ∷ takes 0 ∷ handles 0 (handle n) (ok tt) ∷ one_by_one ns

abbrev ten_handled : List (Event ℕ ℕ)
ten_handled = starts ∷ one_by_one (range_from 0 10)

ten_items :
    demo_queue {R = ℕ} ten_handled [] (stops 0 ∷ stops 1 ∷ stops 2 ∷ [])
    ≡ some (
        ok (heading ∷ number 10 ∷ number 9 ∷ number 1 ∷ errors (errors_of (value_error ∷ [])) ∷ []))
unfolding demo_queue run is_cancelled is_exception
ten_items = refl

siblings :
    demo_tasks {R = ℕ} 10
    ≡ ok (
        heading
        ∷ error (concurrency_error (errors_of (runtime_error ∷ [])))
        ∷ errors (errors_of (runtime_error ∷ []))
        ∷ numbers (0 ∷ 1 ∷ [])
        ∷ seconds 10
        ∷ [])
unfolding demo_tasks is_cancelled
siblings = refl

-- In whole ticks, at one token a tick and room for one: each call but the first waits a tick.
one_a_tick : demo_ratelimit whole 3 1 ≡ some (ok (heading ∷ remark ∷ seconds 1 ∷ seconds 5 ∷ []))
unfolding demo_ratelimit
one_a_tick = refl

doubling :
    demo_retry whole 100 2 30000 ≡ ok (heading ∷ remark ∷ number 3 ∷ delays (100 ∷ 200 ∷ []) ∷ [])
unfolding demo_retry delay_for raw_delay is_cancelled is_exception
doubling = refl

abbrev clock : ℕ → ℕ
clock t = t

abbrev sleep : ℕ → Async ℕ (Unit {0})
sleep d t = (ok tt, t + d)

-- For coroutines that all take as long as the first, the values of which nobody looks at.
abbrev gather : List (Async ℕ ℕ) → Async ℕ (List ℕ)
gather [] t = (ok [], t)
gather (f ∷ fs) t = (f >>= λ v. pure (v ∷ [])) t

four_times :
    demo_basics whole clock sleep gather 50 0
    ≡ (ok (heading ∷ seconds 200 ∷ seconds 50 ∷ ratio (whole.div 200 50) ∷ []), 250)
unfolding demo_basics timed run_sequential run_concurrent delay
four_times = refl
