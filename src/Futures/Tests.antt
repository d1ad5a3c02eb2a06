-- ===== src/Futures/Tests.antt =====
-- Tests of the model of aiolab/futures.py, and its theorems at concrete inputs.
use asyncio_tests.Base.{ℕ, ◌≡◌, refl, true, none, List, [], ◌∷◌}
use asyncio_tests.Errors.{
  Result, ok, raised, cancelled, errors_of, concurrency_error, value_error, timeout_error,
  is_cancelled,
}
use asyncio_tests.Tasks.Group.{Task, pending, done}
use asyncio_tests.Futures.Bridge.{Signal, resolves, rejects, bridge, tick, signals}
use asyncio_tests.Futures.Settling.{first_of}
use asyncio_tests.Futures.Fanout.{handed, as_completed_results, gather_with_index}
use asyncio_tests.Futures.Waiting.{wait_any, shielded}

-- A timeout and a late result, both from threads.
abbrev late : List (Signal ℕ)
late = rejects timeout_error ∷ resolves 3 ∷ []

late_is_lost : (tick (signals (bridge true) late)).future ≡ first_of late
unfolding tick signals bridge
late_is_lost = refl

-- The second child ends first.
abbrev ended : List (ℕ × Result ℕ)
ended = (1, raised value_error) ∷ (0, ok 5) ∷ []

abbrev gone : List (ℕ × Result ℕ)
gone = (2, raised cancelled) ∷ []

abbrev late_child : List (ℕ × Result ℕ)
late_child = (3, ok 8) ∷ []

abbrev uploads : List (Task ℕ)
uploads = done (raised value_error) ∷ done (ok 5) ∷ done (raised timeout_error) ∷ []

both_failures :
    gather_with_index uploads
    ≡ raised (concurrency_error (errors_of (value_error ∷ timeout_error ∷ [])))
unfolding gather_with_index is_cancelled
both_failures = refl

-- A cancelled child takes the one that still runs with it.
cancelled_fan_out :
    as_completed_results
      (λ i. raised cancelled)
      (handed ended ∷ handed gone ∷ handed late_child ∷ [])
    ≡ (raised cancelled, done (raised cancelled) ∷ [])
unfolding as_completed_results
cancelled_fan_out = refl

-- No future is done in time; one is; and there is none.
none_in_time : wait_any {T = ℕ} (λ fs. []) (4 ∷ 5 ∷ []) ≡ raised timeout_error
unfolding wait_any
none_in_time = refl

second_done : wait_any {T = ℕ} (λ fs. 5 ∷ []) (4 ∷ 5 ∷ []) ≡ ok 5
unfolding wait_any
second_done = refl

no_future : wait_any {T = ℕ} (λ fs. fs) [] ≡ raised value_error
unfolding wait_any
no_future = refl

-- The state is the task, which a timeout leaves running.
timed_out :
    shielded {W = Task ℕ} {A = ℕ} {R = ℕ}
      (λ n m s. (raised timeout_error, s))
      (λ t s. (ok 3, done (ok 3)))
      (λ s. (ok tt, pending))
      2
      pending
    ≡ (ok none, pending)
unfolding shielded
timed_out = refl
