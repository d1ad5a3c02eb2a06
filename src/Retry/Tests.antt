-- ===== src/Retry/Tests.antt =====
-- Tests of the model of aiolab/retry.py, and its theorems at concrete inputs, with times in whole
-- ticks.
use asyncio_tests.Base.{leb, Bool, false, none, ℕ, suc, ◌≡◌, refl, true, some, List, [], ◌∷◌, arith}
use asyncio_tests.Errors.{
  failing, Exn, Result, ok, raised, Async, cancelled, overflow_error, timeout_error, other,
  retry_error, is_cancelled, is_exception,
}
use asyncio_tests.Retry.Deadline.{with_timeout}
use asyncio_tests.Retry.Hung.{cut_off}
use asyncio_tests.Float.{Float}
use asyncio_tests.Whole.{whole}
use asyncio_tests.Retry.Policy.{RetryPolicy, default_retryable, raw_delay, delay_for}
use asyncio_tests.Retry.Loop.{retry}
use asyncio_tests.Retry.Script.{scripted, fresh}
use asyncio_tests.Retry.Outcome.{retry-Final, retry-exhausted}
use asyncio_tests.Retry.Breaker.{CircuitBreaker, init}
use asyncio_tests.Retry.Machine.{Event, begins, ends, counting, mode_of, let_through}
use asyncio_tests.Retry.Refines.{let_through-Refines}

abbrev policy : RetryPolicy ℕ
policy = record { attempts = 3; base_delay = 1; factor = 2; max_delay = 5; jitter = true }

abbrev draw : Async (Unit {0}) ℕ
draw w = (ok 1, w)

abbrev answers : List (Result ℕ)
answers = ok 7 ∷ []

abbrev failures : List Exn
failures = other 1 ∷ timeout_error ∷ []

retry-Final_example :
    retry whole policy (scripted whole default_retryable 1) (fresh (failing failures answers)) ≡ (
      ok 7,
      record {
        outcomes = [];
        slept = 1 ∷ 2 ∷ [];
        reports = (1, other 1, 0) ∷ (2, timeout_error, 1) ∷ [];
      },
    )
unfolding default_retryable is_cancelled raw_delay
retry-Final_example =
    retry-Final whole policy default_retryable 1 failures (ok 7) [] (refl, refl, (refl, refl, tt))
      tt (omega arith) (λ n few. refl)

-- A cancellation on the second attempt comes through at once.
retry-cancelled :
    retry whole policy
      (scripted whole default_retryable 1)
      (fresh (raised (other 1) ∷ raised cancelled ∷ answers))
    ≡ (
      raised cancelled,
      record { outcomes = answers; slept = 1 ∷ []; reports = (1, other 1, 0) ∷ [] },
    )
unfolding retry default_retryable is_cancelled raw_delay delay_for
retry-cancelled = refl

abbrev three_failures : List Exn
three_failures = other 1 ∷ timeout_error ∷ other 2 ∷ []

retry-exhausted_example :
    retry whole policy (scripted whole default_retryable 1) (fresh (failing three_failures answers))
    ≡ (
      raised (retry_error 3 (other 2)),
      record {
        outcomes = answers;
        slept = 1 ∷ 2 ∷ [];
        reports = (1, other 1, 0) ∷ (2, timeout_error, 1) ∷ (3, other 2, 2) ∷ [];
      },
    )
unfolding default_retryable is_cancelled raw_delay
retry-exhausted_example =
    retry-exhausted whole policy default_retryable 1 three_failures (other 2) answers
      (refl, refl, (refl, refl, (refl, refl, tt))) refl refl (λ n few. refl)

-- Floats so narrow that a square overflows: the delay before the fourth attempt does.
abbrev narrow : Float
narrow = record whole {
  overflows = λ x n. leb 2 n;
  overflows-zero = λ x. refl;
  overflows-one = λ x. refl;
}

retry-overflows :
    retry narrow
      (record policy { attempts = 5 })
      (scripted narrow default_retryable 1)
      (fresh (failing three_failures answers))
    ≡ (
      raised overflow_error,
      record {
        outcomes = answers;
        slept = 1 ∷ 2 ∷ [];
        reports = (1, other 1, 0) ∷ (2, timeout_error, 1) ∷ (3, other 2, 2) ∷ [];
      },
    )
unfolding retry default_retryable is_cancelled raw_delay delay_for
retry-overflows = refl

abbrev breaker : CircuitBreaker ℕ
breaker = record { threshold = 2; reset_after = 5; failures = 0; opened_at = none }

-- The second failure, of a call that began before the first, trips the breaker; a call is refused, and
-- then a probe succeeds while another call goes by.
abbrev calls : List (Event ℕ ℕ)
calls =
    begins 0
    ∷ begins 1
    ∷ ends (raised (other 1)) 2
    ∷ begins 3
    ∷ ends (raised (other 2)) 4
    ∷ begins 6
    ∷ begins 9
    ∷ ends (raised cancelled) 9
    ∷ begins 10
    ∷ ends (ok 5) 11
    ∷ begins 11
    ∷ []

abbrev let_through_calls : List Bool
let_through_calls = true ∷ true ∷ true ∷ false ∷ true ∷ true ∷ true ∷ []

let_through-Refines_example :
    ((let_through whole calls breaker).0 ≡ let_through_calls)
    × (mode_of (let_through whole calls breaker).1 ≡ counting 0)
unfolding init is_cancelled is_exception
let_through-Refines_example = let_through-Refines whole 2 5 breaker calls refl

-- The clock is the outside world.
abbrev clock : ℕ → ℕ
clock w = w

-- A service that counts its calls and answers 5.
abbrev service : Async ℕ ℕ
service calls = (ok 5, suc calls)

-- A deadline that is met leaves the answer, and one that is missed gives the default.
deadline_met : with_timeout whole (λ seconds f. f) service 1 (some 9) 0 ≡ (ok (some 5), 1)
unfolding with_timeout
deadline_met = refl

deadline_missed : with_timeout whole (cut_off whole) service 1 (some 9) 0 ≡ (ok (some 9), 1)
unfolding with_timeout
deadline_missed = refl
