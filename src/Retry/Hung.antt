-- ===== src/Retry/Hung.antt =====
-- `retry_with_timeout` of aiolab/retry.py against a service that never answers in time.
use asyncio_tests.Base.{ℕ, zero, suc, ◌+◌, ◌≤◌, ◌≡◌, none, some, arith}
use asyncio_tests.Errors.{ok, raised, Async, is_cancelled, timeout_error, retry_error}
use asyncio_tests.Float.{Float}
use asyncio_tests.Retry.Policy.{RetryPolicy, delay_for}
use asyncio_tests.Retry.Loop.{Hooks, retry_from, retry}
use asyncio_tests.Retry.Script.{Waits}
use asyncio_tests.Retry.Deadline.{deadline_retryable, retry_with_timeout}

module _ (F : Float) {A : Type 0} where
  open F use {Carrier, nought}

  -- The outside world counts the attempts, each of which is cut off.
  abbrev pub cut_off : Carrier → Async ℕ A → Async ℕ A
  cut_off seconds factory calls = (raised timeout_error, suc calls)

  abbrev hung :
      (Carrier → Async ℕ A → Async ℕ A) → Carrier → Async ℕ A → Carrier → Hooks Carrier ℕ A
  hung wait_for seconds factory r = record {
    factory = wait_for seconds factory;
    retry_on = deadline_retryable;
    sleep = λ d calls. (ok tt, calls);
    rand = λ calls. (ok r, calls);
    on_retry = λ n e d calls. (ok tt, calls);
  }

  hung_from :
      (wait_for : Carrier → Async ℕ A → Async ℕ A) (factory : Async ℕ A) (seconds r : Carrier)
      (p : RetryPolicy Carrier) (left n calls : ℕ)
      → ((c : ℕ) → wait_for seconds factory c ≡ (raised timeout_error, suc c))
      → Waits F p p.attempts
      → left + n ≤ suc p.attempts
      → retry_from F p (hung wait_for seconds factory r) left n (some timeout_error) calls
        ≡ (raised (retry_error p.attempts timeout_error), left + calls)
  unfolding retry_from delay_for is_cancelled deadline_retryable
  hung_from wait_for factory seconds r p zero n calls h waits few = ground arith
  hung_from wait_for factory seconds r p (suc left) n calls h waits few = ground (
    arith,
    h calls,
    waits n (omega (arith, few)),
    hung_from wait_for factory seconds r p left (suc n) (suc calls) h waits (omega (arith, few)),
  )

  first_from :
      (wait_for : Carrier → Async ℕ A → Async ℕ A) (factory : Async ℕ A) (seconds r : Carrier)
      (p : RetryPolicy Carrier) (attempts calls : ℕ)
      → 1 ≤ attempts
      → ((c : ℕ) → wait_for seconds factory c ≡ (raised timeout_error, suc c))
      → Waits F p p.attempts
      → attempts ≤ p.attempts
      → retry_from F p (hung wait_for seconds factory r) attempts 1 none calls
        ≡ (raised (retry_error p.attempts timeout_error), attempts + calls)
  unfolding retry_from delay_for is_cancelled deadline_retryable
  first_from wait_for factory seconds r p zero calls positive h waits few = absurd (omega arith)
  first_from wait_for factory seconds r p (suc left) calls positive h waits few = ground (
    arith,
    h calls,
    hung_from wait_for factory seconds r p left 2 (suc calls) h waits (omega (arith, few)),
  )

  -- A service whose every attempt is cut off by the deadline is called as often as the policy has
  -- attempts, one at least, and then `retry_with_timeout` raises `RetryError` with that number and
  -- the last `TimeoutError`. The sleeps return, no delay overflows, and every random draw is the same.
  pub hung_service_uses_attempts :
      (wait_for : Carrier → Async ℕ A → Async ℕ A) (factory : Async ℕ A) (seconds r : Carrier)
      (p : RetryPolicy Carrier) (calls : ℕ)
      → 1 ≤ p.attempts
      → ((c : ℕ) → wait_for seconds factory c ≡ (raised timeout_error, suc c))
      → Waits F p p.attempts
      → retry_with_timeout F wait_for factory seconds p (λ d c. (ok tt, c)) (λ c. (ok r, c)) calls
        ≡ (raised (retry_error p.attempts timeout_error), p.attempts + calls)
  unfolding retry_with_timeout retry
  hung_service_uses_attempts wait_for factory seconds r p calls positive h waits =
      first_from wait_for factory seconds r p p.attempts calls positive h waits (omega arith)
