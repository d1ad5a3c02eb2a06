-- ===== src/Retry/Deadline.antt =====
-- `with_timeout` and `retry_with_timeout` of aiolab/retry.py. `asyncio.wait_for` is an argument.
use asyncio_tests.Base.{Bool, true, false, ◌||◌, Option, some, if◌then◌else◌}
use asyncio_tests.Errors.{Exn, Result, ok, raised, Async, pure, raise, try_except, timeout_error}
use asyncio_tests.Float.{Float}
use asyncio_tests.Retry.Policy.{RetryPolicy, default_retryable}
use asyncio_tests.Retry.Loop.{retry}

abbrev pub is_timeout : Exn → Bool
is_timeout timeout_error = true
is_timeout _ = false

-- The predicate of `retry_with_timeout`.
unfoldable pub deadline_retryable : Exn → Bool
unfolding default_retryable
deadline_retryable e = is_timeout e || default_retryable e

module _ (F : Float) {W A : Type 0} where
  open F use {Carrier}

  -- The default is `None` if none is given, and so is the result.
  abbrev pub or_default : Option A → Result A → Async W (Option A)
  or_default default (ok v) = pure (some v)
  or_default default (raised e) = if is_timeout e then pure default else raise e

  unfoldable pub with_timeout :
      (Carrier → Async W A → Async W A) → Async W A → Carrier → Option A → Async W (Option A)
  with_timeout wait_for factory seconds default =
      try_except (wait_for seconds factory) (or_default default)

  unfoldable pub retry_with_timeout :
      (Carrier → Async W A → Async W A)
      → Async W A
      → Carrier
      → RetryPolicy Carrier
      → (Carrier → Async W (Unit {0}))
      → Async W Carrier
      → Async W A
  unfolding retry deadline_retryable
  retry_with_timeout wait_for factory per_attempt_timeout p sleep rand = retry F p (record {
    factory = wait_for per_attempt_timeout factory;
    retry_on = deadline_retryable;
    sleep = sleep;
    rand = rand;
    on_retry = λ n e d w. (ok tt, w);
  })
