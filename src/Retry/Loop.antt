-- ===== src/Retry/Loop.antt =====
-- `retry` of aiolab/retry.py. What the caller passes (the factory, the sleeper, the random draw,
-- the predicate and the report) are arguments over any state of the outside world.
use asyncio_tests.Base.{ℕ, zero, suc, Bool, not, Option, none, some, if◌then◌else◌}
use asyncio_tests.Errors.{
  Exn, Result, ok, raised, Async, pure, raise, try_except, ◌>>=◌, ◌>>◌, is_cancelled,
  assertion_error, retry_error,
}
use asyncio_tests.Float.{Float, lt}
use asyncio_tests.Retry.Policy.{RetryPolicy, delay_for}

-- The arguments of `retry` other than the policy. A call without `on_retry` passes one that
-- returns at once.
pub record Hooks (R W A : Type 0) : Type 0 where
  pub factory : Async W A
  pub retry_on : Exn → Bool
  pub sleep : R → Async W (Unit {0})
  pub rand : Async W R
  pub on_retry : ℕ → Exn → R → Async W (Unit {0})

module _ (F : Float) {W A : Type 0} where
  open F use {Carrier, nought}

  -- The `except` clauses, with the rest of the loop.
  unfoldable pub caught :
      Hooks Carrier W A → ℕ → Carrier → (Option Exn → Async W A) → Result A → Async W A
  unfolding is_cancelled
  caught h attempt delay rest (ok v) = pure v
  caught h attempt delay rest (raised exc) =
      if is_cancelled exc
      then raise exc
      else if not (h.retry_on exc)
      then raise exc
      else (do h.on_retry attempt exc delay; rest (some exc))

  -- The `for` loop, with the number of rounds left and the attempt that is next.
  unfoldable pub retry_from :
      RetryPolicy Carrier → Hooks Carrier W A → ℕ → ℕ → Option Exn → Async W A
  unfolding caught
  retry_from p h zero attempt none = raise assertion_error
  retry_from p h zero attempt (some last) = raise (retry_error p.attempts last)
  retry_from p h (suc left) attempt last = do
    delay ← delay_for F p attempt h.rand
    if lt F nought delay then h.sleep delay else pure tt
    try_except h.factory (caught h attempt delay (retry_from p h left (suc attempt)))

  unfoldable pub retry : RetryPolicy Carrier → Hooks Carrier W A → Async W A
  unfolding retry_from
  retry p h = retry_from p h p.attempts 1 none
