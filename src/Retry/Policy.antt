-- ===== src/Retry/Policy.antt =====
-- `RetryPolicy` and `default_retryable` of aiolab/retry.py. `attempts` is a natural number: the
-- code refuses what is below 1, so a negative one is refused as 0 is.
use asyncio_tests.Base.{ℕ, ◌-◌, Bool, false, ltb, leb, if◌then◌else◌}
use asyncio_tests.Errors.{
  Exn, Result, ok, raised, Async, pure, raise, overflow_error, ◌>>=◌, is_exception, value_error,
  type_error, key_error, attribute_error,
}
use asyncio_tests.Float.{Float, lt, min_of}

pub record RetryPolicy (R : Type 0) : Type 0 where
  pub attempts : ℕ
  pub base_delay : R
  pub factor : R
  pub max_delay : R
  pub jitter : Bool

unfoldable pub default_retryable : Exn → Bool
unfolding is_exception
default_retryable type_error = false
default_retryable value_error = false
default_retryable key_error = false
default_retryable attribute_error = false
default_retryable exc = is_exception exc

module _ (F : Float) where
  open F use {Carrier, nought, one, mul, pow, overflows, le}

  -- `__post_init__`: the policy, or what construction raises.
  unfoldable pub post_init : RetryPolicy Carrier → Result (RetryPolicy Carrier)
  post_init p =
      if ltb p.attempts 1
      then raised value_error
      else if lt F p.base_delay nought
      then raised value_error
      else if lt F p.factor one
      then raised value_error
      else ok p

  -- The delay before jitter, where the power does not overflow.
  unfoldable pub raw_delay : RetryPolicy Carrier → ℕ → Carrier
  raw_delay p attempt = min_of F p.max_delay (mul p.base_delay (pow p.factor (attempt - 2)))

  unfoldable pub delay_for :
      {W : Type 0} → RetryPolicy Carrier → ℕ → Async W Carrier → Async W Carrier
  delay_for p attempt rand =
      if leb attempt 1
      then pure nought
      else if overflows p.factor (attempt - 2)
      then raise overflow_error
      else if p.jitter
      then (do r ← rand; pure (mul (raw_delay p attempt) r))
      else pure (raw_delay p attempt)
