-- ===== src/Retry/Breaker.antt =====
-- `CircuitBreaker` of aiolab/retry.py. The breaker is shared: what runs during `await factory()`
-- may change it, so a coroutine's state is the breaker with the outside world, on which the clock
-- is read.
use asyncio_tests.Base.{ℕ, suc, Bool, true, false, Option, none, some, ltb, leb, if◌then◌else◌}
use asyncio_tests.Errors.{
  Result, ok, raised, Async, try_except, is_cancelled, is_exception, value_error, runtime_error,
  retry_error,
}
use asyncio_tests.Float.{Float}

pub record CircuitBreaker (R : Type 0) : Type 0 where
  pub threshold : ℕ
  pub reset_after : R
  pub failures : ℕ
  pub opened_at : Option R

pub data State : Type 0 where
  closed opened half_open : State

abbrev pub is_opened : State → Bool
is_opened opened = true
is_opened _ = false

-- `__init__`; `threshold` is a natural number, since one below 1 is refused.
unfoldable pub init : {R : Type 0} → ℕ → R → Result (CircuitBreaker R)
init threshold reset_after =
    if ltb threshold 1
    then raised value_error
    else ok (record {
      threshold = threshold;
      reset_after = reset_after;
      failures = 0;
      opened_at = none;
    })

unfoldable pub record_success : {R : Type 0} → CircuitBreaker R → CircuitBreaker R
record_success b = record b { failures = 0; opened_at = none }

-- `now` is what the clock shows, if it is read.
unfoldable pub record_failure : {R : Type 0} → CircuitBreaker R → R → CircuitBreaker R
record_failure b now =
    if leb b.threshold (suc b.failures)
    then record b { failures = suc b.failures; opened_at = some now }
    else record b { failures = suc b.failures }

module _ (F : Float) where
  open F use {Carrier, sub, le}

  unfoldable pub state : CircuitBreaker Carrier → Carrier → State
  state b now = elim b.opened_at [
    | none ↦ closed
    | some t ↦ if le b.reset_after (sub now t) then half_open else opened
  ]

  module _ {W : Type 0} (clock : W → Carrier) {A : Type 0} where
    -- What follows `await factory()`, by how it ended.
    unfoldable pub finish : Result A → Async (CircuitBreaker Carrier × W) A
    unfolding record_success record_failure is_cancelled is_exception
    finish (ok v) (b, w) = (ok v, (record_success b, w))
    finish (raised e) (b, w) =
        if is_cancelled e
        then (raised e, (b, w))
        else if is_exception e
        then (raised e, (record_failure b (clock w), w))
        else (raised e, (b, w))

    unfoldable pub call :
        Async (CircuitBreaker Carrier × W) A → Async (CircuitBreaker Carrier × W) A
    unfolding state finish
    call factory (b, w) =
        if is_opened (state b (clock w))
        then (raised (retry_error b.failures runtime_error), (b, w))
        else try_except factory finish (b, w)
