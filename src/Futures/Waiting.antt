-- ===== src/Futures/Waiting.antt =====
-- `wait_any` and `shielded` of aiolab/futures.py. `asyncio.wait`, `wait_for` and `shield` are arguments.
use asyncio_tests.Base.{Option, none, some, List, [], ◌∷◌, if◌then◌else◌}
use asyncio_tests.Errors.{
  Result, ok, raised, Async, pure, raise, try_except, ◌>>=◌, value_error, timeout_error,
}
use asyncio_tests.Retry.Deadline.{is_timeout}

-- `next(iter(done))`, if any is done.
abbrev pub first_done : {T : Type 0} → List T → Result T
first_done [] = raised timeout_error
first_done (f ∷ done) = ok f

-- `wait` gives those of the futures that are done when `asyncio.wait` returns, in the order of the set.
unfoldable pub wait_any : {T : Type 0} → (List T → List T) → List T → Result T
wait_any wait [] = raised value_error
wait_any wait (f ∷ futures) = first_done (wait (f ∷ futures))

module _ {W A : Type 0} where
  -- The result, or `None` after a timeout.
  abbrev pub or_none : Result A → Async W (Option A)
  or_none (ok v) = pure (some v)
  or_none (raised e) = if is_timeout e then pure none else raise e

  unfoldable pub shielded :
      {R T : Type 0}
      → (R → Async W A → Async W A)
      → (T → Async W A)
      → Async W T
      → R
      → Async W (Option A)
  shielded wait_for shield ensure_future timeout = do
    task ← ensure_future
    try_except (wait_for timeout (shield task)) or_none
