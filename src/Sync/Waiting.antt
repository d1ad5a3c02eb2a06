-- ===== src/Sync/Waiting.antt =====
-- `wait_for_event` of aiolab/sync.py. `asyncio.wait_for` and `event.wait` are arguments.
use asyncio_tests.Base.{Bool, true, false, if◌then◌else◌}
use asyncio_tests.Errors.{Result, ok, raised, Async, pure, raise, try_except}
use asyncio_tests.Retry.Deadline.{is_timeout}

module _ {W : Type 0} where
  -- Whether the event came.
  abbrev pub has_come : Result Bool → Async W Bool
  has_come (ok _) = pure true
  has_come (raised e) = if is_timeout e then pure false else raise e

  unfoldable pub wait_for_event :
      {R : Type 0} → (R → Async W Bool → Async W Bool) → Async W Bool → R → Async W Bool
  wait_for_event wait_for wait timeout = try_except (wait_for timeout wait) has_come
