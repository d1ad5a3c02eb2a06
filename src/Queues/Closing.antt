-- ===== src/Queues/Closing.antt =====
-- `aclose` and the context manager of `WorkerPool` in aiolab/queues.py. What happens while `aclose` waits
-- is a list of events: until `join` may return, and from then until the cancelled workers have ended.
use asyncio_tests.Base.{Bool, true, false, Option, none, some, List, if◌then◌else◌}
use asyncio_tests.Errors.{Exn}
use asyncio_tests.Queues.Pool.{PoolStats, WorkerPool, is_drained}
use asyncio_tests.Queues.Events.{Event, closes, forgets, all_ended, step, run}

abbrev pub is_none : Option Exn → Bool
is_none none = true
is_none (some e) = false

module _ {T R : Type 0} where
  -- `gather` of the cancelled workers, and what follows; `none` while it waits.
  abbrev pub gathered : WorkerPool T R → Option (PoolStats × WorkerPool T R)
  gathered p = if all_ended p.workers then some (p.stats, step p forgets) else none

  unfoldable pub aclose :
      Bool
      → List (Event T R)
      → List (Event T R)
      → WorkerPool T R
      → Option (PoolStats × WorkerPool T R)
  unfolding step run
  aclose true draining unwinding p =
      let drained = run (step p closes) draining in
      if is_drained drained then gathered (run drained unwinding) else none
  aclose false draining unwinding p = gathered (run (step p closes) unwinding)

  -- `__aexit__`, by the exception that the body has raised, if any.
  unfoldable pub aexit :
      Option Exn
      → List (Event T R)
      → List (Event T R)
      → WorkerPool T R
      → Option (PoolStats × WorkerPool T R)
  unfolding aclose
  aexit exc draining unwinding p = aclose (is_none exc) draining unwinding p
