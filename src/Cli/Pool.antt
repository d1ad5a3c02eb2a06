-- ===== src/Cli/Pool.antt =====
-- `demo_queue` of aiolab/cli.py: three workers, a queue of four, and one item that cannot be handled.
use asyncio_tests.Base.{ℕ, ◌*◌, ◌==◌, Option, none, some, List, [], ◌∷◌, if◌then◌else◌}
use asyncio_tests.Errors.{Result, ok, raised, errors_of, value_error}
use asyncio_tests.Queues.Pool.{PoolStats, WorkerPool, init}
use asyncio_tests.Queues.Events.{Event, run}
use asyncio_tests.Queues.Closing.{aexit}
use asyncio_tests.Cli.Demos.{Line, heading, number, errors}

abbrev pub handle : ℕ → Result ℕ
handle n = if n == 7 then raised value_error else ok (n * n)

abbrev pub stats_lines : {R : Type 0} → PoolStats → List (Line R)
stats_lines s =
    heading
    ∷ number s.submitted
    ∷ number s.completed
    ∷ number s.failed
    ∷ errors (errors_of s.errors)
    ∷ []

abbrev pub pool_lines :
    {R : Type 0} → Option (PoolStats × WorkerPool ℕ ℕ) → Option (Result (List (Line R)))
pool_lines none = none
pool_lines (some (stats, p)) = some (ok (stats_lines stats))

abbrev pub with_pool :
    {R : Type 0}
    → Result (WorkerPool ℕ ℕ)
    → (WorkerPool ℕ ℕ → Option (Result (List (Line R))))
    → Option (Result (List (Line R)))
with_pool (raised e) rest = some (raised e)
with_pool (ok p) rest = rest p

-- The events up to the end of the `async with` block, and those while it is left.
unfoldable pub demo_queue :
    {R : Type 0}
    → List (Event ℕ ℕ)
    → List (Event ℕ ℕ)
    → List (Event ℕ ℕ)
    → Option (Result (List (Line R)))
unfolding init run aexit
demo_queue events draining unwinding =
    with_pool (init 3 4) (λ p. pool_lines (aexit none draining unwinding (run p events)))
