-- ===== src/Tasks/Tests.antt =====
-- Tests of the model of aiolab/tasks.py, and its theorems at concrete inputs.
use asyncio_tests.Base.{ℕ, ◌≡◌, refl, inr, true, some, List, [], ◌∷◌, All}
use asyncio_tests.Errors.{
  Result, ok, raised, errors_of, is_cancelled, concurrency_error, cancelled, value_error,
}
use asyncio_tests.Tasks.Group.{Task, pending, done, run_all}
use asyncio_tests.Tasks.Failures.{Failed, no_more, past_running, past_value, one_more}
use asyncio_tests.Tasks.RunAll.{IsDone, Unwinds, run_all-Ends, Ends}
use asyncio_tests.Tasks.Registry.{Event, spawns, ends, closes, new, run}
use asyncio_tests.Tasks.Scope.{aexit}

-- Every child that is cancelled ends as cancelled.
abbrev stopping : ℕ → Result ℕ
stopping i = raised cancelled

stopping-Unwinds : Unwinds stopping
unfolding is_cancelled
stopping-Unwinds i = refl

-- The second child has failed while the third still runs.
abbrev children : List (Task ℕ)
children = done (ok 1) ∷ done (raised value_error) ∷ pending ∷ []

failed_first : run_all (ok tt) stopping children ≡ (
  raised (concurrency_error (errors_of (value_error ∷ []))),
  done (ok 1) ∷ done (raised value_error) ∷ done (raised cancelled) ∷ [],
)
unfolding run_all is_cancelled
failed_first = refl

second-Failed : Failed children (value_error ∷ [])
second-Failed = past_value (one_more (λ e. cc) (past_running no_more))

run_all-Ends_example :
    Ends (ok tt) children (run_all (ok tt) stopping children).0
    × All IsDone (run_all (ok tt) stopping children).1
run_all-Ends_example =
    run_all-Ends (ok tt) stopping children stopping-Unwinds
      (inr (value_error ∷ [], second-Failed, λ e. cc))

abbrev events : List Event
events = spawns ∷ spawns ∷ ends 0 (ok tt) ∷ ends 1 (raised value_error) ∷ spawns ∷ closes ∷ []

all_seen : run new events ≡ record {
  registry = record {
    tasks = 2 ∷ [];
    closed = true;
    completed = 1;
    failed = 1;
    errors = value_error ∷ [];
  };
  made = 3;
  stopped = 0;
}
unfolding run new is_cancelled
all_seen = refl

-- A task that spawns another before it ends.
abbrev one_running : List Event
one_running = spawns ∷ spawns ∷ ends 0 (ok tt) ∷ []

abbrev spawning : List Event
spawning = spawns ∷ ends 1 (raised value_error) ∷ []

abbrev ending : List Event
ending = ends 2 (ok tt) ∷ []

-- A closed registry refuses what its tasks spawn.
closed_at_once :
    aexit (some value_error) [] (spawns ∷ ends 1 (raised cancelled) ∷ []) (run new one_running)
    ≡ some (record {
      registry = record { tasks = []; closed = true; completed = 1; failed = 0; errors = [] };
      made = 2;
      stopped = 1;
    })
unfolding aexit run new is_cancelled
closed_at_once = refl
