-- ===== src/Queues/Endings.antt =====
-- Tests of how a pool of aiolab/queues.py ends, and the theorems on it at concrete inputs.
use asyncio_tests.Base.{
  ℕ, suc, ◌*◌, ◌≡◌, refl, true, false, some, List, [], ◌∷◌, leb, if◌then◌else◌, total, arith,
}
use asyncio_tests.Errors.{Result, ok, raised, value_error, cancelled, is_exception, is_cancelled}
use asyncio_tests.Queues.Pool.{PoolStats, WorkerPool, waiting, init, processed}
use asyncio_tests.Queues.Events.{
  Event, starts, submits, resumes, takes, handles, stops, closes, run, step,
}
use asyncio_tests.Queues.Outcomes.{kept, of_item, join-outcomes}
use asyncio_tests.Queues.Closing.{aclose}
use asyncio_tests.Queues.Final.{Finished, aclose-Finished}
use asyncio_tests.Queues.Stranded.{Unmoved, abort_strands, drain_loses_waiting}

-- A new pool of one worker over a queue of one.
abbrev pool : WorkerPool ℕ ℕ
pool = record {
  n_workers = 1;
  maxsize = 1;
  workers = [];
  queue = [];
  unfinished = 0;
  putters = [];
  closed = false;
  results = [];
  stats = record { submitted = 0; completed = 0; failed = 0; rejected = 0; errors = [] };
}

pool_is_new : init 1 1 ≡ ok pool
unfolding init
pool_is_new = refl

-- Squares, but cannot handle 7.
abbrev handler : ℕ → Result ℕ
handler n = if leb 7 n then raised value_error else ok (n * n)

-- Two items, the second of which waits for room; one fails.
abbrev history : List (Event ℕ ℕ)
history =
    starts
    ∷ submits 7
    ∷ submits 5
    ∷ takes 0
    ∷ resumes 0
    ∷ handles 0 (raised value_error) (ok tt)
    ∷ takes 0
    ∷ []

abbrev last : List (Event ℕ ℕ)
last = handles 0 (ok 25) (ok tt) ∷ []

-- How many outcomes are errors.
abbrev failures : Result ℕ → ℕ
failures (ok v) = 0
failures (raised e) = 1

abbrev all : List (Event ℕ ℕ)
all =
    starts
    ∷ submits 7
    ∷ submits 5
    ∷ takes 0
    ∷ resumes 0
    ∷ handles 0 (raised value_error) (ok tt)
    ∷ takes 0
    ∷ handles 0 (ok 25) (ok tt)
    ∷ []

join-outcomes_example :
    kept handler failures (run pool all) ≡ total (of_item handler failures) (7 ∷ 5 ∷ [])
unfolding run is_cancelled is_exception
join-outcomes_example =
    join-outcomes handler failures 1 1 pool all pool_is_new
      (tt, (tt, (tt, (tt, (tt, ((refl, refl), (tt, (refl, tt))))))))
      (tt, (tt, (tt, (tt, (tt, (refl, (tt, (refl, tt)))))))) refl refl

aclose-Finished_example : Finished (aclose true last (submits 3 ∷ stops 0 ∷ []) (run pool history))
unfolding run is_cancelled is_exception
aclose-Finished_example =
    aclose-Finished 1 1 pool history last (submits 3 ∷ stops 0 ∷ []) pool_is_new
      (tt, (tt, (tt, (tt, (tt, ((refl, refl), (tt, tt))))))) (refl, tt) refl refl refl

-- A worker busy with 1, a queue with 2, and 3 waiting for room.
abbrev busy : List (Event ℕ ℕ)
busy = starts ∷ submits 1 ∷ takes 0 ∷ submits 2 ∷ submits 3 ∷ []

abbrev aborting : List (Event ℕ ℕ)
aborting = handles 0 (raised cancelled) (ok tt) ∷ []

abbrev aborted : WorkerPool ℕ ℕ
aborted = record pool {
  queue = 2 ∷ [];
  unfinished = 1;
  putters = 3 ∷ [];
  closed = true;
  stats = record pool.stats { submitted = 3 };
}

aborted_so : aclose false [] aborting (run pool busy) ≡ some (aborted.stats, aborted)
unfolding aclose run is_cancelled
aborted_so = refl

abort_strands_example : Unmoved aborted (run aborted (resumes 0 ∷ takes 0 ∷ submits 4 ∷ []))
abort_strands_example =
    abort_strands (run pool busy) aborted aborted.stats aborting
      (resumes 0 ∷ takes 0 ∷ submits 4 ∷ []) aborted_so refl (tt, (tt, (tt, tt)))

-- The worker does both items without a pause, so that `join` may return before 3 is put.
abbrev at_once : List (Event ℕ ℕ)
at_once = handles 0 (ok 1) (ok tt) ∷ takes 0 ∷ handles 0 (ok 4) (ok tt) ∷ []

abbrev drained : WorkerPool ℕ ℕ
drained = record pool {
  workers = waiting ∷ [];
  putters = 3 ∷ [];
  closed = true;
  results = 1 ∷ 4 ∷ [];
  stats = record pool.stats { submitted = 3; completed = 2 };
}

drained_so : run (step (run pool busy) closes) at_once ≡ drained
unfolding run
drained_so = refl

drain_loses_waiting_example :
    (stats : PoolStats) × (q : WorkerPool ℕ ℕ) × (aclose true at_once
        (resumes 0 ∷ stops 0 ∷ [])
        (run pool busy)
      ≡ some (stats, q))
    × ((run q []).queue ≡ 3 ∷ [])
    × (suc (processed (run q []).stats) ≡ (run q []).stats.submitted)
unfolding run
drain_loses_waiting_example =
    drain_loses_waiting (run pool busy) drained 3 at_once (stops 0 ∷ []) [] drained_so
      (record { owed = refl; flow = refl }) (omega arith) refl refl (tt, tt) refl tt
