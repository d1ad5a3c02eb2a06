-- ===== src/Queues/Tests.antt =====
-- Tests of the model of aiolab/queues.py, and its theorems at concrete inputs.
use asyncio_tests.Queues.Bounded.{Queue, produce, exchange}
use asyncio_tests.Queues.Exchange.{Arrives, exchange-Arrives}
use asyncio_tests.Queues.Batching.{Read, read, batched}
use asyncio_tests.Queues.Partial.{LosesLast, fails_after, batched-Loses}
use asyncio_tests.Queues.Batches.{
  concat, Batches, items, rounds, batched-Batches, poisoned_never_ends,
}
use asyncio_tests.Base.{arith, some, none, ℕ, ◌+◌, ◌≡◌, refl, true, false, List, [], ◌∷◌, ◌++◌}
use asyncio_tests.Errors.{
  timeout_error, ok, raised, value_error, runtime_error, is_exception, is_cancelled,
}
use asyncio_tests.Queues.Pool.{PoolStats, WorkerPool, waiting, init, is_drained}
use asyncio_tests.Queues.Events.{
  Event, starts, submits, tries, resumes, takes, handles, closes, run, step,
}
use asyncio_tests.Queues.Order.{all_leaving}
use asyncio_tests.Queues.Accounting.{IsSound, run-init-IsSound}
use asyncio_tests.Queues.Leak.{raising_report_hangs}

-- A new pool of two workers over a queue of one.
abbrev pool : WorkerPool ℕ ℕ
pool = record {
  n_workers = 2;
  maxsize = 1;
  workers = [];
  queue = [];
  unfinished = 0;
  putters = [];
  closed = false;
  results = [];
  stats = record { submitted = 0; completed = 0; failed = 0; rejected = 0; errors = [] };
}

pool_is_new : init 2 1 ≡ ok pool
unfolding init
pool_is_new = refl

-- Two items, of which the second waits for room; one fails and one succeeds; a third is shed.
abbrev history : List (Event ℕ ℕ)
history =
    starts
    ∷ submits 7
    ∷ submits 8
    ∷ tries 9
    ∷ takes 0
    ∷ resumes 0
    ∷ takes 1
    ∷ handles 0 (raised value_error) (ok tt)
    ∷ handles 1 (ok 64) (ok tt)
    ∷ closes
    ∷ []

abbrev outcome : PoolStats
outcome = record {
  submitted = 2;
  completed = 1;
  failed = 1;
  rejected = 1;
  errors = value_error ∷ [];
}

history_ends : run pool history ≡ record pool {
  workers = waiting ∷ waiting ∷ [];
  closed = true;
  results = 64 ∷ [];
  stats = outcome;
}
unfolding run is_exception is_cancelled
history_ends = refl

both_in_order : all_leaving pool history ≡ 7 ∷ 8 ∷ []
unfolding step
both_in_order = refl

-- Four come in batches of two, with a timeout before the second, and the fourth is lost.
abbrev four : List (Read ℕ)
four = read 0 (ok 5) ∷ read 1 (ok 6) ∷ read 0 (ok 7) ∷ read 0 (ok 8) ∷ []

batched-Loses_example :
    (bs : List (List ℕ)) × (lost : List ℕ) × LosesLast value_error 2 bs lost
      (batched (0 + rounds four) 2 four)
      (batched (0 + rounds four) 2 (fails_after value_error four))
    × (concat bs ++ lost ≡ items four)
batched-Loses_example =
    batched-Loses value_error 0 2 four refl (omega arith) (tt, (tt, (tt, (tt, tt))))

two_batches :
    batched 6 2 (fails_after value_error four)
    ≡ some ((5 ∷ []) ∷ (6 ∷ 7 ∷ []) ∷ [], raised value_error)
unfolding batched
two_batches = refl

run-init-IsSound_example : IsSound (run pool history)
run-init-IsSound_example = run-init-IsSound 2 1 pool history pool_is_new

-- A worker has the item 7 in hand.
abbrev busy : List (Event ℕ ℕ)
busy = starts ∷ submits 7 ∷ takes 0 ∷ []

raising_report_hangs_example :
    is_drained
      (run (run pool busy) (handles 0 (ok 49) (raised runtime_error) ∷ takes 1 ∷ closes ∷ []))
    ≡ false
unfolding run
raising_report_hangs_example =
    raising_report_hangs (run pool busy) 0 7 49 runtime_error (takes 1 ∷ closes ∷ [])
      (run-init-IsSound 2 1 pool busy pool_is_new) refl

-- Three items in batches of two, with a timeout before the second.
abbrev feed : List (Read ℕ)
feed = read 0 (ok 1) ∷ read 1 (ok 2) ∷ read 0 (ok 3) ∷ []

fed : batched 5 2 feed ≡ some ((1 ∷ []) ∷ (2 ∷ 3 ∷ []) ∷ [], ok tt)
unfolding batched
fed = refl

batched-Batches_example : Batches 2 (items feed) (batched (0 + rounds feed) 2 feed)
batched-Batches_example = batched-Batches 0 2 feed (omega arith) (tt, (tt, (tt, tt)))

abbrev poisoned_feed : List (Read ℕ)
poisoned_feed = read 0 (ok 1) ∷ read 0 (raised timeout_error) ∷ []

poisoned_never_ends_example : batched 100 2 poisoned_feed ≡ none
poisoned_never_ends_example = poisoned_never_ends 100 2 poisoned_feed (omega arith) refl

-- Room for two, three to put, and a consumer that drains three times.
abbrev small : Queue ℕ
small = record { maxsize = 2; items = []; unfinished = 0 }

abbrev to_put : List ℕ
to_put = 1 ∷ 2 ∷ 3 ∷ []

put_in_turn :
    produce small to_put ≡ (record { maxsize = 2; items = 1 ∷ 2 ∷ []; unfinished = 2 }, 3 ∷ [])
unfolding produce
put_in_turn = refl

exchange-Arrives_example : Arrives small to_put (exchange 3 small to_put)
exchange-Arrives_example = exchange-Arrives 3 small to_put (omega arith) refl
