-- ===== src/Sync/Tests.antt =====
-- Tests of the model of aiolab/sync.py, and its theorems at concrete inputs, with times in whole
-- ticks.
use asyncio_tests.Base.{
  ℕ, ◌+◌, ◌-◌, ◌/◌, ◌*◌, ◌≡◌, refl, true, false, List, [], ◌∷◌, if◌then◌else◌, leb, arith,
}
use asyncio_tests.Base.{map, some, get_elem?}
use asyncio_tests.Errors.{Result, ok, raised, failing, value_error, timeout_error, Async}
use asyncio_tests.Whole.{whole, whole-IsExact}
use asyncio_tests.Sync.Bucket.{TokenBucket, refill, available, try_acquire, acquire}
use asyncio_tests.Sync.Refill.{IsValid}
use asyncio_tests.Sync.Sharing.{
  Plan, World, now_of, sleep_through, reaching, is_granted, Settles, acquire-le-rate,
}
use asyncio_tests.Sync.Rate.{serve, backward_clock_mints}
use asyncio_tests.Sync.Acquire.{Sleeps, MakesUp, Granted, acquire-Granted}
use asyncio_tests.Sync.RwLock.{
  ReadWriteLock, Event as LockEvent, init, may_read, asleep, reads, writes, resumes, cancels,
  read_done, write_done, step, run,
}
use asyncio_tests.Sync.Exclusion.{IsSafe, inside, nobody, run-init-IsSafe}
use asyncio_tests.Sync.Counters.{schedule, start}
use asyncio_tests.Sync.Waiting.{wait_for_event}
use asyncio_tests.Sync.Resources.{
  ResourcePool, enters, leaves, pool_of, borrow_all, fresh, run_each,
}
use asyncio_tests.Sync.Lending.{IsWhole, borrow_all-pool_of-IsWhole, filled, run_each-fresh}
use asyncio_tests.Sync.Semaphore.{permits, use_permits, pool_of-refines}
use asyncio_tests.Sync.Wakeups.{IsSettled, run-init-IsSettled, cancelled_writer_strands}

-- One token a tick, four at most; two left at time 10.
abbrev bucket : TokenBucket ℕ
bucket = record { rate = 1; capacity = 4; tokens = 2; updated = 10 }

bucket-IsValid : IsValid whole bucket
bucket-IsValid = record { rate_nonneg = refl; tokens_nonneg = refl; tokens_bounded = refl }

abbrev requests : List (ℕ × ℕ)
requests = (10, 2) ∷ (10, 1) ∷ (13, 2) ∷ []

requests_served : serve whole bucket requests ≡ (4, record bucket { tokens = 1; updated = 13 })
unfolding serve try_acquire
requests_served = refl

-- Four tokens are asked for when there are two; while the call sleeps, another takes one.
acquire-le-rate_example :
    let plan : Plan whole = ((11, 1) ∷ [], 12) ∷ ([], 13) ∷ [] in
    let (granted, left) = serve whole bucket (reaching whole 4 bucket 10 plan) in
    (r : Result ℕ) × (w : World whole) × (acquire whole
        (now_of whole)
        (sleep_through whole)
        3
        4
        (bucket, (10, plan))
      ≡ some (r, (left, w)))
    × Settles whole (is_granted whole 4 bucket 10 plan) r
    × (leb granted (4 + (left.updated - 10) * 1) ≡ true)
unfolding serve try_acquire
acquire-le-rate_example =
    acquire-le-rate whole whole-IsExact 4 bucket 10 (((11, 1) ∷ [], 12) ∷ ([], 13) ∷ [])
      bucket-IsValid refl (refl, refl, (refl, refl, (refl, refl, (refl, refl, tt))))

granted_at_last : is_granted whole 4 bucket 10 (((11, 1) ∷ [], 12) ∷ ([], 13) ∷ []) ≡ true
unfolding serve try_acquire
granted_at_last = refl

four_at_last :
    serve whole bucket (reaching whole 4 bucket 10 (((11, 1) ∷ [], 12) ∷ ([], 13) ∷ []))
    ≡ (5, record bucket { tokens = 0; updated = 13 })
unfolding serve try_acquire
four_at_last = refl

looked_at : available whole bucket 11 ≡ (3, record bucket { tokens = 3; updated = 11 })
unfolding available refill
looked_at = refl

-- Two ticks back and forth mint two tokens.
backward_clock_mints_example :
    ((refill whole bucket 8).tokens ≡ 2) × ((refill whole (refill whole bucket 8) 10).tokens ≡ 4)
backward_clock_mints_example = backward_clock_mints whole bucket 8 refl refl

-- The clock is the outside world; a sleep moves it on by what it was asked, and by a tick at least.
abbrev clock : ℕ → ℕ
clock w = w

abbrev sleep : ℕ → Async (TokenBucket ℕ × ℕ) (Unit {0})
sleep d (b, w) = (ok tt, (b, w + (d + 1)))

sleep-Sleeps : Sleeps whole clock sleep
sleep-Sleeps d b w = (w + (d + 1), refl, ground arith, ground arith)

bucket-MakesUp : MakesUp whole clock sleep 1
bucket-MakesUp amount tokens elapsed h = ground arith

acquire-Granted_example :
    let full = refill whole bucket 11 in
    Granted whole clock sleep 4
      (acquire whole clock sleep 2 4 (bucket, 11))
      (if leb 4 full.tokens then 0 else 0 + (4 - full.tokens) / 1)
acquire-Granted_example =
    acquire-Granted whole clock sleep 0 4 bucket 11 bucket-MakesUp sleep-Sleeps refl

-- A reader inside, a writer behind it, and a second reader behind that.
abbrev behind : ReadWriteLock
behind = run init (reads ∷ writes ∷ reads ∷ [])

behind_waits : behind ≡ record {
  readers = 1;
  writer = false;
  waiting_writers = 1;
  waiters = asleep true ∷ asleep false ∷ [];
}
unfolding run init
behind_waits = refl

-- The writer goes in when the reader leaves, and then the second reader.
handed_over :
    run init
      (reads ∷ writes ∷ reads ∷ read_done ∷ resumes 1 ∷ resumes 0 ∷ write_done ∷ resumes 0 ∷ [])
    ≡ record { readers = 1; writer = false; waiting_writers = 0; waiters = [] }
unfolding run init
handed_over = refl

-- Two writers come, and the first leaves: the second is inside.
abbrev two_writers : List LockEvent
two_writers = writes ∷ writes ∷ reads ∷ write_done ∷ resumes 0 ∷ resumes 0 ∷ []

run-init-IsSafe_example : IsSafe (run init two_writers) (inside init nobody two_writers)
run-init-IsSafe_example = run-init-IsSafe two_writers

second_inside : inside init nobody two_writers ≡ record { reading = 0; writing = 1 }
unfolding step init
second_inside = refl

run-init-IsSettled_example : IsSettled (run init (reads ∷ writes ∷ read_done ∷ []))
run-init-IsSettled_example =
    run-init-IsSettled (reads ∷ writes ∷ read_done ∷ []) (tt, (tt, (tt, tt)))

cancelled_writer_strands_example :
    (may_read (step behind (cancels 0)) ≡ true)
    × (get_elem? (step behind (cancels 0)).waiters 0 ≡ some (asleep false))
    × (step (step behind (cancels 0)) (resumes 0) ≡ step behind (cancels 0))
unfolding run init
cancelled_writer_strands_example = cancelled_writer_strands behind 0 0 refl refl refl refl

-- Two calls in turn, the second of which first finds the lock taken.
both_counted : (schedule (start 2) (0 ∷ 1 ∷ 0 ∷ 1 ∷ 1 ∷ [])).value ≡ 2
unfolding schedule start
both_counted = refl

-- Two connections, 7 on top.
abbrev connections : ResourcePool ℕ
connections = record { free = 7 ∷ 5 ∷ []; size = 2; peak_in_use = 0; in_use = 0 }

-- The third borrower waits, and then gets what the first gives back.
lent :
    borrow_all
      (record { pool = connections; held = [] })
      (enters ∷ enters ∷ enters ∷ leaves 0 ∷ enters ∷ [])
    ≡ record {
      pool = record { free = []; size = 2; peak_in_use = 2; in_use = 2 };
      held = 5 ∷ 7 ∷ [];
    }
unfolding borrow_all
lent = refl

borrow_all-pool_of-IsWhole_example :
    IsWhole
      (5 ∷ 7 ∷ [])
      (borrow_all (record { pool = connections; held = [] }) (enters ∷ enters ∷ leaves 0 ∷ []))
unfolding pool_of
borrow_all-pool_of-IsWhole_example =
    borrow_all-pool_of-IsWhole (5 ∷ 7 ∷ []) connections (enters ∷ enters ∷ leaves 0 ∷ []) refl

-- The callers that come after the first success.
abbrev late_callers : List (Result ℕ)
late_callers = ok 4 ∷ raised value_error ∷ []

run_each-fresh_example :
    run_each fresh (failing (value_error ∷ []) (ok 3 ∷ late_callers))
    ≡ (failing (value_error ∷ []) (map (λ _. ok (some 3)) (ok 3 ∷ late_callers)), filled 3 2)
run_each-fresh_example = run_each-fresh (value_error ∷ []) 3 late_callers

pool_of-refines_example :
    let l =
      borrow_all (record { pool = connections; held = [] }) (enters ∷ enters ∷ leaves 0 ∷ []) in
    let s = use_permits (record { free = 2; taken = 0 }) (enters ∷ enters ∷ leaves 0 ∷ []) in
    (permits l ≡ s) × (l.pool.in_use ≡ s.taken)
unfolding pool_of
pool_of-refines_example =
    pool_of-refines (5 ∷ 7 ∷ []) connections (enters ∷ enters ∷ leaves 0 ∷ []) refl

-- The event does not come in time.
event_missed :
    wait_for_event {W = ℕ} {R = ℕ} (λ n m w. (raised timeout_error, w)) (λ w. (ok true, w)) 2 7
    ≡ (ok false, 7)
unfolding wait_for_event
event_missed = refl
