-- ===== src/Streams/Tests.antt =====
-- Tests of the model of aiolab/streams.py, and its theorems at concrete inputs.
use asyncio_tests.Base.{
  arith, suc, ℕ, ◌+◌, ◌≡◌, ◌≤◌, ◌<◌, ◌⊎◌, refl, true, false, Option, some, none, List, [], ◌∷◌,
  length, map, ◌*◌, leb, if◌then◌else◌,
}
use asyncio_tests.Errors.{Result, ok, raised, Async, value_error}
use asyncio_tests.Whole.{whole}
use asyncio_tests.Sync.Bucket.{TokenBucket}
use asyncio_tests.Sync.Acquire.{Sleeps, MakesUp}
use asyncio_tests.Streams.Source.{Feed, Source, collect}
use asyncio_tests.Streams.Collecting.{Gives, Closes, collect_lem}
use asyncio_tests.Streams.Break.{left_off, break_off}
use asyncio_tests.Streams.Breaking.{LeavesOff, break_off-LeavesOff}
use asyncio_tests.Streams.Chain.{collect_amap, until_amap}
use asyncio_tests.Streams.Window.{answers}
use asyncio_tests.Streams.Stranded.{until_amap-strands}
use asyncio_tests.Streams.Until.{before_read, during_read}
use asyncio_tests.Streams.Amap.{Amap, Batch, fill_up, amap}
use asyncio_tests.Streams.InOrder.{serial, SameAs, amap-SameAs-serial}
use asyncio_tests.Streams.EachOnce.{EachOnce, amap-EachOnce}
use asyncio_tests.Streams.InFlight.{Reach, start, next, load, tasks_of, Reach-bound}
use asyncio_tests.Streams.Merge.{merge}
use asyncio_tests.Streams.Lanes.{Chooses, MergesAll, merge-MergesAll}
use asyncio_tests.Streams.Throttle.{throttle}

abbrev three : Feed ℕ
three = record { items = 5 ∷ 6 ∷ 7 ∷ []; end = ok tt }

abbrev generator : Source ℕ
generator = record { feed = three; has_aclose = true; closed = false }

-- A limit of 0 collects one item.
collect_zero : (collect generator (some 0)).0 ≡ ok (5 ∷ [])
unfolding collect
collect_zero = refl

collect_lem_example :
    let (all, after) = collect generator none in
    let (some_items, after_limit) = collect generator (some 2) in
    (Gives (ok tt) (5 ∷ 6 ∷ 7 ∷ []) all × Closes generator [] after)
    × ((2 ≤ 3) × (some_items ≡ ok (5 ∷ 6 ∷ [])) × Closes generator (7 ∷ []) after_limit
        ⊎ (3 < 2) × Gives (ok tt) (5 ∷ 6 ∷ 7 ∷ []) some_items × Closes generator [] after_limit)
collect_lem_example = collect_lem generator 2

-- Doubles, but refuses 7.
abbrev double : ℕ → Result ℕ
double n = if leb n 6 then ok (n + n) else raised value_error

abbrev any_schedule : List Batch
any_schedule = (1, 0 ∷ []) ∷ (0, []) ∷ (0, []) ∷ (0, []) ∷ []

-- In order, with two in flight; the failure ends it.
two_doubled : amap three double 2 true any_schedule ≡ some (10 ∷ 12 ∷ [], raised value_error, [])
unfolding amap
two_doubled = refl

amap-SameAs-serial_example :
    SameAs (serial double (5 ∷ 6 ∷ 7 ∷ [])) (amap three double 2 true any_schedule)
amap-SameAs-serial_example =
    amap-SameAs-serial double (5 ∷ 6 ∷ 7 ∷ []) 2 any_schedule (omega arith) (omega arith)

-- As they come, the second task first.
as_they_come :
    amap three (λ n. ok (n * n)) 2 false any_schedule ≡ some (36 ∷ 25 ∷ 49 ∷ [], ok tt, [])
unfolding amap
as_they_come = refl

-- As they come, with 7 refused in the first round, while the others run.
some_doubled :
    amap three double 3 false ((2, 0 ∷ []) ∷ any_schedule)
    ≡ some ([], raised value_error, 5 ∷ 6 ∷ [])
unfolding amap
some_doubled = refl

amap-EachOnce_example :
    EachOnce double [] (5 ∷ 6 ∷ 7 ∷ []) (amap three double 3 false ((2, 0 ∷ []) ∷ any_schedule))
amap-EachOnce_example =
    amap-EachOnce double false (5 ∷ 6 ∷ 7 ∷ []) 3 ((2, 0 ∷ []) ∷ any_schedule) (omega arith)
      (omega arith)

-- After one round one result is out and one task is in flight.
abbrev after_one : Amap ℕ
after_one = record { in_flight = 6 ∷ []; items = 7 ∷ []; end = ok tt; exhausted = false }

one_round : Reach true double 2 three after_one 1
unfolding amap
one_round = next (0, []) start refl

Reach-bound_example : (length (tasks_of (fill_up 2 after_one)) ≤ 2) × (1 + load after_one ≡ 3)
Reach-bound_example = Reach-bound true double 2 three after_one 1 one_round

-- The first source with a read pending.
abbrev first_pending : List (Option (Feed ℕ)) → ℕ
first_pending [] = 0
first_pending (none ∷ lanes) = suc (first_pending lanes)
first_pending (some source ∷ lanes) = 0

first_pending-Chooses : Chooses first_pending
first_pending-Chooses [] h = cc
first_pending-Chooses (none ∷ lanes) h = first_pending-Chooses lanes h
first_pending-Chooses (some source ∷ lanes) h = (source, refl)

abbrev two_sources : List (Feed ℕ)
two_sources = three ∷ record { items = 8 ∷ []; end = ok tt } ∷ []

merge-MergesAll_example : MergesAll (map some two_sources) (merge first_pending 7 two_sources)
merge-MergesAll_example =
    merge-MergesAll first_pending 7 two_sources first_pending-Chooses (refl, (refl, tt))
      (omega arith)

abbrev clock : ℕ → ℕ
clock w = w

-- A sleep moves the clock on by what it was asked, and by a tick at least.
abbrev sleep : ℕ → Async (TokenBucket ℕ × ℕ) (Unit {0})
sleep d (b, w) = (ok tt, (b, w + (d + 1)))

sleep-Sleeps : Sleeps whole clock sleep
sleep-Sleeps d b w = (w + (d + 1), refl, ground arith, ground arith)

one_each-MakesUp : MakesUp whole clock sleep 1
one_each-MakesUp amount tokens elapsed h = ground arith

all_paced : throttle whole clock sleep (λ w. w) 2 three 1 10 ≡ some (5 ∷ 6 ∷ 7 ∷ [], ok tt)
unfolding throttle
all_paced = refl

-- Two in flight, of which the one that ends second is in the same batch, and is dropped.
break_off-LeavesOff_example :
    LeavesOff false double 2 three 0 1 (break_off three double 2 false ((0, 0 ∷ []) ∷ []) 1)
break_off-LeavesOff_example =
    break_off-LeavesOff false double 2 three ((0, 0 ∷ []) ∷ []) 1 (omega arith) (omega arith)
      (omega arith)

one_taken :
    break_off three double 2 false ((0, 0 ∷ []) ∷ []) 1
    ≡ some (left_off (10 ∷ []) (6 ∷ []) (7 ∷ []))
unfolding break_off
one_taken = refl

abbrev twice : ℕ → ℕ
twice n = n + n

-- One of two tasks has been awaited; that of the next item is in flight.
until_amap-strands_example :
    let source : Feed ℕ = record { items = 5 ∷ 6 ∷ 7 ∷ []; end = ok tt } in
    (collect_amap source (answers twice) 2 true ((0, []) ∷ []) 1
      ≡ some (record { received = 10 ∷ []; end = ok tt; cancelled = 6 ∷ []; running = [] }))
    × (until_amap source (answers twice) 2 true ((0, []) ∷ []) (during_read 1)
        ≡ some (record { received = 10 ∷ []; end = ok tt; cancelled = 6 ∷ 7 ∷ []; running = [] }))
    × (until_amap source (answers twice) 2 true ((0, []) ∷ []) (before_read 1)
        ≡ some (record { received = 10 ∷ []; end = ok tt; cancelled = []; running = 6 ∷ [] }))
until_amap-strands_example =
    until_amap-strands twice 2 (5 ∷ 6 ∷ 7 ∷ []) ((0, []) ∷ []) 0 (omega arith) (omega arith)
      (omega arith)
