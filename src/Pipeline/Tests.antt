-- ===== src/Pipeline/Tests.antt =====
-- The pipeline of examples/pipeline_demo.py at small inputs, over whole numbers.
use asyncio_tests.Base.{
  ℕ, none, length, total, replicate, ◌+◌, ◌≡◌, refl, true, some, List, [], ◌∷◌, map, arith,
}
use asyncio_tests.Errors.{ok, raised, Async}
use asyncio_tests.Whole.{whole}
use asyncio_tests.Retry.Policy.{RetryPolicy}
use asyncio_tests.Sync.Bucket.{TokenBucket}
use asyncio_tests.Sync.Acquire.{Sleeps, MakesUp}
use asyncio_tests.Streams.Amap.{Batch}
use asyncio_tests.Streams.Until.{never}
use asyncio_tests.Queues.Batches.{concat}
use asyncio_tests.Queues.Events.{takes, handles, stops}
use asyncio_tests.Pipeline.{
  FlakyServer, World, Line, heading, text_of, demo_pages, first_line, index_error,
}
use asyncio_tests.Pipeline.Fetching.{Quiet}
use asyncio_tests.Pipeline.Titles.{parse_all, parse_all_lem}
use asyncio_tests.Pipeline.Traffic.{Event, asks, wakes, cancels, start, run}
use asyncio_tests.Pipeline.Counting.{IsCounted, run-start-IsCounted}
use asyncio_tests.Pipeline.Batching.{title_batches}
use asyncio_tests.Pipeline.Writing.{Figures, Turns, figures, main, with_writer, submit_all}
use asyncio_tests.Pipeline.Ending.{main_writes_all, main_hangs}
use asyncio_tests.Pipeline.InTurn.{in_turn, main_returns}
use asyncio_tests.Pipeline.Report.{AreTurns}

abbrev trip : ℕ → ℕ
trip t = t + 1

abbrev clock : FlakyServer × ℕ → ℕ
clock (server, t) = t

-- A sleep moves the clock on by what it was asked, and by a tick at least.
abbrev sleep : ℕ → Async (World whole demo_pages trip) (Unit {0})
sleep d (b, (server, t)) = (ok tt, (b, (server, t + (d + 1))))

sleep-Sleeps : Sleeps whole clock sleep
sleep-Sleeps d b (server, t) = ((server, t + (d + 1)), refl, ground arith, ground arith)

one_each-MakesUp : MakesUp whole clock sleep 1
one_each-MakesUp amount tokens elapsed h = ground arith

abbrev policy : RetryPolicy ℕ
policy = record { attempts = 3; base_delay = 2; factor = 2; max_delay = 30; jitter = true }

sleep-Quiet : Quiet whole demo_pages trip clock sleep 0 policy
sleep-Quiet d (b, (server, t)) = refl

abbrev server : FlakyServer
server = record { seen = []; requests = 0; failures = 0 }

abbrev bucket : TokenBucket ℕ
bucket = record { rate = 1; capacity = 10; tokens = 0; updated = 0 }

-- A page without lines.
no_line : first_line {L = Line} [] ≡ raised index_error
no_line = refl

parse_all_lem_example :
    (s : World whole demo_pages trip) × (parse_all whole demo_pages trip clock sleep 0 policy 2
        (1 ∷ 2 ∷ 3 ∷ [])
        (bucket, (server, 0))
      ≡ some (ok (map heading (1 ∷ 2 ∷ 3 ∷ [])), s))
    × (s.1.0.requests ≡ 3 + (3 + 0))
    × (s.1.0.failures ≡ 3 + 0)
parse_all_lem_example =
    parse_all_lem whole demo_pages trip clock sleep 0 policy 0 heading (1 ∷ 2 ∷ 3 ∷ []) bucket
      server 0 one_each-MakesUp sleep-Sleeps sleep-Quiet refl (omega arith)
      (refl, (refl, (refl, tt)))
      ((text_of 1 ∷ [], refl), ((text_of 2 ∷ [], refl), ((text_of 3 ∷ [], refl), tt)))

-- Two requests for one path at once, then a third and one that is cancelled: only the first to arrive
-- fails.
abbrev at_once : List Event
at_once = asks 4 ∷ asks 4 ∷ wakes 1 ∷ asks 4 ∷ wakes 0 ∷ asks 5 ∷ cancels 1 ∷ []

counted : run start at_once ≡ record {
  server = record { seen = 4 ∷ []; requests = 4; failures = 1 };
  asleep = 4 ∷ [];
  answered = 1;
  cut_off = 1;
}
unfolding run start
counted = refl

run-start-IsCounted_example : IsCounted (run start at_once)
run-start-IsCounted_example = run-start-IsCounted at_once

abbrev nine : List ℕ
nine = 1 ∷ 2 ∷ 3 ∷ 4 ∷ 5 ∷ 6 ∷ 7 ∷ 8 ∷ 9 ∷ []

abbrev rounds : List Batch
rounds = replicate 10 (0, [])

abbrev nine_batches : List (List Line)
nine_batches =
    map heading (1 ∷ 2 ∷ 3 ∷ 4 ∷ []) ∷ map heading (5 ∷ 6 ∷ 7 ∷ 8 ∷ []) ∷ map heading (9 ∷ []) ∷ []

-- The server when each path has been asked for twice.
abbrev asked_twice : FlakyServer
asked_twice = record { seen = nine; requests = 18; failures = 9 }

-- Both writers are at work at once, and the second is done first.
abbrev crossed : Turns (List Line)
crossed = record {
  after_submit = [] ∷ (takes 0 ∷ takes 1 ∷ handles 1 (ok tt) (ok tt) ∷ []) ∷ [] ∷ [];
  joining = takes 1 ∷ handles 0 (ok tt) (ok tt) ∷ handles 1 (ok tt) (ok tt) ∷ [];
  draining = [];
  unwinding = stops 0 ∷ stops 1 ∷ [];
}

abbrev crossed_batches : List (List Line)
crossed_batches =
    map heading (5 ∷ 6 ∷ 7 ∷ 8 ∷ []) ∷ map heading (1 ∷ 2 ∷ 3 ∷ 4 ∷ []) ∷ map heading (9 ∷ []) ∷ []

main_writes_all_example :
    (main crossed asked_twice (title_batches (λ n. ok (heading n)) nine rounds never [] 10)
      ≡ some (ok 0, some (figures asked_twice crossed_batches)))
    × (concat nine_batches ≡ map heading nine)
    × (total length crossed_batches ≡ total length nine_batches)
    × ((figures asked_twice crossed_batches).titles ≡ 9)
    × ((figures asked_twice crossed_batches).stopped ≡ true)
unfolding title_batches with_writer submit_all
main_writes_all_example =
    main_writes_all heading nine rounds never [] 10 crossed asked_twice nine_batches _ length
      (omega arith) (omega arith) (omega arith) (omega arith)
      ((tt, ((tt, (tt, (refl, tt))), (tt, tt))), (tt, (refl, (refl, tt))), tt, (tt, (tt, tt))) refl
      refl

main_returns_example :
    (t : Turns (List Line)) × (fs : Figures Line) × AreTurns t
    × (main t asked_twice (title_batches (λ n. ok (heading n)) nine rounds never [] 10)
        ≡ some (ok 0, some fs))
    × (fs.titles ≡ 9)
main_returns_example =
    main_returns heading nine rounds never [] 10 asked_twice (omega arith) (omega arith)
      (omega arith) (omega arith)

main_hangs_example :
    main
      (in_turn (map (λ n. heading n ∷ []) (1 ∷ 2 ∷ [])))
      asked_twice
      (some (map (λ n. heading n ∷ []) (1 ∷ 2 ∷ []), ok tt))
    ≡ none
main_hangs_example =
    main_hangs (in_turn (map (λ n. heading n ∷ []) (1 ∷ 2 ∷ []))) asked_twice
      (map (λ n. heading n ∷ []) (1 ∷ 2 ∷ []))
      (((tt, (refl, tt)), ((tt, (refl, tt)), tt)), tt, tt, (tt, (tt, tt))) (omega arith)
