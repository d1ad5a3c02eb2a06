-- ===== src/Pipeline/Batching.antt =====
-- The streams in `main` of examples/pipeline_demo.py: the titles as they are parsed side by side, up to
-- the stop signal, in batches.
use asyncio_tests.Base.{ℕ, true, Option, none, some, List, [], ◌∷◌}
use asyncio_tests.Errors.{Result, ok, raised}
use asyncio_tests.Streams.Amap.{Batch, Outcome, amap}
use asyncio_tests.Streams.Until.{Stop, take_until}
use asyncio_tests.Queues.Batching.{Read, read, batched}

-- The reads of a stream, with the timeouts that pass before each of them ends; where the list of
-- timeouts is too short, none passes.
abbrev pub reads_of : {L : Type 0} → List ℕ → List L → Result (Unit {0}) → List (Read L)
reads_of waits [] (ok _) = []
reads_of [] [] (raised e) = read 0 (raised e) ∷ []
reads_of (n ∷ waits) [] (raised e) = read n (raised e) ∷ []
reads_of [] (l ∷ ls) end = read 0 (ok l) ∷ reads_of [] ls end
reads_of (n ∷ waits) (l ∷ ls) end = read n (ok l) ∷ reads_of waits ls end

-- What `main` chooses: `concurrency=5` and `size=4`.
abbrev pub width : ℕ
width = 5

abbrev pub batch_size : ℕ
batch_size = 4

module _ {L : Type 0} where
  abbrev pub batches_of :
      ℕ → List ℕ → Stop → Outcome ℕ L → Option (List (List L) × Result (Unit {0}))
  batches_of fuel waits stop none = none
  batches_of fuel waits stop (some (titles, end, left)) =
      let taken = take_until (record { items = titles; end = end }) stop in
      batched fuel batch_size (reads_of waits taken.yielded taken.end)

  -- `batched(take_until(amap(aiter_from(PAGES), parse, concurrency=5), stop), size=4, timeout=0.5)`
  unfoldable pub title_batches :
      (ℕ → Result L)
      → List ℕ
      → List Batch
      → Stop
      → List ℕ
      → ℕ
      → Option (List (List L) × Result (Unit {0}))
  unfolding amap take_until batched
  title_batches parse paths schedule stop waits fuel =
      batches_of fuel waits stop
        (amap (record { items = paths; end = ok tt }) parse width true schedule)
