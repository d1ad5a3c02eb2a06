-- ===== src/Pipeline/InTurn.antt =====
-- A run of `main` of examples/pipeline_demo.py in which each batch is written before the next comes.
use asyncio_tests.Base.{
  ℕ, suc, ◌+◌, ◌≡◌, ◌<◌, refl, sym, Option, some, List, [], ◌∷◌, ◌++◌, length, map, All, total,
  subst,
}
use asyncio_tests.Errors.{ok}
use asyncio_tests.Queues.Pool.{PoolStats, submit, get, handled}
use asyncio_tests.Queues.Events.{Event, takes, handles, stops, step, run, take_next, handle, stop}
use asyncio_tests.Queues.Closing.{aexit, aclose}
use asyncio_tests.Streams.Amap.{Batch}
use asyncio_tests.Streams.Until.{Stop}
use asyncio_tests.Pipeline.{FlakyServer}
use asyncio_tests.Pipeline.Batching.{title_batches}
use asyncio_tests.Pipeline.Prefix.{passed, title_batches-Batches}
use asyncio_tests.Pipeline.Writing.{
  Writer, Turns, advance, advance_all, submit_all, leave, with_writer, Figures, figures, main,
}
use asyncio_tests.Pipeline.Written.{AreWorkers}
use asyncio_tests.Pipeline.Report.{AreTurns, started}
use asyncio_tests.Pipeline.Ending.{main_writes_all}

module _ {B : Type 0} where
  -- The first worker takes a batch and writes it.
  abbrev one_turn : List (Event B (Unit {0}))
  one_turn = takes 0 ∷ handles 0 (ok tt) (ok tt) ∷ []

  abbrev pub in_turn : List B → Turns B
  in_turn bs = record {
    after_submit = map (λ b. one_turn) bs;
    joining = [];
    draining = [];
    unwinding = stops 0 ∷ stops 1 ∷ [];
  }

  turns-AreWorkers : (bs : List B) → All AreWorkers (map (λ b. one_turn) bs)
  turns-AreWorkers [] = tt
  turns-AreWorkers (b ∷ bs) = ((tt, (refl, tt)), turns-AreWorkers bs)

  in_turn-AreTurns : (bs : List B) → AreTurns (in_turn bs)
  in_turn-AreTurns bs = (turns-AreWorkers bs, tt, tt, (tt, (tt, tt)))

  -- Nothing is queued or in hand.
  abbrev resting : List B → List (Unit {0}) → PoolStats → Writer B
  resting written results stats = record started {
    written = written;
    pool = record started.pool { results = results; stats = stats };
  }

  -- A run that comes to rest.
  abbrev Rests : Option (Writer B) → Type 0
  Rests o =
      (written : List B) × (results : List (Unit {0})) × (stats : PoolStats) × (o
        ≡ some (resting written results stats))

  submit_in_turn :
      (bs written : List B) (results : List (Unit {0})) (stats : PoolStats)
      → Rests (submit_all (map (λ b. one_turn) bs) bs (resting written results stats))
  unfolding submit_all advance_all advance step submit take_next get handle handled
  submit_in_turn [] written results stats = (written, results, stats, refl)
  submit_in_turn (b ∷ bs) written results stats =
      submit_in_turn bs (written ++ b ∷ []) (results ++ tt ∷ [])
        (record stats { submitted = suc stats.submitted; completed = suc stats.completed })

  abbrev Leaves : List B → Option (Writer B) → Type 0
  Leaves bs o = (w : Writer B) × (with_writer (in_turn bs) (ok tt) o ≡ some w)

  left_in_turn :
      (bs written : List B) (results : List (Unit {0})) (stats : PoolStats)
      → Leaves bs (some (resting written results stats))
  unfolding with_writer leave aexit aclose run advance_all advance step stop
  left_in_turn bs written results stats = (_, refl)

  is_left : (bs : List B) → Leaves bs (submit_all (in_turn bs).after_submit bs started)
  is_left bs =
      let (written, results, stats, e) = submit_in_turn bs [] [] (started {B = B}).pool.stats in
      subst (Leaves bs) (sym e) (left_in_turn bs written results stats)

module _ {L : Type 0} where
  -- If every page is parsed to its title, more than eight titles are passed on before the stop signal,
  -- and a request has failed, there is a run of the writers in which `main` returns 0 and counts all
  -- these titles as written.
  pub main_returns :
      (title : ℕ → L) (paths : List ℕ) (schedule : List Batch) (stop : Stop) (waits : List ℕ)
      (fuel : ℕ) (server : FlakyServer)
      → length paths < length schedule
      → length paths + total (λ n. n) waits < fuel
      → 8 < length (passed stop (map title paths))
      → 0 < server.failures
      → (t : Turns (List L)) × (fs : Figures L) × AreTurns t
        × (main t server (title_batches (λ n. ok (title n)) paths schedule stop waits fuel)
            ≡ some (ok 0, some fs))
        × (fs.titles ≡ length (passed stop (map title paths)))
  main_returns title paths schedule stop waits fuel server rounds_enough fuel_enough many failed =
      let (bs, e, _, _) =
        title_batches-Batches title paths schedule stop waits fuel rounds_enough fuel_enough in
      let (w, left) = is_left bs in
      let (returns, _, _, titles, _) =
        main_writes_all title paths schedule stop waits fuel (in_turn bs) server bs w length
          rounds_enough fuel_enough many failed (in_turn-AreTurns bs) e left in
      (in_turn bs, figures server w.written, in_turn-AreTurns bs, returns, titles)
