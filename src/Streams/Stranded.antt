-- ===== src/Streams/Stranded.antt =====
-- Which tasks of `amap` outlive the stream that `take_until` of aiolab/streams.py ends.
use asyncio_tests.Base.{
  ℕ, suc, ◌-◌, ◌≡◌, ◌≤◌, refl, subst, ap, true, some, List, [], length, map, take, drop, arith,
}
use asyncio_tests.Errors.{ok}
use asyncio_tests.Streams.Source.{Feed}
use asyncio_tests.Streams.Amap.{Batch, Filled, filled, broken, fill}
use asyncio_tests.Streams.Until.{before_read, during_read}
use asyncio_tests.Streams.Chain.{read_cancelled, collect_amap, until_amap}
use asyncio_tests.Streams.Window.{
  answers, Holds, fill-Holds, take-drop, length-take-le, break_off-window,
}

module _ {A B : Type 0} (g : A → B) where
  read-window :
      (c : ℕ) (vs : List B) (rest : List A) (f : Filled A)
      → Holds c rest f
      → read_cancelled vs f
        ≡ record { received = vs; end = ok tt; cancelled = take c rest; running = [] }
  read-window c vs rest (broken e fl) h = absurd h
  read-window c vs rest (filled s) (calm, held, left) = rw held refl

  refilled :
      (c : ℕ) (rest : List A)
      → Holds c rest (fill c (ok tt) (take (c - 1) rest) (drop (c - 1) rest))
  refilled c rest =
      subst (λ all. Holds c all (fill c (ok tt) (take (c - 1) rest) (drop (c - 1) rest)))
        (take-drop (c - 1) rest)
        (fill-Holds c (take (c - 1) rest) (drop (c - 1) rest)
          (omega (arith, length-take-le (c - 1) rest)))

  -- Over an `amap` in order with a positive `concurrency`, whose tasks return the results of a function,
  -- when the source has the items that the consumer takes, one at least, and the schedule as many
  -- rounds: these items' results are passed on. `collect` with that limit leaves nothing running, as it
  -- cancels the tasks of the next items, one fewer than `concurrency` if there are so many; so does
  -- `take_until` if the event is set while it reads, and the tasks that it cancels are one more if there are so many;
  -- but if
  -- the event is set between two reads, the tasks that `collect` would have cancelled run on.
  pub until_amap-strands :
      (c : ℕ) (items : List A) (schedule : List Batch) (n : ℕ)
      → 1 ≤ c
      → suc n ≤ length schedule
      → suc n ≤ length items
      → let source : Feed A = record { items = items; end = ok tt } in
        let results = map g (take (suc n) items) in
        let next = drop (suc n) items in
        (collect_amap source (answers g) c true schedule (suc n)
          ≡ some (record {
            received = results;
            end = ok tt;
            cancelled = take (c - 1) next;
            running = [];
          }))
        × (until_amap source (answers g) c true schedule (during_read (suc n))
            ≡ some
                (record { received = results; end = ok tt; cancelled = take c next; running = [] }))
        × (until_amap source (answers g) c true schedule (before_read (suc n))
            ≡ some (record {
              received = results;
              end = ok tt;
              cancelled = [];
              running = take (c - 1) next;
            }))
  unfolding collect_amap until_amap
  until_amap-strands c items schedule n some_task enough more =
      let w = break_off-window g c items schedule (suc n) some_task (omega arith) enough more in
      let same : suc (suc n - 1) ≡ suc n = omega arith in
      let next = drop (suc n) items in
      (
        rw (same, w) refl,
        rw w (
            ap some (
              read-window c (map g (take (suc n) items)) next
                (fill c (ok tt) (take (c - 1) next) (drop (c - 1) next)) (refilled c next))),
        rw w refl,
      )
