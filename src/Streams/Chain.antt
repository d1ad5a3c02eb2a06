-- ===== src/Streams/Chain.antt =====
-- `collect` and `take_until` of aiolab/streams.py over its `amap`, and what becomes of the tasks in flight.
-- `collect` closes the generator when it stops early; `take_until` cancels a read that is pending, which
-- ends the generator, and leaves one that waits at its `yield` as it is.
use asyncio_tests.Base.{ℕ, zero, suc, ◌-◌, Bool, Option, none, some, List, []}
use asyncio_tests.Errors.{Result, ok, raised}
use asyncio_tests.Streams.Source.{Feed}
use asyncio_tests.Streams.Amap.{Batch, Filled, filled, broken, Outcome, fill, amap}
use asyncio_tests.Streams.Until.{Stop, never, before_read, during_read}
use asyncio_tests.Streams.Break.{Broken, over, left_off, break_off}

-- What has come through, how that ended, and the tasks that have been cancelled, and those that run on.
pub record Chained (A B : Type 0) : Type 0 where
  pub received : List B
  pub end : Result (Unit {0})
  pub cancelled : List A
  pub running : List A

module _ {A B : Type 0} where
  abbrev pub by_itself : List B → Result (Unit {0}) → List A → Chained A B
  by_itself vs end left = record { received = vs; end = end; cancelled = left; running = [] }

  abbrev pub closed : Option (Broken A B) → Option (Chained A B)
  closed none = none
  closed (some (over vs end left)) = some (by_itself vs end left)
  closed (some (left_off vs dropped unread)) = some (by_itself vs (ok tt) dropped)

  abbrev pub suspended : Option (Broken A B) → Option (Chained A B)
  suspended none = none
  suspended (some (over vs end left)) = some (by_itself vs end left)
  suspended (some (left_off vs in_flight unread)) =
      some (record { received = vs; end = ok tt; cancelled = []; running = in_flight })

  -- A read that is cancelled once the source has been read as far as it may be.
  abbrev pub read_cancelled : List B → Filled A → Chained A B
  read_cancelled vs (broken e fl) = by_itself vs (raised e) fl
  read_cancelled vs (filled s) = by_itself vs (ok tt) s.in_flight

  abbrev pub while_reading : ℕ → Result (Unit {0}) → Option (Broken A B) → Option (Chained A B)
  unfolding fill
  while_reading c end none = none
  while_reading c end (some (over vs e left)) = some (by_itself vs e left)
  while_reading c end (some (left_off vs in_flight unread)) =
      some (read_cancelled vs (fill c end in_flight unread))

  abbrev pub to_the_end : Outcome A B → Option (Chained A B)
  to_the_end none = none
  to_the_end (some (vs, end, left)) = some (by_itself vs end left)

  module _ (source : Feed A) (fn : A → Result B) (concurrency : ℕ) (ordered : Bool)
      (schedule : List Batch) where
    -- `collect(amap(source, fn), limit=limit)`, which a limit of 0 stops after one item too.
    unfoldable pub collect_amap : ℕ → Option (Chained A B)
    unfolding break_off
    collect_amap limit = closed (break_off source fn concurrency ordered schedule (suc (limit - 1)))

    -- `take_until(amap(source, fn), event)`, consumed to its end.
    unfoldable pub until_amap : Stop → Option (Chained A B)
    unfolding break_off fill amap
    until_amap never = to_the_end (amap source fn concurrency ordered schedule)
    until_amap (before_read zero) = some (by_itself [] (ok tt) [])
    until_amap (before_read (suc n)) =
        suspended (break_off source fn concurrency ordered schedule (suc n))
    until_amap (during_read zero) =
        some (read_cancelled [] (fill concurrency source.end [] source.items))
    until_amap (during_read (suc n)) =
        while_reading concurrency source.end
          (break_off source fn concurrency ordered schedule (suc n))
