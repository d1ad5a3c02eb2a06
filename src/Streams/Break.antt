-- ===== src/Streams/Break.antt =====
-- A consumer of `amap` of aiolab/streams.py that breaks off: it takes `n` items, one at least, and closes
-- the generator, whose `finally` cancels the tasks that are in flight and waits for them.
use asyncio_tests.Base.{
  ℕ, ◌-◌, leb, ltb, Bool, Option, none, some, List, [], ◌∷◌, ◌++◌, length, take, if◌then◌else◌,
}
use asyncio_tests.Errors.{Result, raised, value_error}
use asyncio_tests.Streams.Source.{Feed}
use asyncio_tests.Streams.Amap.{Amap, Batch, Round, ends, goes_on, round, begin}

-- How it comes to an end: by itself before that, with what it then cancels; or by the consumer, with
-- the tasks that it drops, which are cancelled unless they are done, and what it has not read.
pub data Broken (A B : Type 0) : Type 0 where
  over : List B → Result (Unit {0}) → List A → Broken A B
  left_off : List B → (dropped unread : List A) → Broken A B

-- Of the tasks that `asyncio.wait` hands over, those that the consumer still takes.
abbrev pub cut : ℕ → Batch → Batch
cut n (p, ps) = (p, take (n - 1) ps)

module _ {A B : Type 0} where
  abbrev pub and_before : List B → Option (Broken A B) → Option (Broken A B)
  and_before vs none = none
  and_before vs (some (over later end left)) = some (over (vs ++ later) end left)
  and_before vs (some (left_off later dropped unread)) =
      some (left_off (vs ++ later) dropped unread)

  abbrev pub after_round : ℕ → Round A B → (ℕ → Amap A → Option (Broken A B)) → Option (Broken A B)
  after_round n (ends vs end left) rest = some (over vs end left)
  after_round n (goes_on vs s) rest =
      if leb n (length vs)
      then some (left_off vs s.in_flight s.items)
      else and_before vs (rest (n - length vs) s)

  unfoldable pub break_loop :
      Bool → (A → Result B) → ℕ → List Batch → ℕ → Amap A → Option (Broken A B)
  unfolding round
  break_loop ordered fn c [] n s = none
  break_loop ordered fn c (batch ∷ batches) n s =
      after_round n (round ordered fn c (cut n batch) s) (break_loop ordered fn c batches)

  unfoldable pub break_off :
      Feed A → (A → Result B) → ℕ → Bool → List Batch → ℕ → Option (Broken A B)
  unfolding break_loop
  break_off source fn concurrency ordered schedule n =
      if ltb concurrency 1
      then some (over [] (raised value_error) [])
      else break_loop ordered fn concurrency schedule n (begin source)
