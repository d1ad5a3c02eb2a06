-- ===== src/Streams/Amap.antt =====
-- `amap` of aiolab/streams.py, consumed to its end. A task in flight is its item, and `fn` says how the
-- task for an item ends. The schedule says, for each round, what `asyncio.wait` would hand over.
use asyncio_tests.Base.{
  ℕ, zero, suc, ltb, Bool, true, false, Option, none, some, List, [], ◌∷◌, ◌++◌, length,
  if◌then◌else◌,
}
use asyncio_tests.Errors.{Exn, Result, ok, raised, value_error}
use asyncio_tests.Streams.Source.{Feed}

pub record Amap (A : Type 0) : Type 0 where
  pub in_flight : List A
  pub items : List A
  pub end : Result (Unit {0})
  pub exhausted : Bool

-- The tasks that `asyncio.wait` hands over, one at least, each by a place among the tasks that are
-- left; a place past the last stands for the last.
abbrev pub Batch : Type 0
Batch = ℕ × List ℕ

-- How the inner `while` loop ends: the consumer goes on, or the source has raised.
pub data Filled (A : Type 0) : Type 0 where
  filled : Amap A → Filled A
  broken : Exn → List A → Filled A

-- One round of `while True`: what it yields, and either how `amap` ends, with the tasks that it then
-- cancels, or the next round.
pub data Round (A B : Type 0) : Type 0 where
  ends : List B → Result (Unit {0}) → List A → Round A B
  goes_on : List B → Amap A → Round A B

-- What has been yielded, how it ended, and the tasks that were cancelled.
abbrev pub Outcome : Type 0 → Type 0 → Type 0
Outcome A B = Option (List B × Result (Unit {0}) × List A)

module _ {A : Type 0} where
  -- The source is at its end: the next read is the last.
  abbrev pub last_read : Result (Unit {0}) → List A → Filled A
  last_read (ok _) fl =
      filled (record { in_flight = fl; items = []; end = ok tt; exhausted = true })
  last_read (raised e) fl = broken e fl

  -- The inner `while` loop, while the source is not exhausted.
  unfoldable pub fill : ℕ → Result (Unit {0}) → List A → List A → Filled A
  fill c end fl [] =
      if ltb (length fl) c
      then last_read end fl
      else filled (record { in_flight = fl; items = []; end = end; exhausted = false })
  fill c end fl (x ∷ xs) =
      let rest = fill c end (fl ++ x ∷ []) xs in
      if ltb (length fl) c
      then rest
      else filled (record { in_flight = fl; items = x ∷ xs; end = end; exhausted = false })

  abbrev pub begin : Feed A → Amap A
  begin source = record {
    in_flight = [];
    items = source.items;
    end = source.end;
    exhausted = false;
  }

  unfoldable pub fill_up : ℕ → Amap A → Filled A
  unfolding fill
  fill_up c s = if s.exhausted then filled s else fill c s.end s.in_flight s.items

  -- The task at a place, and the others.
  unfoldable pub pick : ℕ → A → List A → A × List A
  pick zero x fl = (x, fl)
  pick (suc n) x [] = (x, [])
  pick (suc n) x (y ∷ fl) = let (z, rest) = pick n y fl in (z, x ∷ rest)

module _ {A B : Type 0} where
  -- `await task`, or `task.result()`, with the tasks that are left.
  abbrev pub finish :
      Result B
      → List A
      → (List A → List B × Result (Unit {0}) × List A)
      → List B × Result (Unit {0}) × List A
  finish (ok v) left rest = let (vs, end, left') = rest left in (v ∷ vs, end, left')
  finish (raised e) left rest = ([], raised e, left)

  -- `for task in done`
  unfoldable pub hand_over : (A → Result B) → List ℕ → List A → List B × Result (Unit {0}) × List A
  unfolding pick
  hand_over fn [] fl = ([], ok tt, fl)
  hand_over fn (p ∷ ps) [] = ([], ok tt, [])
  hand_over fn (p ∷ ps) (x ∷ fl) =
      let (z, rest) = pick p x fl in finish (fn z) rest (hand_over fn ps)

  -- What a batch has come to: an exception leaves the rest to be cancelled.
  abbrev pub close_round : Amap A → List B × Result (Unit {0}) × List A → Round A B
  close_round s (vs, ok _, left) = goes_on vs (record s { in_flight = left })
  close_round s (vs, raised e, left) = ends vs (raised e) left

  -- `if not in_flight: return`, and then the oldest task, or those that are done.
  unfoldable pub deliver : Bool → (A → Result B) → Batch → Amap A → List A → Round A B
  unfolding hand_over
  deliver ordered fn batch s [] = ends [] (ok tt) []
  deliver true fn batch s (x ∷ fl) = close_round s (finish (fn x) fl (λ left. ([], ok tt, left)))
  deliver false fn (p, ps) s (x ∷ fl) = close_round s (hand_over fn (p ∷ ps) (x ∷ fl))

  abbrev pub from_filled : Filled A → (Amap A → Round A B) → Round A B
  from_filled (filled s) rest = rest s
  from_filled (broken e fl) rest = ends [] (raised e) fl

  unfoldable pub round : Bool → (A → Result B) → ℕ → Batch → Amap A → Round A B
  unfolding fill_up deliver
  round ordered fn c batch s =
      from_filled (fill_up c s) (λ s'. deliver ordered fn batch s' s'.in_flight)

  abbrev pub with_more : List B → Outcome A B → Outcome A B
  with_more vs none = none
  with_more vs (some (later, end, left)) = some (vs ++ later, end, left)

  abbrev pub after : Round A B → (Amap A → Outcome A B) → Outcome A B
  after (ends vs end left) rest = some (vs, end, left)
  after (goes_on vs s) rest = with_more vs (rest s)

  -- The loop: all that it yields, how it ends, and the tasks that it cancels; `none` if the schedule
  -- is too short.
  unfoldable pub amap_loop : Bool → (A → Result B) → ℕ → List Batch → Amap A → Outcome A B
  unfolding round
  amap_loop ordered fn c [] s = none
  amap_loop ordered fn c (batch ∷ batches) s =
      after (round ordered fn c batch s) (amap_loop ordered fn c batches)

  unfoldable pub amap : Feed A → (A → Result B) → ℕ → Bool → List Batch → Outcome A B
  unfolding amap_loop
  amap source fn concurrency ordered schedule =
      if ltb concurrency 1
      then some ([], raised value_error, [])
      else amap_loop ordered fn concurrency schedule (begin source)
