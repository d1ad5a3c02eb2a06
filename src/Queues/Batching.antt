-- ===== src/Queues/Batching.antt =====
-- `batched` of aiolab/queues.py. The source is its reads: for each `__anext__`, how many timeouts pass
-- before it ends, and how it ends; after the last comes `StopAsyncIteration`. With no timeout given,
-- none passes.
use asyncio_tests.Base.{
  ℕ, zero, suc, ltb, leb, Bool, true, false, Option, none, some, List, [], ◌∷◌, ◌++◌, length,
  if◌then◌else◌,
}
use asyncio_tests.Errors.{Exn, Result, ok, raised, timeout_error, value_error}

pub data Read (T : Type 0) : Type 0 where
  read : (timeouts : ℕ) → (end : Result T) → Read T

-- The items of a batch that is in the making, and the reads to come. The first read is the pending
-- one, which survives a timeout.
pub record Batcher (T : Type 0) : Type 0 where
  pub batch : List T
  pub reads : List (Read T)

-- One round of `while True`: what it yields, and whether the loop ends or goes on.
pub data Round (T : Type 0) : Type 0 where
  ends : List (List T) → Result (Unit {0}) → Round T
  goes_on : List (List T) → Batcher T → Round T

abbrev pub is_timeout : Exn → Bool
is_timeout timeout_error = true
is_timeout _ = false

module _ {T : Type 0} where
  -- `if batch: yield batch`
  abbrev pub flush : List T → List (List T)
  flush [] = []
  flush (x ∷ xs) = (x ∷ xs) ∷ []

  -- `except asyncio.TimeoutError`, which leaves the read pending.
  abbrev pub timed_out : List T → List (Read T) → Round T
  timed_out batch reads = goes_on (flush batch) (record { batch = []; reads = reads })

  -- An item has come.
  abbrev pub arrived : ℕ → List T → List (Read T) → Round T
  arrived size batch reads =
      if leb size (length batch)
      then goes_on (batch ∷ []) (record { batch = []; reads = reads })
      else goes_on [] (record { batch = batch; reads = reads })

  unfoldable pub round : ℕ → List T → List (Read T) → Round T
  round size batch [] = ends (flush batch) (ok tt)
  round size batch (read (suc n) end ∷ reads) = timed_out batch (read n end ∷ reads)
  round size batch (read zero (ok item) ∷ reads) = arrived size (batch ++ item ∷ []) reads
  round size batch (read zero (raised e) ∷ reads) =
      if is_timeout e then timed_out batch (read zero (raised e) ∷ reads) else ends [] (raised e)

  abbrev pub with_more :
      List (List T)
      → Option (List (List T) × Result (Unit {0}))
      → Option (List (List T) × Result (Unit {0}))
  with_more yielded none = none
  with_more yielded (some (later, end)) = some (yielded ++ later, end)

  abbrev pub after :
      Round T
      → (Batcher T → Option (List (List T) × Result (Unit {0})))
      → Option (List (List T) × Result (Unit {0}))
  after (ends yielded end) rest = some (yielded, end)
  after (goes_on yielded b) rest = with_more yielded (rest b)

  -- The loop on fuel: all that it yields, and how it ends; `none` means that the fuel ran out.
  unfoldable pub batch_loop : ℕ → ℕ → Batcher T → Option (List (List T) × Result (Unit {0}))
  unfolding round
  batch_loop zero size b = none
  batch_loop (suc fuel) size b = after (round size b.batch b.reads) (batch_loop fuel size)

  -- `batched`, consumed to its end.
  unfoldable pub batched : ℕ → ℕ → List (Read T) → Option (List (List T) × Result (Unit {0}))
  unfolding batch_loop
  batched fuel size reads =
      if ltb size 1
      then some ([], raised value_error)
      else batch_loop fuel size (record { batch = []; reads = reads })
