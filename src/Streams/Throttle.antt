-- ===== src/Streams/Throttle.antt =====
-- `throttle` of aiolab/streams.py over the token bucket of aiolab/sync.py, consumed to its end. What
-- the source and the consumer do between two items may change the outside world.
use asyncio_tests.Base.{ℕ, Option, none, some, List, [], ◌∷◌}
use asyncio_tests.Errors.{Result, ok, raised, Async}
use asyncio_tests.Float.{Float}
use asyncio_tests.Sync.Bucket.{TokenBucket, init, acquire}
use asyncio_tests.Streams.Source.{Feed}

-- What has been yielded, how it ended, and the state left; `none` if an `acquire` ran out of fuel.
abbrev pub Paced : Type 0 → Type 0 → Type 0
Paced A S = Option (List A × Result (Unit {0}) × S)

module _ {A S : Type 0} where
  abbrev pub then_yield : A → Paced A S → Paced A S
  then_yield x none = none
  then_yield x (some (xs, end, s)) = some (x ∷ xs, end, s)

  -- `await bucket.acquire()`, and what follows if it returns.
  abbrev pub after_acquire : {B : Type 0} → Option (Result B × S) → (S → Paced A S) → Paced A S
  after_acquire none rest = none
  after_acquire (some (raised e, s)) rest = some ([], raised e, s)
  after_acquire (some (ok waited, s)) rest = rest s

module _ (F : Float) {A W : Type 0} (clock : W → F.Carrier)
    (sleep : F.Carrier → Async (TokenBucket F.Carrier × W) (Unit {0})) (between : W → W) where
  open F use {Carrier, one}

  -- The `async for` loop, with fuel for each `acquire`.
  unfoldable pub throttle_loop :
      ℕ → Result (Unit {0}) → List A → TokenBucket Carrier × W → Paced A (TokenBucket Carrier × W)
  unfolding acquire
  throttle_loop fuel end [] s = some ([], end, s)
  throttle_loop fuel end (x ∷ xs) (b, w) =
      after_acquire (acquire F clock sleep fuel one (b, between w))
        (λ s. then_yield x (throttle_loop fuel end xs s))

  abbrev pub with_bucket :
      Result (TokenBucket Carrier)
      → (TokenBucket Carrier → Paced A (TokenBucket Carrier × W))
      → Option (List A × Result (Unit {0}))
  with_bucket (raised e) rest = some ([], raised e)
  with_bucket (ok b) rest = elim (rest b) [ none ↦ none | some (xs, end, s) ↦ some (xs, end) ]

  -- `throttle`, which makes its bucket when it is first asked for an item.
  unfoldable pub throttle : ℕ → Feed A → Carrier → W → Option (List A × Result (Unit {0}))
  unfolding throttle_loop init
  throttle fuel source per_second w =
      with_bucket (init F per_second (some one) (clock w))
        (λ b. throttle_loop fuel source.end source.items (b, w))
