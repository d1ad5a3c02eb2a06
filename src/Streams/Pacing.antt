-- ===== src/Streams/Pacing.antt =====
-- That `throttle` of aiolab/streams.py drops nothing.
use asyncio_tests.Base.{ℕ, suc, ◌≡◌, refl, sym, subst, true, false, Option, some, List, [], ◌∷◌}
use asyncio_tests.Errors.{Result, raised, Async, value_error}
use asyncio_tests.Float.{Float}
use asyncio_tests.Sync.Bucket.{TokenBucket, init}
use asyncio_tests.Sync.Acquire.{Sleeps, MakesUp}
use asyncio_tests.Sync.Keeping.{SameShape, SameShape-IsKept, acquire-keeps}
use asyncio_tests.Streams.Source.{Feed}
use asyncio_tests.Streams.Throttle.{Paced, throttle_loop, with_bucket, throttle}

-- The run ends as the source does, with all its items.
abbrev pub DropsNothing : {A : Type 0} → Feed A → Option (List A × Result (Unit {0})) → Type 0
DropsNothing source o = o ≡ some (source.items, source.end)

module _ (F : Float) {W : Type 0} (clock : W → F.Carrier)
    (sleep : F.Carrier → Async (TokenBucket F.Carrier × W) (Unit {0})) where
  open F use {Carrier, one, nought, add, sub, div, le}

  module _ {A : Type 0} (between : W → W) where
    abbrev Passed : Result (Unit {0}) → List A → Paced A (TokenBucket Carrier × W) → Type 0
    Passed end xs o = (s : TokenBucket Carrier × W) × (o ≡ some (xs, end, s))

    throttle_loop-Passed :
        (fuel : ℕ) (end : Result (Unit {0})) (xs : List A) (b : TokenBucket Carrier) (w : W)
        → MakesUp F clock sleep b.rate
        → Sleeps F clock sleep
        → le one b.capacity ≡ true
        → Passed end xs (throttle_loop F clock sleep between (suc (suc fuel)) end xs (b, w))
    unfolding throttle_loop
    throttle_loop-Passed fuel end [] b w m s room = ((b, w), refl)
    throttle_loop-Passed fuel end (x ∷ xs) b w m s room =
        let (waited, (b', w'), e, (rate, capacity)) =
          acquire-keeps F clock sleep (SameShape b) fuel one b (between w) m s room
            (SameShape-IsKept F clock sleep b s) (refl, refl) in
        let (left, q) =
          throttle_loop-Passed fuel end xs b' w' (subst (MakesUp F clock sleep) (sym rate) m) s
            (rw capacity room) in
        (left, rw (e, q) refl)

    -- At a positive rate, and with two rounds for each `acquire`, `throttle` yields all items of its
    -- source, in order, and ends as the source does. A sleep must end, leave the bucket alone and
    -- last as long as asked, and the arithmetic must not lose tokens, as for `acquire`.
    pub throttle-DropsNothing :
        (fuel : ℕ) (source : Feed A) (per_second : Carrier) (w : W)
        → MakesUp F clock sleep per_second
        → Sleeps F clock sleep
        → le per_second nought ≡ false
        → le one nought ≡ false
        → DropsNothing source (throttle F clock sleep between (suc (suc fuel)) source per_second w)
    unfolding throttle init
    throttle-DropsNothing fuel source per_second w m s positive some_token =
        let b : TokenBucket Carrier = record {
          rate = per_second;
          capacity = one;
          tokens = one;
          updated = clock w;
        } in
        let (left, q) = throttle_loop-Passed fuel source.end source.items b w m s (F.le_refl one) in
        rw (positive, some_token, with_bucket) (rw q refl)

    -- A rate that is not positive is refused before anything is read.
    pub throttle-refuses :
        (fuel : ℕ) (source : Feed A) (per_second : Carrier) (w : W)
        → le per_second nought ≡ true
        → throttle F clock sleep between fuel source per_second w ≡ some ([], raised value_error)
    unfolding throttle init
    throttle-refuses fuel source per_second w bad = rw bad refl
