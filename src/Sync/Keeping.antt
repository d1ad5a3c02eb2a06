-- ===== src/Sync/Keeping.antt =====
-- What `TokenBucket.acquire` of aiolab/sync.py leaves as it is.
use asyncio_tests.Base.{ℕ, zero, suc, ◌≡◌, ◌∙◌, sym, subst, true, Option, none, some, if_intro}
use asyncio_tests.Errors.{Result, ok, raised, Async}
use asyncio_tests.Float.{Float, lt}
use asyncio_tests.Sync.Acquire.{Sleeps, MakesUp, acquire-Granted, refill-kept}
use asyncio_tests.Sync.Bucket.{TokenBucket, refill, after_sleep, acquire_loop, acquire}

module _ (F : Float) {W : Type 0} (clock : W → F.Carrier)
    (sleep : F.Carrier → Async (TokenBucket F.Carrier × W) (Unit {0}))
    (Q : TokenBucket F.Carrier × W → Type 0) where
  open F use {Carrier, nought, add, sub, div, le}

  -- The state that a call leaves, if it has ended.
  abbrev pub Leaves : Option (Result Carrier × (TokenBucket Carrier × W)) → Type 0
  Leaves none = Unit
  Leaves (some (r, s)) = Q s

  -- What the loop does to the bucket and the outside world keeps `Q`: a refill, a change of the tokens
  -- and a sleep.
  pub record IsKept : Type 0 where
    pub at_refill : (b : TokenBucket Carrier) (w : W) → Q (b, w) → Q (refill F b (clock w), w)
    pub at_take :
        (b : TokenBucket Carrier) (w : W) (tokens : Carrier)
        → Q (b, w)
        → Q (record b { tokens = tokens }, w)
    pub at_sleep : (d : Carrier) (s : TokenBucket Carrier × W) → Q s → Q (sleep d s).1

  after_sleep-Leaves :
      (r : Result (Unit {0}) × (TokenBucket Carrier × W))
      (rest : TokenBucket Carrier × W → Option (Result Carrier × (TokenBucket Carrier × W)))
      → Q r.1
      → ((s : TokenBucket Carrier × W) → Q s → Leaves (rest s))
      → Leaves (after_sleep r rest)
  after_sleep-Leaves (raised e, s) rest q h = q
  after_sleep-Leaves (ok _, s) rest q h = h s q

  pub acquire_loop-Leaves :
      (fuel : ℕ) (amount waited : Carrier) (b : TokenBucket Carrier) (w : W)
      → IsKept
      → Q (b, w)
      → Leaves (acquire_loop F clock sleep fuel amount waited (b, w))
  unfolding acquire_loop
  acquire_loop-Leaves zero amount waited b w k q = tt
  acquire_loop-Leaves (suc fuel) amount waited b w k q =
      let full = refill F b (clock w) in
      let q' = k.at_refill b w q in
      let pause = div (sub amount full.tokens) full.rate in
      if_intro Leaves (le amount full.tokens)
        (λ there. k.at_take full w (sub full.tokens amount) q')
        (λ short.
          after_sleep-Leaves (sleep pause (full, w)) _ (k.at_sleep pause (full, w) q')
            (λ s q''. acquire_loop-Leaves fuel amount (add waited pause) s.0 s.1 k q''))

  pub acquire-Leaves :
      (fuel : ℕ) (amount : Carrier) (b : TokenBucket Carrier) (w : W)
      → IsKept
      → Q (b, w)
      → Leaves (acquire F clock sleep fuel amount (b, w))
  unfolding acquire
  acquire-Leaves fuel amount b w k q =
      if_intro Leaves (lt F b.capacity amount) (λ big. q)
        (λ small. acquire_loop-Leaves fuel amount nought b w k q)

  -- A grant, and what it keeps.
  pub acquire-keeps :
      (fuel : ℕ) (amount : Carrier) (b : TokenBucket Carrier) (w : W)
      → MakesUp F clock sleep b.rate
      → Sleeps F clock sleep
      → le amount b.capacity ≡ true
      → IsKept
      → Q (b, w)
      → (waited : Carrier) × (s : TokenBucket Carrier × W) × (acquire F clock sleep
            (suc (suc fuel))
            amount
            (b, w)
          ≡ some (ok waited, s))
        × Q s
  acquire-keeps fuel amount b w m s room k q =
      let (full, w', e, _, _) = acquire-Granted F clock sleep fuel amount b w m s room in
      (
        _,
        (record full { tokens = sub full.tokens amount }, w'),
        e,
        subst Leaves e (acquire-Leaves (suc (suc fuel)) amount b w k q),
      )

-- The rate and the capacity of a bucket.
abbrev pub SameShape : {R W : Type 0} → TokenBucket R → TokenBucket R × W → Type 0
SameShape b (b', w) = (b'.rate ≡ b.rate) × (b'.capacity ≡ b.capacity)

module _ (F : Float) {W : Type 0} (clock : W → F.Carrier)
    (sleep : F.Carrier → Async (TokenBucket F.Carrier × W) (Unit {0})) where
  open F use {Carrier}

  pub SameShape-IsKept :
      (b : TokenBucket Carrier) → Sleeps F clock sleep → IsKept F clock sleep (SameShape b)
  SameShape-IsKept b s = record {
    at_refill = λ b' w same.
        let (rate, capacity) = refill-kept F clock sleep b' (clock w) in
        (rate ∙ same.0, capacity ∙ same.1);
    at_take = λ b' w tokens same. same;
    at_sleep = λ d (b', w) same.
        let (w', slept, _, _) = s d b' w in
        subst (λ (r : Result (Unit {0}) × (TokenBucket Carrier × W)). SameShape b r.1) (sym slept)
          same;
  }
