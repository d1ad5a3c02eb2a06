-- ===== src/Sync/Bucket.antt =====
-- `TokenBucket` of aiolab/sync.py. What runs during a sleep may use the bucket, so a coroutine's
-- state is the bucket with the outside world, on which the clock is read.
use asyncio_tests.Base.{ℕ, zero, suc, Bool, true, false, Option, none, some, if◌then◌else◌}
use asyncio_tests.Errors.{Result, ok, raised, Async, value_error}
use asyncio_tests.Float.{Float, lt, min_of}

pub record TokenBucket (R : Type 0) : Type 0 where
  pub rate : R
  pub capacity : R
  pub tokens : R
  pub updated : R

-- `capacity if capacity is not None else rate`
abbrev pub or_rate : {R : Type 0} → R → Option R → R
or_rate rate none = rate
or_rate rate (some capacity) = capacity

-- The rest of the loop runs if the sleep returns.
abbrev pub after_sleep :
    {S R : Type 0} → Result (Unit {0}) × S → (S → Option (Result R × S)) → Option (Result R × S)
after_sleep (raised e, s) rest = some (raised e, s)
after_sleep (ok _, s) rest = rest s

module _ (F : Float) where
  open F use {Carrier, nought, add, sub, mul, div, le}

  -- `__init__` at the time `now`; without a capacity the rate is taken.
  unfoldable pub init : Carrier → Option Carrier → Carrier → Result (TokenBucket Carrier)
  init rate capacity now =
      let room = or_rate rate capacity in
      if le rate nought
      then raised value_error
      else if le room nought
      then raised value_error
      else ok (record { rate = rate; capacity = room; tokens = room; updated = now })

  -- `_refill`, when the clock shows `now`.
  unfoldable pub refill : TokenBucket Carrier → Carrier → TokenBucket Carrier
  refill b now =
      let elapsed = sub now b.updated in
      if le elapsed nought then record b { updated = now } else record b {
        tokens = min_of F b.capacity (add b.tokens (mul elapsed b.rate));
        updated = now;
      }

  -- The property `tokens`, which refills too.
  unfoldable pub available : TokenBucket Carrier → Carrier → Carrier × TokenBucket Carrier
  unfolding refill
  available b now = let full = refill b now in (full.tokens, full)

  -- Take `amount` tokens if they are there.
  unfoldable pub take : TokenBucket Carrier → Carrier → Bool × TokenBucket Carrier
  take b amount =
      if le amount b.tokens then (true, record b { tokens = sub b.tokens amount }) else (false, b)

  unfoldable pub try_acquire : TokenBucket Carrier → Carrier → Carrier → Bool × TokenBucket Carrier
  unfolding refill take
  try_acquire b now amount = take (refill b now) amount

  module _ {W : Type 0} (clock : W → Carrier)
      (sleep : Carrier → Async (TokenBucket Carrier × W) (Unit {0})) where
    -- The loop of `acquire`, with fuel: `none` means that the fuel ran out. The state is that in
    -- which the bucket's lock is held, which keeps other calls of `acquire` out of the loop.
    unfoldable pub acquire_loop :
        ℕ
        → Carrier
        → Carrier
        → TokenBucket Carrier × W
        → Option (Result Carrier × (TokenBucket Carrier × W))
    unfolding refill
    acquire_loop zero amount waited (b, w) = none
    acquire_loop (suc fuel) amount waited (b, w) =
        let full = refill b (clock w) in
        if le amount full.tokens
        then some (ok waited, (record full { tokens = sub full.tokens amount }, w))
        else (let pause = div (sub amount full.tokens) full.rate in
            after_sleep (sleep pause (full, w)) (acquire_loop fuel amount (add waited pause)))

    unfoldable pub acquire :
        ℕ → Carrier → TokenBucket Carrier × W → Option (Result Carrier × (TokenBucket Carrier × W))
    unfolding acquire_loop
    acquire fuel amount (b, w) =
        if lt F b.capacity amount
        then some (raised value_error, (b, w))
        else acquire_loop fuel amount nought (b, w)
