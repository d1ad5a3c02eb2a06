-- ===== src/Sync/Acquire.antt =====
-- How `TokenBucket.acquire` of aiolab/sync.py ends, and what the sleep must do for it.
use asyncio_tests.Base.{
  ℕ, suc, ◌≡◌, sym, subst, true, false, Option, some, arith, if◌then◌else◌, Bool-cases, inl, inr,
}
use asyncio_tests.Errors.{Result, ok, raised, Async, value_error}
use asyncio_tests.Float.{Float, le-min_of}
use asyncio_tests.Sync.Bucket.{TokenBucket, refill, acquire_loop, acquire}

module _ (F : Float) {W : Type 0} (clock : W → F.Carrier)
    (sleep : F.Carrier → Async (TokenBucket F.Carrier × W) (Unit {0})) where
  open F use {
    Carrier, nought, add, sub, mul, div, le, le_refl, le_trans, le-add, sub-nonneg, mul-nonneg,
  }

  -- A sleep ends without an exception, leaves the bucket alone, and lasts as long as asked, by the
  -- clock; it lasts longer than no time at all.
  abbrev pub Sleeps : Type 0
  Sleeps =
      (d : Carrier) (b : TokenBucket Carrier) (w : W)
      → (w' : W) × (sleep d (b, w) ≡ (ok tt, (b, w')))
        × (le d (sub (clock w') (clock w)) ≡ true)
        × (le (sub (clock w') (clock w)) nought ≡ false)

  -- A wait of the deficit over the rate makes the deficit up: no token is lost to rounding.
  abbrev pub MakesUp : Carrier → Type 0
  MakesUp rate =
      (amount tokens elapsed : Carrier)
      → le (div (sub amount tokens) rate) elapsed ≡ true
      → le amount (add tokens (mul elapsed rate)) ≡ true

  refill-updated : (b : TokenBucket Carrier) (now : Carrier) → (refill F b now).updated ≡ now
  unfolding refill
  refill-updated b now = ground arith

  -- After such a sleep the tokens are there.
  refill-enough :
      (b : TokenBucket Carrier) (now amount : Carrier)
      → MakesUp b.rate
      → le amount b.capacity ≡ true
      → le (div (sub amount b.tokens) b.rate) (sub now b.updated) ≡ true
      → le (sub now b.updated) nought ≡ false
      → le amount (refill F b now).tokens ≡ true
  unfolding refill
  refill-enough b now amount m small long on =
      rw on (le-min_of F _ _ _ small (m amount b.tokens _ long))

  -- What `acquire` has done when it returns: it reports how long it slept, and has taken the tokens
  -- from a bucket that held them.
  abbrev pub Granted :
      Carrier → Option (Result Carrier × (TokenBucket Carrier × W)) → Carrier → Type 0
  Granted amount r waited =
      (full : TokenBucket Carrier) × (w' : W) × (r
        ≡ some (ok waited, (record full { tokens = sub full.tokens amount }, w')))
      × (le amount full.tokens ≡ true)
      × (full.updated ≡ clock w')

  pub first_round :
      (fuel : ℕ) (amount waited : Carrier) (b : TokenBucket Carrier) (w : W)
      → le amount (refill F b (clock w)).tokens ≡ true
      → Granted amount (acquire_loop F clock sleep (suc fuel) amount waited (b, w)) waited
  unfolding acquire_loop
  first_round fuel amount waited b w there =
      (refill F b (clock w), w, rw there, there, refill-updated b (clock w))

  pub slept_round :
      (fuel : ℕ) (amount waited : Carrier) (b : TokenBucket Carrier) (w w' : W)
      → let full = refill F b (clock w) in
        let pause = div (sub amount full.tokens) full.rate in
        le amount full.tokens ≡ false
        → sleep pause (full, w) ≡ (ok tt, (full, w'))
        → acquire_loop F clock sleep (suc fuel) amount waited (b, w)
          ≡ acquire_loop F clock sleep fuel amount (add waited pause) (full, w')
  unfolding acquire_loop
  slept_round fuel amount waited b w w' short slept = rw (short, slept)

  pub refill-kept :
      (b : TokenBucket Carrier) (now : Carrier)
      → ((refill F b now).rate ≡ b.rate) × ((refill F b now).capacity ≡ b.capacity)
  unfolding refill
  refill-kept b now = ground arith

  second_round :
      (fuel : ℕ) (amount waited : Carrier) (b : TokenBucket Carrier) (w : W)
      → MakesUp b.rate
      → Sleeps
      → le amount b.capacity ≡ true
      → le amount (refill F b (clock w)).tokens ≡ false
      → Granted amount
          (acquire_loop F clock sleep (suc (suc fuel)) amount waited (b, w))
          (add waited (div (sub amount (refill F b (clock w)).tokens) b.rate))
  second_round fuel amount waited b w m s small short =
      let full = refill F b (clock w) in
      let (rate, capacity) = refill-kept b (clock w) in
      let at = refill-updated b (clock w) in
      let (w', slept, long, on) = s (div (sub amount full.tokens) full.rate) full w in
      let pause = div (sub amount full.tokens) full.rate in
      let since = λ (P : Carrier → Type 0). subst (λ t. P (sub (clock w') t)) (sym at) in
      let report = λ (r : Carrier). add waited (div (sub amount full.tokens) r) in
      let there =
        refill-enough full (clock w') amount (subst MakesUp (sym rate) m)
          (subst (λ c. le amount c ≡ true) (sym capacity) small)
          (since (λ d. le pause d ≡ true) long) (since (λ d. le d nought ≡ false) on) in
      rw (slept_round (suc fuel) amount waited b w w' short slept) (
        subst
          (λ r.
            Granted amount
              (acquire_loop F clock sleep (suc fuel) amount (report full.rate) (full, w'))
              (report r))
          rate (first_round fuel amount (report full.rate) full w' there))

  pub acquire-fits :
      (fuel : ℕ) (amount : Carrier) (b : TokenBucket Carrier) (w : W)
      → le amount b.capacity ≡ true
      → acquire F clock sleep fuel amount (b, w)
        ≡ acquire_loop F clock sleep fuel amount nought (b, w)
  unfolding acquire
  acquire-fits fuel amount b w small = rw small

  -- An amount that fits the bucket is granted after two rounds at most, whatever more fuel there is:
  -- at once if the refilled bucket holds it, and else after one sleep of the deficit over the rate,
  -- which is what `acquire` reports. The sleep must end, leave the bucket alone and last as long as
  -- asked, and the arithmetic must not lose tokens.
  pub acquire-Granted :
      (fuel : ℕ) (amount : Carrier) (b : TokenBucket Carrier) (w : W)
      → MakesUp b.rate
      → Sleeps
      → le amount b.capacity ≡ true
      → let full = refill F b (clock w) in
        Granted amount (acquire F clock sleep (suc (suc fuel)) amount (b, w)) (
          if le amount full.tokens
          then nought
          else add nought (div (sub amount full.tokens) b.rate))
  acquire-Granted fuel amount b w m s small =
      rw (acquire-fits (suc (suc fuel)) amount b w small)
        (elim (Bool-cases (le amount (refill F b (clock w)).tokens)) [
          | inl there ↦ rw there (first_round (suc fuel) amount nought b w there)
          | inr short ↦ rw short (second_round fuel amount nought b w m s small short)
        ])

  -- An amount above the capacity is refused at once, without waiting and without touching the bucket.
  pub acquire-refuses :
      (fuel : ℕ) (amount : Carrier) (b : TokenBucket Carrier) (w : W)
      → le amount b.capacity ≡ false
      → acquire F clock sleep fuel amount (b, w) ≡ some (raised value_error, (b, w))
  unfolding acquire
  acquire-refuses fuel amount b w big = rw big
