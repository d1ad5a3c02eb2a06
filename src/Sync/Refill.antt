-- ===== src/Sync/Refill.antt =====
-- The tokens of the bucket of aiolab/sync.py: their bounds, and what a clock that steps back does.
use asyncio_tests.Base.{◌≡◌, true, Option, arith, Bool-cases, inl, inr}
use asyncio_tests.Errors.{ok}
use asyncio_tests.Float.{Float, min_of-le_left, le-min_of, le-of_not_le}
use asyncio_tests.Sync.Bucket.{TokenBucket, or_rate, init, refill, take, try_acquire}

module _ (F : Float) where
  open F use {
    Carrier, nought, add, sub, mul, le, le_refl, le_trans, le-add, sub-nonneg, sub-le, mul-nonneg,
    sub-nonpos,
  }

  -- There are never fewer than no tokens, nor more than the capacity.
  pub record IsValid (b : TokenBucket Carrier) : Type 0 where
    pub rate_nonneg : le nought b.rate ≡ true
    pub tokens_nonneg : le nought b.tokens ≡ true
    pub tokens_bounded : le b.tokens b.capacity ≡ true

  pub init-IsValid :
      (rate : Carrier) (capacity : Option Carrier) (now : Carrier) (b : TokenBucket Carrier)
      → init F rate capacity now ≡ ok b
      → IsValid b
  unfolding init
  init-IsValid rate capacity now b h = ground (
    arith,
    le-of_not_le F nought rate,
    le-of_not_le F nought (or_rate rate capacity),
    le_refl (or_rate rate capacity),
  )

  pub refill-IsValid :
      (b : TokenBucket Carrier) (now : Carrier) → IsValid b → IsValid (refill F b now)
  unfolding refill
  refill-IsValid b now v = elim (Bool-cases (le (sub now b.updated) nought)) [
    | inl back ↦ rw back (record {
      rate_nonneg = v.rate_nonneg;
      tokens_nonneg = v.tokens_nonneg;
      tokens_bounded = v.tokens_bounded;
    })
    | inr on ↦
        let gain = mul-nonneg (sub now b.updated) b.rate (le-of_not_le F _ _ on) v.rate_nonneg in
        rw on (record {
          rate_nonneg = v.rate_nonneg;
          tokens_nonneg =
              le-min_of F _ _ _ (le_trans _ _ _ v.tokens_nonneg v.tokens_bounded)
                (le_trans _ _ _ v.tokens_nonneg (le-add b.tokens _ gain));
          tokens_bounded = min_of-le_left F _ _;
        })
  ]

  pub take-IsValid :
      (b : TokenBucket Carrier) (amount : Carrier)
      → IsValid b
      → le nought amount ≡ true
      → IsValid (take F b amount).1
  unfolding take
  take-IsValid b amount v h = elim (Bool-cases (le amount b.tokens)) [
    | inl there ↦ rw there (record {
      rate_nonneg = v.rate_nonneg;
      tokens_nonneg = sub-nonneg _ _ there;
      tokens_bounded = le_trans _ _ _ (sub-le b.tokens amount h) v.tokens_bounded;
    })
    | inr short ↦ rw short v
  ]

  -- A request that does not wait keeps the tokens between zero and the capacity, whatever the clock
  -- shows.
  pub try_acquire-IsValid :
      (b : TokenBucket Carrier) (now amount : Carrier)
      → IsValid b
      → le nought amount ≡ true
      → IsValid (try_acquire F b now amount).1
  unfolding try_acquire
  try_acquire-IsValid b now amount v h = take-IsValid _ amount (refill-IsValid b now v) h
