-- ===== src/Sync/Rate.antt =====
-- The limit that the bucket of aiolab/sync.py enforces on requests that do not wait, and how a clock
-- that steps back gets past it. The bound is about exact arithmetic: its laws are named here.
use asyncio_tests.Base.{◌≡◌, true, false, List, [], ◌∷◌, arith, if◌then◌else◌, Bool-cases, inl, inr}
use asyncio_tests.Float.{Float, min_of, min_of-le_right}
use asyncio_tests.Sync.Bucket.{TokenBucket, refill, take, try_acquire}
use asyncio_tests.Sync.Refill.{IsValid, try_acquire-IsValid}

-- Arithmetic without rounding.
pub record IsExact (F : Float) : Type 0 where
  pub add_comm : (a b : F.Carrier) → F.add a b ≡ F.add b a
  pub add_assoc : (a b c : F.Carrier) → F.add (F.add a b) c ≡ F.add a (F.add b c)
  pub nought-add : (a : F.Carrier) → F.add F.nought a ≡ a
  pub add-mono : (a b c : F.Carrier) → F.le b c ≡ true → F.le (F.add a b) (F.add a c) ≡ true
  pub add-sub : (a b : F.Carrier) → F.le b a ≡ true → F.add b (F.sub a b) ≡ a
  pub mul-sub :
      (a b c r : F.Carrier)
      → F.le a b ≡ true
      → F.le b c ≡ true
      → F.add (F.mul (F.sub b a) r) (F.mul (F.sub c b) r) ≡ F.mul (F.sub c a) r

module _ (F : Float) where
  open F use {Carrier, nought, add, sub, mul, le, le-add, sub-nonneg, mul-nonneg}

  -- Requests at their times: what is granted in all, and the bucket left.
  unfoldable pub serve :
      TokenBucket Carrier → List (Carrier × Carrier) → Carrier × TokenBucket Carrier
  serve b [] = (nought, b)
  serve b ((now, amount) ∷ rest) =
      let (got, b1) = try_acquire F b now amount in
      let (granted, b2) = serve b1 rest in (add (if got then amount else nought) granted, b2)

  -- The clock does not step back, and no amount is negative.
  abbrev pub Forward : Carrier → List (Carrier × Carrier) → Type 0
  Forward from [] = Unit
  Forward from ((now, amount) ∷ rest) =
      (le from now ≡ true) × (le nought amount ≡ true) × Forward now rest

  refill-tokens :
      (b : TokenBucket Carrier) (now : Carrier)
      → le nought b.rate ≡ true
      → le b.updated now ≡ true
      → le (refill F b now).tokens (add b.tokens (mul (sub now b.updated) b.rate)) ≡ true
  unfolding refill
  refill-tokens b now h on = ground (
    arith,
    min_of-le_right F b.capacity (add b.tokens (mul (sub now b.updated) b.rate)),
    le-add b.tokens _ (mul-nonneg (sub now b.updated) b.rate (sub-nonneg _ _ on) h),
  )

module _ (F : Float) (x : IsExact F) where
  open F use {Carrier, nought, add, sub, mul, le, le_refl, le_trans, le-add, sub-nonneg, mul-nonneg}
  open x use {add_comm, add_assoc, nought-add, add-mono, add-sub, mul-sub}

  add-mono_left : (a b c : Carrier) → le b c ≡ true → le (add b a) (add c a) ≡ true
  add-mono_left a b c h = rw (add_comm b a, add_comm c a) (add-mono a b c h)

  -- Two bounds, one after the other.
  join_bounds :
      (g t t1 m1 granted t2 m2 m : Carrier)
      → le (add g t1) (add t m1) ≡ true
      → le (add granted t2) (add t1 m2) ≡ true
      → add m1 m2 ≡ m
      → le (add (add g granted) t2) (add t m) ≡ true
  join_bounds g t t1 m1 granted t2 m2 m first second e =
      rw (add_assoc g granted t2, ← e, ← add_assoc t m1 m2)
        (le_trans _ _ _ (add-mono g _ _ second)
          (rw (← add_assoc g t1 m2) (add-mono_left m2 _ _ first)))

  take-tokens :
      (b : TokenBucket Carrier) (amount : Carrier)
      → add (if (take F b amount).0 then amount else nought) (take F b amount).1.tokens ≡ b.tokens
  unfolding take
  take-tokens b amount = elim (Bool-cases (le amount b.tokens)) [
    | inl there ↦ rw there (add-sub _ _ there)
    | inr short ↦ rw short (nought-add _)
  ]

  try_acquire-tokens :
      (b : TokenBucket Carrier) (now amount : Carrier)
      → le nought b.rate ≡ true
      → le b.updated now ≡ true
      → le
          (add
            (if (try_acquire F b now amount).0 then amount else nought)
            (try_acquire F b now amount).1.tokens)
          (add b.tokens (mul (sub now b.updated) b.rate))
        ≡ true
  unfolding try_acquire
  try_acquire-tokens b now amount h on =
      rw (take-tokens (refill F b now) amount) (refill-tokens F b now h on)

  try_acquire-updated :
      (b : TokenBucket Carrier) (now amount : Carrier)
      → ((try_acquire F b now amount).1.updated ≡ now)
        × ((try_acquire F b now amount).1.rate ≡ b.rate)
  unfolding try_acquire refill take
  try_acquire-updated b now amount = ground arith

  serve-updated :
      (b : TokenBucket Carrier) (reqs : List (Carrier × Carrier))
      → Forward F b.updated reqs
      → le b.updated (serve F b reqs).1.updated ≡ true
  unfolding serve
  serve-updated b [] h = le_refl _
  serve-updated b ((now, amount) ∷ rest) (on, _, h) =
      let (at, _) = try_acquire-updated b now amount in
      let b1 = (try_acquire F b now amount).1 in
      le_trans _ _ _ on (rw at at (serve-updated b1 rest (rw at h)))

  serve-tokens :
      (b : TokenBucket Carrier) (reqs : List (Carrier × Carrier))
      → le nought b.rate ≡ true
      → Forward F b.updated reqs
      → let (granted, b') = serve F b reqs in
        le (add granted b'.tokens) (add b.tokens (mul (sub b'.updated b.updated) b.rate)) ≡ true
  unfolding serve
  serve-tokens b [] r h =
      rw (nought-add b.tokens) (le-add _ _ (mul-nonneg _ _ (sub-nonneg _ _ (le_refl b.updated)) r))
  serve-tokens b ((now, amount) ∷ rest) r (on, _, h) =
      let b1 = (try_acquire F b now amount).1 in
      let (at, rate) = try_acquire-updated b now amount in
      let later = serve-updated b1 rest (rw at h) in
      join_bounds _ b.tokens b1.tokens _ _ _ _ _ (try_acquire-tokens b now amount r on)
        (serve-tokens b1 rest (rw rate r) (rw at h))
        (rw (at, rate) (mul-sub _ now _ b.rate on (rw at at later)))

  serve-IsValid :
      (b : TokenBucket Carrier) (reqs : List (Carrier × Carrier))
      → IsValid F b
      → Forward F b.updated reqs
      → IsValid F (serve F b reqs).1
  unfolding serve
  serve-IsValid b [] v h = v
  serve-IsValid b ((now, amount) ∷ rest) v (on, some_amount, h) =
      let (at, _) = try_acquire-updated b now amount in
      serve-IsValid (try_acquire F b now amount).1 rest
        (try_acquire-IsValid F b now amount v some_amount) (rw at h)

  -- While the clock does not step back, requests that do not wait are granted no more tokens in all
  -- than the capacity and the rate times the time that has passed.
  pub serve-le-rate :
      (b : TokenBucket Carrier) (reqs : List (Carrier × Carrier))
      → IsValid F b
      → Forward F b.updated reqs
      → let (granted, b') = serve F b reqs in
        le granted (add b.capacity (mul (sub b'.updated b.updated) b.rate)) ≡ true
  serve-le-rate b reqs v h =
      let left = serve-IsValid b reqs v h in
      le_trans _ _ _ (le-add _ _ left.tokens_nonneg) (
        le_trans _ _ _ (serve-tokens b reqs v.rate_nonneg h) (add-mono_left _ _ _ v.tokens_bounded))

-- When the clock shows an earlier time than the last refill, nothing is added; but once it is back at
-- the time of that refill, where no time has passed on balance, the bucket is given the tokens of the
-- step.
pub backward_clock_mints :
    (F : Float) (b : TokenBucket F.Carrier) (early : F.Carrier)
    → F.le early b.updated ≡ true
    → F.le (F.sub b.updated early) F.nought ≡ false
    → ((refill F b early).tokens ≡ b.tokens)
      × ((refill F (refill F b early) b.updated).tokens
          ≡ min_of F b.capacity (F.add b.tokens (F.mul (F.sub b.updated early) b.rate)))
unfolding refill
backward_clock_mints F b early back step = ground (arith, F.sub-nonpos early b.updated back)
