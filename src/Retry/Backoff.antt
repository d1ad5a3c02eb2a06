-- ===== src/Retry/Backoff.antt =====
-- The delays of a policy that `__post_init__` accepts (aiolab/retry.py): their bounds and order.
use asyncio_tests.Base.{ℕ, zero, suc, ◌-◌, ◌≤◌, ◌≡◌, true, false, arith}
use asyncio_tests.Errors.{Result, ok, raised, Async}
use asyncio_tests.Float.{Float, min_of, min_of-le_left, min_of-le_right, le-min_of}
use asyncio_tests.Retry.Policy.{RetryPolicy, post_init, raw_delay, delay_for}

module _ (F : Float) where
  open F use {
    Carrier, nought, one, mul, pow, le, le_refl, le_trans, nought-le-one, mul-nonneg, mul-mono,
    mul-le, pow-nonneg, pow-mono,
  }

  -- What `__post_init__` has checked.
  pub record IsValid (p : RetryPolicy Carrier) : Type 0 where
    pub some_attempt : 1 ≤ p.attempts
    pub base_nonneg : le nought p.base_delay ≡ true
    pub factor_ge_one : le one p.factor ≡ true

  pub post_init-IsValid : (p q : RetryPolicy Carrier) → post_init F p ≡ ok q → IsValid p
  unfolding post_init
  post_init-IsValid p q h = ground arith

  product-nonneg :
      (p : RetryPolicy Carrier) (n : ℕ)
      → IsValid p
      → le nought (mul p.base_delay (pow p.factor n)) ≡ true
  product-nonneg p n v =
      mul-nonneg _ _ v.base_nonneg (pow-nonneg _ n (le_trans _ _ _ nought-le-one v.factor_ge_one))

  raw_delay-nonneg :
      (p : RetryPolicy Carrier) (n : ℕ)
      → IsValid p
      → le nought p.max_delay ≡ true
      → le nought (raw_delay F p n) ≡ true
  unfolding raw_delay
  raw_delay-nonneg p n v m = le-min_of F _ _ _ m (product-nonneg p _ v)

  raw_delay-le-max : (p : RetryPolicy Carrier) (n : ℕ) → le (raw_delay F p n) p.max_delay ≡ true
  unfolding raw_delay
  raw_delay-le-max p n = min_of-le_left F _ _

  min_of_mono : (a b c : Carrier) → le b c ≡ true → le (min_of F a b) (min_of F a c) ≡ true
  min_of_mono a b c h =
      le-min_of F a c _ (min_of-le_left F a b) (le_trans _ _ _ (min_of-le_right F a b) h)

  backoff_mono :
      (p : RetryPolicy Carrier) (i j n : ℕ)
      → i ≡ n
      → j ≡ suc n
      → IsValid p
      → le
          (min_of F p.max_delay (mul p.base_delay (pow p.factor i)))
          (min_of F p.max_delay (mul p.base_delay (pow p.factor j)))
        ≡ true
  backoff_mono p i j n ei ej v =
      rw (ei, ej)
        (min_of_mono _ _ _ (mul-mono _ _ _ v.base_nonneg (pow-mono p.factor n v.factor_ge_one)))

  -- The delays before jitter never fall from one attempt to the next.
  pub raw_delay_mono :
      (p q : RetryPolicy Carrier) (n : ℕ)
      → post_init F p ≡ ok q
      → le (raw_delay F p n) (raw_delay F p (suc n)) ≡ true
  unfolding raw_delay
  raw_delay_mono p q zero made = le_refl _
  raw_delay_mono p q (suc zero) made = le_refl _
  raw_delay_mono p q (suc (suc n)) made =
      backoff_mono p _ _ n (omega arith) (omega arith) (post_init-IsValid p q made)

  -- A returned delay lies between zero and `max_delay`.
  abbrev pub Bounded : {W : Type 0} → RetryPolicy Carrier → Result Carrier × W → Type 0
  Bounded p (ok d, w) = (le nought d ≡ true) × (le d p.max_delay ≡ true)
  Bounded p (raised e, w) = ⊥

  delay_for-Bounded :
      {W : Type 0} (p q : RetryPolicy Carrier) (n : ℕ) (rand : Async W Carrier) (w w' : W)
      (r : Carrier)
      → post_init F p ≡ ok q
      → le nought p.max_delay ≡ true
      → rand w ≡ (ok r, w')
      → le nought r ≡ true
      → le r one ≡ true
      → F.overflows p.factor (n - 2) ≡ false
      → Bounded p (delay_for F p n rand w)
  unfolding delay_for
  delay_for-Bounded p q n rand w w' r made m drawn lo hi small =
      let raw_lo = raw_delay-nonneg p n (post_init-IsValid p q made) m in
      let raw_hi = raw_delay-le-max p n in
      let cut = mul-le _ r raw_lo hi in
      ground (arith, le_refl nought, mul-nonneg _ r raw_lo lo, le_trans _ _ _ cut raw_hi)
