-- ===== src/Basics/Timing.antt =====
-- How long the two ways of aiolab/basics.py to run delays take, in whole ticks of a clock that only
-- sleeping moves on.
use asyncio_tests.Base.{ℕ, ◌+◌, ◌≡◌, refl, ap, ltb, List, [], ◌∷◌, if◌then◌else◌, arith}
use asyncio_tests.Errors.{ok, Async}
use asyncio_tests.Whole.{whole}
use asyncio_tests.Basics.{delay, timed, run_sequential, run_concurrent}

-- The clock shows the state; a sleep moves it on.
abbrev pub clock : ℕ → ℕ
clock t = t

abbrev pub sleep : ℕ → Async ℕ (Unit {0})
sleep seconds t = (ok tt, t + seconds)

module _ {A : Type 0} where
  -- How each of some coroutines ends if it begins at time `t`: its value, and when it is there.
  abbrev pub Ends : List (Async ℕ A) → ℕ → List (A × ℕ) → Type 0
  Ends [] t [] = Unit
  Ends [] t (out ∷ outs) = ⊥
  Ends (f ∷ fs) t [] = ⊥
  Ends (f ∷ fs) t ((v, t') ∷ outs) = (f t ≡ (ok v, t')) × Ends fs t outs

  abbrev pub values : List (A × ℕ) → List A
  values [] = []
  values ((v, n) ∷ outs) = v ∷ values outs

  abbrev pub latest : ℕ → List (A × ℕ) → ℕ
  latest t [] = t
  latest t ((v, t') ∷ outs) = let rest = latest t outs in if ltb rest t' then t' else rest

  -- What asyncio documents of `gather`: the coroutines all begin now; if all return, it returns their
  -- values in the order of the arguments, when the last has returned.
  abbrev pub Gathers : (List (Async ℕ A) → Async ℕ (List A)) → Type 0
  Gathers gather =
      (fs : List (Async ℕ A)) (t : ℕ) (outs : List (A × ℕ))
      → Ends fs t outs
      → gather fs t ≡ (ok (values outs), latest t outs)

  -- Jobs by value and duration.
  abbrev pub delays : List (A × ℕ) → List (Async ℕ A)
  delays [] = []
  delays ((v, n) ∷ jobs) = delay sleep v n ∷ delays jobs

  abbrev pub sum : List (A × ℕ) → ℕ
  sum [] = 0
  sum ((v, n) ∷ jobs) = n + sum jobs

  abbrev pub longest : List (A × ℕ) → ℕ
  longest [] = 0
  longest ((v, n) ∷ jobs) = let rest = longest jobs in if ltb rest n then n else rest

  run_sequential-delays :
      (jobs : List (A × ℕ)) (t : ℕ)
      → run_sequential (delays jobs) t ≡ (ok (values jobs), t + sum jobs)
  unfolding run_sequential delay
  run_sequential-delays [] t = ground arith
  run_sequential-delays ((v, n) ∷ jobs) t = ground (arith, run_sequential-delays jobs (t + n))

  -- When the delays end.
  abbrev ends_at : ℕ → List (A × ℕ) → List (A × ℕ)
  ends_at t [] = []
  ends_at t ((v, n) ∷ jobs) = (v, t + n) ∷ ends_at t jobs

  delays-Ends : (jobs : List (A × ℕ)) (t : ℕ) → Ends (delays jobs) t (ends_at t jobs)
  unfolding delay
  delays-Ends [] t = tt
  delays-Ends ((v, n) ∷ jobs) t = (refl, delays-Ends jobs t)

  values-ends_at : (jobs : List (A × ℕ)) (t : ℕ) → values (ends_at t jobs) ≡ values jobs
  values-ends_at [] t = refl
  values-ends_at ((v, n) ∷ jobs) t = ap (λ vs. v ∷ vs) (values-ends_at jobs t)

  latest-ends_at : (jobs : List (A × ℕ)) (t : ℕ) → latest t (ends_at t jobs) ≡ t + longest jobs
  latest-ends_at [] t = omega arith
  latest-ends_at ((v, n) ∷ jobs) t = ground (arith, latest-ends_at jobs t)

  run_concurrent-delays :
      (gather : List (Async ℕ A) → Async ℕ (List A)) (jobs : List (A × ℕ)) (t : ℕ)
      → Gathers gather
      → run_concurrent gather (delays jobs) t ≡ (ok (values jobs), t + longest jobs)
  unfolding run_concurrent
  run_concurrent-delays gather jobs t g =
      rw
        (
          g (delays jobs) t (ends_at t jobs) (delays-Ends jobs t),
          values-ends_at jobs t,
          latest-ends_at jobs t,
        )
        refl

  -- Run one after the other or side by side, delays give the same values, in the order of the
  -- factories; in the first case it takes the sum of their times, in the second the longest.
  sum_or_longest :
      (gather : List (Async ℕ A) → Async ℕ (List A)) (jobs : List (A × ℕ)) (t : ℕ)
      → Gathers gather
      → (timed whole clock (run_sequential (delays jobs)) t
          ≡ (ok (values jobs, sum jobs), t + sum jobs))
        × (timed whole clock (run_concurrent gather (delays jobs)) t
            ≡ (ok (values jobs, longest jobs), t + longest jobs))
  unfolding timed
  sum_or_longest gather jobs t g = (
    ground (arith, run_sequential-delays jobs t),
    ground (arith, run_concurrent-delays gather jobs t g),
  )
