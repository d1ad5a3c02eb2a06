-- ===== src/Basics/Tests.antt =====
-- Tests of the model of aiolab/basics.py, and its theorem at a concrete input.
use asyncio_tests.Base.{ℕ, ◌≡◌, refl, ltb, false, List, [], ◌∷◌, if◌then◌else◌}
use asyncio_tests.Errors.{Result, ok, raised, Async, value_error}
use asyncio_tests.Whole.{whole}
use asyncio_tests.Basics.{delay, timed, run_concurrent, consume, is_awaited_correctly}
use asyncio_tests.Basics.Timing.{clock, sleep, Gathers, delays}

abbrev with_first : Result ℕ × ℕ → Result (List ℕ) × ℕ → Result (List ℕ) × ℕ
with_first (ok v, t) (ok vs, t') = (ok (v ∷ vs), if ltb t' t then t else t')
with_first (raised e, t) rest = (raised e, t)
with_first (ok v, t) (raised e, t') = (raised e, t')

-- Each begins at the same time.
abbrev gather : List (Async ℕ ℕ) → Async ℕ (List ℕ)
gather [] t = (ok [], t)
gather (f ∷ fs) t = with_first (f t) (gather fs t)

gather-Gathers : Gathers gather
gather-Gathers [] t [] h = refl
gather-Gathers [] t (out ∷ outs) h = absurd h
gather-Gathers (f ∷ fs) t [] h = absurd h
gather-Gathers (f ∷ fs) t ((v, t') ∷ outs) (e, h) = rw (e, gather-Gathers fs t outs h) refl

-- The code's demonstration: four delays of the same length.
abbrev jobs : List (ℕ × ℕ)
jobs = (0, 50) ∷ (1, 50) ∷ (2, 50) ∷ (3, 50) ∷ []

-- The first failure ends a run one after the other.
stops_early :
    consume {A = ℕ} (delay sleep 1 5 ∷ (λ t. (raised value_error, t)) ∷ delay sleep 2 5 ∷ []) 0
    ≡ (raised value_error, 5)
unfolding consume delay
stops_early = refl

not_called :
    is_awaited_correctly (record { is_coroutine = false; is_future = false; has_await = false })
    ≡ false
unfolding is_awaited_correctly
not_called = refl

-- Side by side they take as long as one.
side_by_side :
    timed whole clock (run_concurrent gather (delays jobs)) 7 ≡ (ok (0 ∷ 1 ∷ 2 ∷ 3 ∷ [], 50), 57)
unfolding timed run_concurrent delay
side_by_side = refl
