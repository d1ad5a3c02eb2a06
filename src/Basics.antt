-- ===== src/Basics.antt =====
-- aiolab/basics.py: coroutines awaited one after the other, and side by side. `asyncio.gather`,
-- `asyncio.sleep` and the clock are arguments.
pub mod Timing
mod Tests
use asyncio_tests.Base.{ℕ, Bool, ◌||◌, List, [], ◌∷◌}
use asyncio_tests.Errors.{Result, ok, raised, Async, pure, ◌>>=◌, ◌>>◌}
use asyncio_tests.Float.{Float}

module _ {W : Type 0} where
  unfoldable pub delay : {A S : Type 0} → (S → Async W (Unit {0})) → A → S → Async W A
  delay sleep value seconds = do sleep seconds; pure value

  -- The clock is read before and after.
  unfoldable pub timed :
      {A : Type 0} (F : Float) → (W → F.Carrier) → Async W A → Async W (A × F.Carrier)
  timed F clock awaitable w =
      let (r, w') = awaitable w in
      elim r [
        | ok result ↦ (ok (result, F.sub (clock w') (clock w)), w')
        | raised e ↦ (raised e, w')
      ]

  -- `[await factory() for factory in factories]`
  unfoldable pub run_sequential : {A : Type 0} → List (Async W A) → Async W (List A)
  run_sequential [] = pure []
  run_sequential (factory ∷ factories) = do
    value ← factory
    values ← run_sequential factories
    pure (value ∷ values)

  unfoldable pub run_concurrent :
      {A : Type 0} → (List (Async W A) → Async W (List A)) → List (Async W A) → Async W (List A)
  run_concurrent gather factories = gather factories

  -- `asyncio.to_thread` runs the function elsewhere.
  unfoldable pub to_thread : {A X : Type 0} → ((X → A) → X → Async W A) → (X → A) → X → Async W A
  to_thread run_in_thread fn args = run_in_thread fn args

  -- The awaitables come from an iterable, which makes no difference here.
  unfoldable pub consume : {A : Type 0} → List (Async W A) → Async W (List A)
  consume [] = pure []
  consume (item ∷ items) = do value ← item; values ← consume items; pure (value ∷ values)

-- What `is_awaited_correctly` asks of an object.
pub record Object : Type 0 where
  pub is_coroutine : Bool
  pub is_future : Bool
  pub has_await : Bool

unfoldable pub is_awaited_correctly : Object → Bool
is_awaited_correctly obj = obj.is_coroutine || obj.is_future || obj.has_await
