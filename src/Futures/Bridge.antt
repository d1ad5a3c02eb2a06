-- ===== src/Futures/Bridge.antt =====
-- `settle` and `CallbackBridge` of aiolab/futures.py. A future is a task that nobody drives.
use asyncio_tests.Base.{Bool, true, false, Option, none, some, List, [], ◌∷◌, ◌++◌, if◌then◌else◌}
use mathlib.Core.List.{foldl}
use asyncio_tests.Errors.{Exn, ok, raised}
use asyncio_tests.Tasks.Group.{Task, pending, done}

module _ {A : Type 0} where
  -- A result of `none` is `None`.
  unfoldable pub settle : Task (Option A) → Option A → Option Exn → Bool × Task (Option A)
  settle (done r) result error = (false, done r)
  settle pending result (some e) = (true, done (raised e))
  settle pending result none = (true, done (ok result))

-- The bridge, with the calls of `settle` that `call_soon_threadsafe` has scheduled.
pub record CallbackBridge (A : Type 0) : Type 0 where
  pub from_thread : Bool
  pub future : Task (Option A)
  pub scheduled : List (Option A × Option Exn)

pub data Signal (A : Type 0) : Type 0 where
  resolves : A → Signal A
  rejects : Exn → Signal A
  -- the event loop runs what is scheduled
  ticks : Signal A

module _ {A : Type 0} where
  unfoldable pub bridge : Bool → CallbackBridge A
  bridge from_thread = record { from_thread = from_thread; future = pending; scheduled = [] }

  -- `settle` now, or on the loop's thread.
  unfoldable pub dispatch : CallbackBridge A → Option A → Option Exn → CallbackBridge A
  unfolding settle
  dispatch b result error =
      if b.from_thread
      then record b { scheduled = b.scheduled ++ (result, error) ∷ [] }
      else record b { future = (settle b.future result error).1 }

  unfoldable pub resolve : CallbackBridge A → A → CallbackBridge A
  unfolding dispatch
  resolve b value = dispatch b (some value) none

  unfoldable pub reject : CallbackBridge A → Exn → CallbackBridge A
  unfolding dispatch
  reject b error = dispatch b none (some error)

  unfoldable pub settle_all : Task (Option A) → List (Option A × Option Exn) → Task (Option A)
  unfolding settle
  settle_all f [] = f
  settle_all f ((result, error) ∷ calls) = settle_all (settle f result error).1 calls

  unfoldable pub tick : CallbackBridge A → CallbackBridge A
  unfolding settle_all
  tick b = record b { future = settle_all b.future b.scheduled; scheduled = [] }

  unfoldable pub signal : CallbackBridge A → Signal A → CallbackBridge A
  unfolding resolve reject tick
  signal b (resolves v) = resolve b v
  signal b (rejects e) = reject b e
  signal b ticks = tick b

  unfoldable pub signals : CallbackBridge A → List (Signal A) → CallbackBridge A
  unfolding signal
  signals = foldl signal
