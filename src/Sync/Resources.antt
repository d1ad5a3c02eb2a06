-- ===== src/Sync/Resources.antt =====
-- `ResourcePool` and `Once` of aiolab/sync.py, one function for each stretch of code that runs without
-- an `await`. The free resources are a stack, the top first.
use asyncio_tests.Base.{
  ℕ, suc, ◌-◌, ltb, Bool, true, false, Option, none, some, List, [], ◌∷◌, ◌++◌, length, get_elem?,
  remove_at, if◌then◌else◌,
}
use mathlib.Core.List.{foldl}
use asyncio_tests.Errors.{Result, ok, raised, value_error}

pub record ResourcePool (T : Type 0) : Type 0 where
  pub free : List T
  pub size : ℕ
  pub peak_in_use : ℕ
  pub in_use : ℕ

-- The pool with the resources that its borrowers hold.
pub record Lent (T : Type 0) : Type 0 where
  pub pool : ResourcePool T
  pub held : List T

pub data Borrowing : Type 0 where
  -- a call of `acquire` begins or runs on after its wait; a borrower leaves its `async with`
  enters : Borrowing
  leaves : (borrower : ℕ) → Borrowing

-- The larger of two counts.
abbrev pub max : ℕ → ℕ → ℕ
max m n = if ltb m n then n else m

module _ {T : Type 0} where
  abbrev pub stacked : List T → List T → List T
  stacked free [] = free
  stacked free (r ∷ rs) = stacked (r ∷ free) rs

  -- `__init__`
  unfoldable pub pool_of : List T → Result (ResourcePool T)
  pool_of [] = raised value_error
  pool_of (r ∷ rs) =
      ok
        (record { free = stacked [] (r ∷ rs); size = length (r ∷ rs); peak_in_use = 0; in_use = 0 })

  -- `acquire`, which waits while nothing is free: the borrower has a resource, or not yet.
  unfoldable pub lend : Lent T → List T → Lent T
  lend l [] = l
  lend l (r ∷ free) = record {
    pool = record l.pool {
      free = free;
      in_use = suc l.pool.in_use;
      peak_in_use = max l.pool.peak_in_use (suc l.pool.in_use);
    };
    held = l.held ++ r ∷ [];
  }

  unfoldable pub release : ResourcePool T → T → ResourcePool T
  release p r = record p { in_use = p.in_use - 1; free = r ∷ p.free }

  -- `_Borrow.__aexit__`
  unfoldable pub give_back : Lent T → ℕ → Option T → Lent T
  unfolding release
  give_back l i none = l
  give_back l i (some r) = record { pool = release l.pool r; held = remove_at l.held i }

  unfoldable pub borrow : Lent T → Borrowing → Lent T
  unfolding lend give_back
  borrow l enters = lend l l.pool.free
  borrow l (leaves i) = give_back l i (get_elem? l.held i)

  unfoldable pub borrow_all : Lent T → List Borrowing → Lent T
  unfolding borrow
  borrow_all = foldl borrow

pub record Once (T : Type 0) : Type 0 where
  pub done : Bool
  pub result : Option T
  pub calls : ℕ

module _ {T : Type 0} where
  unfoldable pub fresh : Once T
  fresh = record { done = false; result = none; calls = 0 }

  -- `Once.run` by a caller that has the lock, or finds the flag set, and whose factory would end so;
  -- the lock keeps the other callers out while the factory runs. `none` stands for `None`.
  unfoldable pub run_once : Once T → Result T → Result (Option T) × Once T
  run_once o (ok v) =
      if o.done
      then (ok o.result, o)
      else (ok (some v), record { done = true; result = some v; calls = suc o.calls })
  run_once o (raised e) =
      if o.done then (ok o.result, o) else (raised e, record o { calls = suc o.calls })

  -- The callers one after the other, as they get the lock.
  unfoldable pub run_each : Once T → List (Result T) → List (Result (Option T)) × Once T
  unfolding run_once
  run_each o [] = ([], o)
  run_each o (r ∷ rs) =
      let (first, o') = run_once o r in let (others, o'') = run_each o' rs in (first ∷ others, o'')
