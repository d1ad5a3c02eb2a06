-- ===== src/Futures/Fanout.antt =====
-- `as_completed_results` and `gather_with_index` of aiolab/futures.py, the latter with the caller not
-- cancelled.
use asyncio_tests.Base.{ℕ, suc, List, [], ◌∷◌, ◌++◌, map, if◌then◌else◌}
use asyncio_tests.Errors.{
  Exn, Result, ok, raised, errors_of, is_cancelled, cancelled, concurrency_error,
}
use asyncio_tests.Tasks.Group.{Task, pending, done, failures, results}

-- A call of `asyncio.wait`: it hands over the children that have ended, by input index and in an order
-- of the event loop's choice, or the caller is cancelled in it.
pub data Wait (A : Type 0) : Type 0 where
  handed : List (ℕ × Result A) → Wait A
  interrupted : Wait A

-- What the `for` loop over a batch comes to: `out` as it is then, or an exception.
pub data Report (A : Type 0) : Type 0 where
  reported : List (ℕ × Result A) → Report A
  broken_off : Exn → Report A

module _ {A : Type 0} where
  -- `task.exception()` raises if the task was cancelled.
  unfoldable pub report : List (ℕ × Result A) → List (ℕ × Result A) → Report A
  unfolding is_cancelled
  report out [] = reported out
  report out ((i, ok v) ∷ batch) = report (out ++ (i, ok v) ∷ []) batch
  report out ((i, raised e) ∷ batch) =
      let rest = report (out ++ (i, raised e) ∷ []) batch in
      if is_cancelled e then broken_off e else rest

  -- The children that calls of `asyncio.wait` to come would hand over.
  abbrev pub running : List (Wait A) → List (Task A)
  running [] = []
  running (handed batch ∷ waits) = map (λ _. pending) batch ++ running waits
  running (interrupted ∷ waits) = running waits

  -- `task.cancel()` of each, and `gather` with `return_exceptions`; `unwind` says how a cancelled task
  -- ends.
  unfoldable pub cancel_all : (ℕ → Result A) → ℕ → List (Task A) → List (Task A)
  cancel_all unwind i [] = []
  cancel_all unwind i (done r ∷ ts) = done r ∷ cancel_all unwind (suc i) ts
  cancel_all unwind i (pending ∷ ts) = done (unwind i) ∷ cancel_all unwind (suc i) ts

  abbrev pub proceed :
      Report A
      → (List (ℕ × Result A) → Result (List (ℕ × Result A)) × List (Task A))
      → List (Task A)
      → Result (List (ℕ × Result A)) × List (Task A)
  proceed (reported out) rest stopped = rest out
  proceed (broken_off e) rest stopped = (raised e, stopped)

  -- The `while` loop, and `except CancelledError`: what is returned or raised, and the children that
  -- were cancelled, as they are left.
  unfoldable pub wait_loop :
      (ℕ → Result A)
      → List (ℕ × Result A)
      → List (Wait A)
      → Result (List (ℕ × Result A)) × List (Task A)
  unfolding report cancel_all
  wait_loop unwind out [] = (ok out, [])
  wait_loop unwind out (interrupted ∷ waits) =
      (raised cancelled, cancel_all unwind 0 (running waits))
  wait_loop unwind out (handed batch ∷ waits) =
      proceed (report out batch) (λ more. wait_loop unwind more waits)
        (cancel_all unwind 0 (running waits))

  -- With no factory there is no call of `asyncio.wait`, and the result is the empty list that the code
  -- returns at once.
  unfoldable pub as_completed_results :
      (ℕ → Result A) → List (Wait A) → Result (List (ℕ × Result A)) × List (Task A)
  unfolding wait_loop
  as_completed_results unwind waits = wait_loop unwind [] waits

  unfoldable pub aggregate : List (Task A) → List Exn → Result (List A)
  unfolding results
  aggregate ts [] = results ts
  aggregate ts (e ∷ es) = raised (concurrency_error (errors_of (e ∷ es)))

  -- `gather_with_index`, with the tasks as `gather` leaves them.
  unfoldable pub gather_with_index : List (Task A) → Result (List A)
  unfolding aggregate failures
  gather_with_index ts = aggregate ts (failures ts)
