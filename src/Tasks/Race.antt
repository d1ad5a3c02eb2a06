-- ===== src/Tasks/Race.antt =====
-- `first_result` of aiolab/tasks.py. `asyncio.wait` hands over the children that have ended, batch by
-- batch; each batch is a set, in an order of the event loop's choice.
use asyncio_tests.Base.{ℕ, List, [], ◌∷◌, ◌++◌, map, if◌then◌else◌}
use asyncio_tests.Errors.{
  Exn, Result, ok, raised, errors_of, is_cancelled, concurrency_error, value_error,
}
use asyncio_tests.Tasks.Group.{Task, pending, cancel_and_wait}

-- What a batch comes to: the race is decided, or goes on with the errors so far.
pub data Verdict (A : Type 0) : Type 0 where
  decided : Result A → Verdict A
  open_with : List Exn → Verdict A

module _ {A : Type 0} where
  -- The `for` loop over one batch. `task.exception()` raises if the task was cancelled.
  unfoldable pub judge : List Exn → List (Result A) → Verdict A
  unfolding is_cancelled
  judge errors [] = open_with errors
  judge errors (ok v ∷ batch) = decided (ok v)
  judge errors (raised e ∷ batch) =
      let rest = judge (errors ++ e ∷ []) batch in
      if is_cancelled e then decided (raised e) else rest

  -- The children of the batches that have not come, which still run.
  abbrev pub running : List (List (Result A)) → List (Task A)
  running [] = []
  running (batch ∷ batches) = map (λ _. pending) batch ++ running batches

  -- `cancel_and_wait` of the losers, and then the end of the race.
  abbrev pub end_with : Result A → Result (Unit {0}) × List (Task A) → Result A × List (Task A)
  end_with r (ok _, losers) = (r, losers)
  end_with r (raised fatal, losers) = (raised fatal, losers)

  abbrev pub proceed :
      Verdict A
      → (Result A → Result A × List (Task A))
      → (List Exn → Result A × List (Task A))
      → Result A × List (Task A)
  proceed (decided r) stop rest = stop r
  proceed (open_with errors) stop rest = rest errors

  -- The `while` loop: the batches are the children in the order in which they end. The result comes
  -- with the losers as they are left.
  unfoldable pub race :
      (ℕ → Result A) → List Exn → List (List (Result A)) → Result A × List (Task A)
  unfolding judge cancel_and_wait
  race unwind errors [] = (raised (concurrency_error (errors_of errors)), [])
  race unwind errors (batch ∷ batches) =
      proceed (judge errors batch) (λ r. end_with r (cancel_and_wait unwind 0 (running batches)))
        (λ es. race unwind es batches)

  -- `first_result`, with the caller not cancelled.
  unfoldable pub first_result : (ℕ → Result A) → List (List (Result A)) → Result A × List (Task A)
  unfolding race
  first_result unwind [] = (raised value_error, [])
  first_result unwind (batch ∷ batches) = race unwind [] (batch ∷ batches)
