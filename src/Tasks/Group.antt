-- ===== src/Tasks/Group.antt =====
-- `cancel_and_wait`, `run_all` and `run_all_settled` of aiolab/tasks.py. The children are the tasks
-- in input order, as they stand when the coroutine that waits for them runs on.
use asyncio_tests.Base.{ℕ, suc, Bool, false, not, ◌||◌, List, [], ◌∷◌, if◌then◌else◌}
use asyncio_tests.Errors.{
  Exn, Result, ok, raised, errors_of, is_cancelled, is_exception, concurrency_error,
  invalid_state_error, cancelled,
}

-- A task that runs, or how it ended. A task whose coroutine raised `CancelledError` is cancelled.
pub data Task (A : Type 0) : Type 0 where
  pending : Task A
  done : Result A → Task A

-- What `except CancelledError` and `except Exception` do not catch.
abbrev pub is_fatal : {A : Type 0} → Result A → Bool
is_fatal (ok v) = false
is_fatal (raised e) = not (is_cancelled e || is_exception e)

abbrev pub end_of : {A : Type 0} → Result A → Result (Unit {0})
end_of (ok v) = ok tt
end_of (raised e) = raised e

-- How a task that has ended is told: cancelled, by its exception, or by its result.
abbrev pub outcome_of : {A : Type 0} → Result A → Result A
outcome_of (ok v) = ok v
outcome_of (raised e) = if is_cancelled e then raised cancelled else raised e

module _ {A : Type 0} where
  -- The loop of `cancel_and_wait` over the tasks from number `i` on: each that was pending has been
  -- cancelled, and `unwind` says how it ends. Who cancels the caller meanwhile cancels the task that it
  -- awaits: that ends as `unwind` says, and the loop goes on.
  unfoldable pub cancel_and_wait :
      (ℕ → Result A) → ℕ → List (Task A) → Result (Unit {0}) × List (Task A)
  unfolding is_cancelled is_exception
  cancel_and_wait unwind i [] = (ok tt, [])
  cancel_and_wait unwind i (done r ∷ ts) =
      let (end, rest) = cancel_and_wait unwind (suc i) ts in (end, done r ∷ rest)
  cancel_and_wait unwind i (pending ∷ ts) =
      let (end, rest) = cancel_and_wait unwind (suc i) ts in
      if is_fatal (unwind i)
      then (end_of (unwind i), done (unwind i) ∷ ts)
      else (end, done (unwind i) ∷ rest)

  -- `[t.exception() for t in tasks if t.done() and not t.cancelled()]`, less what is None
  unfoldable pub failures : List (Task A) → List Exn
  unfolding is_cancelled
  failures [] = []
  failures (pending ∷ ts) = failures ts
  failures (done (ok v) ∷ ts) = failures ts
  failures (done (raised e) ∷ ts) =
      let rest = failures ts in if is_cancelled e then rest else e ∷ rest

  -- `[t.result() for t in tasks]`
  unfoldable pub results : List (Task A) → Result (List A)
  results [] = ok []
  results (pending ∷ ts) = raised invalid_state_error
  results (done (raised e) ∷ ts) = raised e
  results (done (ok v) ∷ ts) = elim (results ts) [ ok vs ↦ ok (v ∷ vs) | raised e ↦ raised e ]

  -- `cancel_and_wait(tasks)`, and then `raise`
  abbrev pub then_raise :
      {B : Type 0} → Exn → Result (Unit {0}) × List (Task A) → Result B × List (Task A)
  then_raise e (ok _, ts) = (raised e, ts)
  then_raise e (raised fatal, ts) = (raised fatal, ts)

  -- What `run_all` does with the failures that it found.
  unfoldable pub conclude :
      (ℕ → Result A) → List (Task A) → List Exn → Result (List A) × List (Task A)
  unfolding cancel_and_wait results
  conclude unwind ts [] = (results ts, ts)
  conclude unwind ts (e ∷ es) =
      then_raise (concurrency_error (errors_of (e ∷ es))) (cancel_and_wait unwind 0 ts)

  -- `run_all` from the end of `asyncio.wait` on, which returns or is cancelled; a cancellation that comes
  -- later, in `cancel_and_wait`, has no effect of its own. With no factory there
  -- are no tasks, and the result is the same empty list that the code returns at once.
  unfoldable pub run_all :
      Result (Unit {0}) → (ℕ → Result A) → List (Task A) → Result (List A) × List (Task A)
  unfolding conclude failures is_cancelled
  run_all (ok _) unwind ts = conclude unwind ts (failures ts)
  run_all (raised e) unwind ts =
      if is_cancelled e then then_raise e (cancel_and_wait unwind 0 ts) else (raised e, ts)

  -- The loop of `run_all_settled` that collects values, and exceptions as values.
  unfoldable pub outcomes : List (Task A) → Result (List (Result A))
  unfolding is_cancelled
  outcomes [] = ok []
  outcomes (pending ∷ ts) = raised invalid_state_error
  outcomes (done r ∷ ts) = elim (outcomes ts) [
    | ok rs ↦ ok (outcome_of r ∷ rs)
    | raised e ↦ raised e
  ]

  -- `run_all_settled` from the end of `asyncio.gather` on.
  unfoldable pub run_all_settled :
      Result (Unit {0}) → (ℕ → Result A) → List (Task A) → Result (List (Result A)) × List (Task A)
  unfolding cancel_and_wait outcomes is_cancelled
  run_all_settled (ok _) unwind ts = (outcomes ts, ts)
  run_all_settled (raised e) unwind ts =
      if is_cancelled e then then_raise e (cancel_and_wait unwind 0 ts) else (raised e, ts)
