-- ===== src/Cli/Handled.antt =====
-- What `demo_queue` of aiolab/cli.py prints.
use asyncio_tests.Base.{
  ℕ, ◌+◌, ◌≡◌, refl, ap, sym, ◌∙◌, true, false, some, List, [], ◌∷◌, ◌++◌, length, total, arith,
}
use asyncio_tests.Errors.{Exn, Result, ok, raised, errors_of, value_error}
use asyncio_tests.Queues.Pool.{WorkerPool, init, is_drained}
use asyncio_tests.Queues.Events.{Event, closes, all_ended, step, run}
use asyncio_tests.Queues.Accounting.{run-init-IsSound}
use asyncio_tests.Queues.Joining.{AreOrderly, run-IsExact, init-IsExact}
use asyncio_tests.Queues.Final.{drained-IsQuiet, run-closed, closes-closed}
use asyncio_tests.Queues.Holding.{all_accepted}
use asyncio_tests.Queues.Outcomes.{AllAnswer, of_item, join-outcomes}
use asyncio_tests.Queues.Quiet.{run-Stays}
use asyncio_tests.Queues.Closing.{aexit, aclose, gathered}
use asyncio_tests.Cli.Demos.{heading, number, errors, range_from}
use asyncio_tests.Cli.Pool.{handle, pool_lines, demo_queue}

module _ {A : Type 0} where
  ones : (xs : List A) → total (λ x. 1) xs ≡ length xs
  ones [] = refl
  ones (x ∷ xs) = omega (arith, ones xs)

  zeros : (xs : List A) → total (λ x. 0) xs ≡ 0
  zeros [] = refl
  zeros (x ∷ xs) = omega (arith, zeros xs)

abbrev pub new : WorkerPool ℕ ℕ
new = record {
  n_workers = 3;
  maxsize = 4;
  workers = [];
  queue = [];
  unfinished = 0;
  putters = [];
  closed = false;
  results = [];
  stats = record { submitted = 0; completed = 0; failed = 0; rejected = 0; errors = [] };
}

abbrev success : Result ℕ → ℕ
success (ok v) = 1
success (raised e) = 0

abbrev failure : Result ℕ → ℕ
failure (ok v) = 0
failure (raised e) = 1

run-append : (p : WorkerPool ℕ ℕ) (es fs : List (Event ℕ ℕ)) → run p (es ++ fs) ≡ run (run p es) fs
unfolding run
run-append p [] fs = refl
run-append p (e ∷ es) fs = run-append (step p e) es fs

abbrev value_errors : Exn → ℕ
value_errors value_error = 1
value_errors _ = 0

abbrev trouble : Result ℕ → ℕ
trouble (ok v) = 0
trouble (raised e) = value_errors e

only_one : (es : List Exn) → length es ≡ 1 → total value_errors es ≡ 1 → es ≡ value_error ∷ []
only_one [] h t = absurd (omega (arith, h))
only_one (e ∷ f ∷ es) h t = absurd (omega (arith, h))
only_one (value_error ∷ []) h t = refl
only_one (_ ∷ []) h t = absurd (omega (arith, t))

run-closing :
    (es draining : List (Event ℕ ℕ))
    → run new (es ++ closes ∷ draining) ≡ run (step (run new es) closes) draining
unfolding run
run-closing es draining = run-append new es (closes ∷ draining)

-- The statistics when all ten items have been handled.
counted :
    (es : List (Event ℕ ℕ))
    → AreOrderly es
    → AllAnswer handle new es
    → all_accepted new es ≡ range_from 0 10
    → is_drained (run new es) ≡ true
    → (run new es).putters ≡ []
    → ((run new es).stats.completed ≡ 9)
      × ((run new es).stats.failed ≡ 1)
      × ((run new es).stats.errors ≡ value_error ∷ [])
unfolding init
counted es o a ten done none_waiting =
    let q = run new es in
    let v = run-init-IsSound 3 4 new es refl in
    let good = join-outcomes handle success 3 4 new es refl o a done none_waiting in
    let bad = join-outcomes handle failure 3 4 new es refl o a done none_waiting in
    let told = join-outcomes handle trouble 3 4 new es refl o a done none_waiting in
    let nine : total (of_item handle success) (all_accepted new es) ≡ 9 = rw ten refl in
    let one : total (of_item handle failure) (all_accepted new es) ≡ 1 = rw ten refl in
    let the_one : total (of_item handle trouble) (all_accepted new es) ≡ 1 = rw ten refl in
    let failed : (run new es).stats.failed ≡ 1 =
      omega (arith, bad, one, zeros q.results, ones q.stats.errors, v.all_errors) in
    (
      omega (arith, good, nine, ones q.results, zeros q.stats.errors, v.all_results),
      failed,
      only_one q.stats.errors (omega (arith, failed, v.all_errors))
          (omega (arith, told, the_one, zeros q.results)),
    )

printed :
    {R : Type 0} (p : WorkerPool ℕ ℕ)
    → all_ended p.workers ≡ true
    → p.stats.submitted ≡ 10
    → p.stats.completed ≡ 9
    → p.stats.failed ≡ 1
    → p.stats.errors ≡ value_error ∷ []
    → pool_lines {R = R} (gathered p)
      ≡ some (
          ok (
            heading ∷ number 10 ∷ number 9 ∷ number 1 ∷ errors (errors_of (value_error ∷ [])) ∷ []))
printed p over submitted completed failed es = rw over (rw (submitted, completed, failed, es) refl)

-- Whatever the order in which the workers of `demo_queue` take its ten items, it prints that ten were
-- submitted, nine completed and one failed, with its error: in an orderly run that leaves no `submit`
-- waiting, in which handlers end as the demonstration's does, and in which the cancelled workers end.
pub demo_queue_lem :
    {R : Type 0} (es draining unwinding : List (Event ℕ ℕ))
    → AreOrderly (es ++ closes ∷ draining)
    → AllAnswer handle new (es ++ closes ∷ draining)
    → all_accepted new (es ++ closes ∷ draining) ≡ range_from 0 10
    → is_drained (run new (es ++ closes ∷ draining)) ≡ true
    → (run new (es ++ closes ∷ draining)).putters ≡ []
    → all_ended (run (run new (es ++ closes ∷ draining)) unwinding).workers ≡ true
    → demo_queue {R = R} es draining unwinding
      ≡ some (
          ok (
            heading ∷ number 10 ∷ number 9 ∷ number 1 ∷ errors (errors_of (value_error ∷ [])) ∷ []))
unfolding demo_queue init aexit aclose
demo_queue_lem {R} es draining unwinding o a ten done none_waiting over =
    let d = run new (es ++ closes ∷ draining) in
    let (completed, failed, the_error) =
      counted (es ++ closes ∷ draining) o a ten done none_waiting in
    let v = run-IsExact new (es ++ closes ∷ draining) o (init-IsExact 3 4 new refl) in
    let same : d ≡ run (step (run new es) closes) draining = run-closing es draining in
    let shut : d.closed ≡ true =
      rw same (run-closed (step (run new es) closes) draining (closes-closed (run new es))) in
    let (quiet, all) = drained-IsQuiet d v shut done none_waiting in
    let (_, (_, submitted', completed', failed', errors')) = run-Stays d unwinding quiet in
    rw (← same) (
      rw done (
        printed (run d unwinding) over
          (submitted' ∙ sym all ∙ ap (λ n. n + d.stats.failed) completed ∙ ap (λ n. 9 + n) failed)
          (completed' ∙ completed) (failed' ∙ failed) (errors' ∙ the_error)))
