-- ===== src/Tasks/Winner.antt =====
-- Who wins a race of aiolab/tasks.py, and who runs on after it.
use asyncio_tests.Base.{ℕ, ◌≡◌, refl, ap, false, List, [], ◌∷◌, ◌++◌, All, arith, ◌∙◌, sym}
use mathlib.Core.List.{append-nil, append_assoc}
use asyncio_tests.Errors.{
  failing, Exn, Result, ok, raised, errors_of, is_cancelled, concurrency_error, cancelled,
}
use asyncio_tests.Tasks.Group.{Task, cancel_and_wait}
use asyncio_tests.Tasks.RunAll.{IsDone, Unwinds, cancel_and_wait-IsDone}
use asyncio_tests.Tasks.Race.{
  Verdict, decided, open_with, judge, running, end_with, proceed, race, first_result,
}

module _ {A : Type 0} where
  -- All children in the order in which they end.
  abbrev pub in_order : List (List (Result A)) → List (Result A)
  in_order [] = []
  in_order (batch ∷ batches) = batch ++ in_order batches

  -- The outcome of a race that the event loop hands over child by child.
  abbrev verdict_of : Verdict A → Result A
  verdict_of (decided r) = r
  verdict_of (open_with es) = raised (concurrency_error (errors_of es))

  abbrev then_on : Verdict A → (List Exn → Result A) → Result A
  then_on (decided r) rest = r
  then_on (open_with es) rest = rest es

  judge-append :
      (es : List Exn) (xs ys : List (Result A))
      → verdict_of (judge es (xs ++ ys)) ≡ then_on (judge es xs) (λ fs. verdict_of (judge fs ys))
  unfolding judge
  judge-append es [] ys = refl
  judge-append es (ok v ∷ xs) ys = refl
  judge-append es (raised e ∷ xs) ys = ground (arith, judge-append (es ++ e ∷ []) xs ys)

  race_none :
      (unwind : ℕ → Result A) (es : List Exn)
      → ((race unwind es []).0 ≡ verdict_of (judge es [])) × All IsDone (race unwind es []).1
  unfolding race
  race_none unwind es = (refl, tt)

  race_more :
      (unwind : ℕ → Result A) (es : List Exn) (b : List (Result A)) (bs : List (List (Result A)))
      → race unwind es (b ∷ bs)
        ≡ proceed
            (judge es b)
            (λ r. end_with r (cancel_and_wait unwind 0 (running bs)))
            (λ fs. race unwind fs bs)
  unfolding race
  race_more unwind es b bs = refl

  -- One batch, and then the rest of the race.
  proceed-IsDone :
      (unwind : ℕ → Result A) (v : Verdict A) (bs : List (List (Result A)))
      (rest : List Exn → Result A × List (Task A)) (after : List Exn → Result A)
      → Unwinds unwind
      → ((fs : List Exn) → ((rest fs).0 ≡ after fs) × All IsDone (rest fs).1)
      → let r = proceed v (λ r. end_with r (cancel_and_wait unwind 0 (running bs))) rest in
        (r.0 ≡ then_on v after) × All IsDone r.1
  proceed-IsDone unwind (open_with es) bs rest after u h = h es
  proceed-IsDone unwind (decided r) bs rest after u h =
      ground (arith, cancel_and_wait-IsDone unwind 0 (running bs) u)

  race-judge :
      (unwind : ℕ → Result A) (es : List Exn) (bs : List (List (Result A)))
      → Unwinds unwind
      → ((race unwind es bs).0 ≡ verdict_of (judge es (in_order bs)))
        × All IsDone (race unwind es bs).1
  race-judge unwind es [] u = race_none unwind es
  race-judge unwind es (b ∷ bs) u =
      let (e, d) =
        proceed-IsDone unwind (judge es b) bs (λ fs. race unwind fs bs)
          (λ fs. verdict_of (judge fs (in_order bs))) u (λ fs. race-judge unwind fs bs u) in
      rw (race_more unwind es b bs) (e ∙ sym (judge-append es b (in_order bs)), d)

  -- Children that fail before the winner are passed over.
  judge-failed :
      (es fs : List Exn) (rest : List (Result A))
      → All (λ e. is_cancelled e ≡ false) fs
      → judge es (failing fs rest) ≡ judge (es ++ fs) rest
  unfolding judge
  judge-failed es [] rest h = rw (append-nil es)
  judge-failed es (f ∷ fs) rest h =
      rw h.0 (judge-failed (es ++ f ∷ []) fs rest h.1 ∙ rw (append_assoc es (f ∷ []) fs))

  first_result-judge :
      (unwind : ℕ → Result A) (b : List (Result A)) (bs : List (List (Result A)))
      → Unwinds unwind
      → ((first_result unwind (b ∷ bs)).0 ≡ verdict_of (judge [] (in_order (b ∷ bs))))
        × All IsDone (first_result unwind (b ∷ bs)).1
  unfolding first_result
  first_result-judge unwind b bs u = race-judge unwind [] (b ∷ bs) u

  judged :
      (unwind : ℕ → Result A) (b : List (Result A)) (bs : List (List (Result A))) (fs : List Exn)
      (rest : List (Result A)) (r : Result A)
      → Unwinds unwind
      → in_order (b ∷ bs) ≡ failing fs rest
      → All (λ e. is_cancelled e ≡ false) fs
      → verdict_of (judge fs rest) ≡ r
      → ((first_result unwind (b ∷ bs)).0 ≡ r) × All IsDone (first_result unwind (b ∷ bs)).1
  judged unwind b bs fs rest r u o h e =
      let (same, stopped) = first_result-judge unwind b bs u in
      (
        same
            ∙ ap (λ os. verdict_of (judge [] os)) o
            ∙ ap verdict_of (judge-failed [] fs rest h)
            ∙ e,
        stopped,
      )

  -- If every child fails and none is cancelled, the race raises `ConcurrencyError` with all the
  -- errors, in the order in which the children ended. Cancelled children must unwind.
  pub lost_race :
      (unwind : ℕ → Result A) (b : List (Result A)) (bs : List (List (Result A))) (fs : List Exn)
      → Unwinds unwind
      → in_order (b ∷ bs) ≡ failing fs []
      → All (λ e. is_cancelled e ≡ false) fs
      → (first_result unwind (b ∷ bs)).0 ≡ raised (concurrency_error (errors_of fs))
  unfolding judge
  lost_race unwind b bs fs u o h =
      (judged unwind b bs fs [] (raised (concurrency_error (errors_of fs))) u o h refl).0

  -- A child that is cancelled before any has returned ends the whole race with `CancelledError`, also
  -- if another child would have returned later. Cancelled children must unwind.
  pub cancelled_child_ends_race :
      (unwind : ℕ → Result A) (b : List (Result A)) (bs : List (List (Result A))) (fs : List Exn)
      (rest : List (Result A))
      → Unwinds unwind
      → in_order (b ∷ bs) ≡ failing fs (raised cancelled ∷ rest)
      → All (λ e. is_cancelled e ≡ false) fs
      → (first_result unwind (b ∷ bs)).0 ≡ raised cancelled
  unfolding judge is_cancelled
  cancelled_child_ends_race unwind b bs fs rest u o h =
      (judged unwind b bs fs _ (raised cancelled) u o h refl).0
