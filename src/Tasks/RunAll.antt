-- ===== src/Tasks/RunAll.antt =====
-- What `run_all` and `run_all_settled` of aiolab/tasks.py return or raise, and what they leave behind.
use asyncio_tests.Base.{
  ℕ, suc, ◌≡◌, ◌≢◌, ◌⊎◌, inl, inr, refl, ap, ◌∙◌, subst, true, false, List, [], ◌∷◌, map, All,
  arith, Bool-cases, if_intro,
}
use asyncio_tests.Errors.{
  Exn, Result, ok, raised, errors_of, is_cancelled, concurrency_error, cancelled,
}
use asyncio_tests.Tasks.Failures.{Failed, is_cancelled-eq, failures-Failed, Failed-some}
use asyncio_tests.Tasks.Group.{
  Task, pending, done, is_fatal, outcome_of, cancel_and_wait, failures, results, then_raise,
  conclude, run_all, outcomes, run_all_settled,
}

abbrev pub IsDone : {A : Type 0} → Task A → Type 0
IsDone pending = ⊥
IsDone (done r) = Unit

-- A task that is cancelled ends by a value, an `Exception` or the cancellation.
abbrev pub Unwinds : {A : Type 0} → (ℕ → Result A) → Type 0
Unwinds unwind = (i : ℕ) → is_fatal (unwind i) ≡ false

-- What `asyncio.wait(…, FIRST_EXCEPTION)` promises when it returns, or that it was cancelled.
abbrev pub Waited : {A : Type 0} → Result (Unit {0}) → List (Task A) → Type 0
Waited (ok _) ts = (All IsDone ts) ⊎ (es : List Exn) × Failed ts es × (es ≢ [])
Waited (raised e) ts = is_cancelled e ≡ true

module _ {A : Type 0} where
  Waited-failures : (ts : List (Task A)) → Waited (ok tt) ts → (All IsDone ts) ⊎ (failures ts ≢ [])
  Waited-failures ts (inl all) = inl all
  Waited-failures ts (inr (es, f, some_es)) = inr (Failed-some f some_es)

  pub cancel_and_wait-IsDone :
      (unwind : ℕ → Result A) (i : ℕ) (ts : List (Task A))
      → Unwinds unwind
      → ((cancel_and_wait unwind i ts).0 ≡ ok tt) × All IsDone (cancel_and_wait unwind i ts).1
  unfolding cancel_and_wait
  cancel_and_wait-IsDone unwind i [] u = (refl, tt)
  cancel_and_wait-IsDone unwind i (done r ∷ ts) u =
      let (e, rest) = cancel_and_wait-IsDone unwind (suc i) ts u in (e, (tt, rest))
  cancel_and_wait-IsDone unwind i (pending ∷ ts) u =
      let (e, rest) = cancel_and_wait-IsDone unwind (suc i) ts u in rw (u i) (e, (tt, rest))

  then_raise-IsDone :
      {B : Type 0} (e : Exn) (unwind : ℕ → Result A) (ts : List (Task A))
      → Unwinds unwind
      → ((then_raise {B = B} e (cancel_and_wait unwind 0 ts)).0 ≡ raised e)
        × All IsDone (then_raise {B = B} e (cancel_and_wait unwind 0 ts)).1
  then_raise-IsDone e unwind ts u = ground (arith, cancel_and_wait-IsDone unwind 0 ts u)

  conclude-IsDone :
      (unwind : ℕ → Result A) (ts : List (Task A)) (es : List Exn)
      → Unwinds unwind
      → (All IsDone ts) ⊎ (es ≢ [])
      → All IsDone (conclude unwind ts es).1
  unfolding conclude
  conclude-IsDone unwind ts [] u (inl all) = all
  conclude-IsDone unwind ts [] u (inr some_failed) = absurd (some_failed refl)
  conclude-IsDone unwind ts (e ∷ es) u w =
      (then_raise-IsDone (concurrency_error (errors_of (e ∷ es))) unwind ts u).1

  -- However `run_all` ends, by a result, by failures or by its own cancellation, every child has
  -- stopped, if `asyncio.wait` keeps its promise and cancelled children unwind.
  run_all-stopped :
      (waited : Result (Unit {0})) (unwind : ℕ → Result A) (ts : List (Task A))
      → Unwinds unwind
      → Waited waited ts
      → All IsDone (run_all waited unwind ts).1
  unfolding run_all
  run_all-stopped (ok _) unwind ts u w =
      conclude-IsDone unwind ts (failures ts) u (Waited-failures ts w)
  run_all-stopped (raised e) unwind ts u w = rw w (then_raise-IsDone e unwind ts u).1

  -- The tasks that have all returned the values.
  abbrev pub returned : List A → List (Task A)
  returned [] = []
  returned (v ∷ vs) = done (ok v) ∷ returned vs

  -- With all children ended and none failed, the result is theirs, in input order, or a child was
  -- cancelled, and so is the caller.
  pub results-cases :
      (ts : List (Task A))
      → All IsDone ts
      → failures ts ≡ []
      → ((vs : List A) × (ts ≡ returned vs) × (results ts ≡ ok vs))
        ⊎ (results ts ≡ raised cancelled)
  unfolding failures results
  results-cases [] d f = inl ([], refl, refl)
  results-cases (pending ∷ ts) d f = absurd d.0
  results-cases (done (raised e) ∷ ts) d f = elim (Bool-cases (is_cancelled e)) [
    | inl stop ↦ inr (ap raised (is_cancelled-eq e stop))
    | inr fails ↦ cc (rw fails at f)
  ]
  results-cases (done (ok v) ∷ ts) d f = elim (results-cases ts d.1 f) [
    | inl (vs, e, r) ↦ inl (v ∷ vs, rw e, rw r)
    | inr r ↦ inr (rw r)
  ]

  conclude-cases :
      (unwind : ℕ → Result A) (ts : List (Task A)) (es : List Exn)
      → failures ts ≡ es
      → Unwinds unwind
      → (All IsDone ts) ⊎ (failures ts ≢ [])
      → let r = (conclude unwind ts es).0 in
        ((vs : List A) × (ts ≡ returned vs) × (r ≡ ok vs))
        ⊎ (es ≢ []) × (r ≡ raised (concurrency_error (errors_of es)))
        ⊎ (es ≡ []) × (r ≡ raised cancelled)
  unfolding conclude
  conclude-cases unwind ts [] f u (inr some_failed) = absurd (some_failed f)
  conclude-cases unwind ts [] f u (inl all) = elim (results-cases ts all f) [
    | inl p ↦ inl p
    | inr r ↦ inr (inr (refl, r))
  ]
  conclude-cases unwind ts (e ∷ es) f u w =
      inr
        (inl (λ n. cc, (then_raise-IsDone (concurrency_error (errors_of (e ∷ es))) unwind ts u).0))

  -- When `asyncio.wait` has kept its promise and cancelled children unwind, `run_all` does one of
  -- three things: every child has returned, and it returns their values in input order; or some have
  -- failed, and it raises `ConcurrencyError` with the failures found, in input order; or none has
  -- failed but a child was cancelled, and it raises `CancelledError`.
  run_all-cases :
      (unwind : ℕ → Result A) (ts : List (Task A))
      → Unwinds unwind
      → Waited (ok tt) ts
      → let r = (run_all (ok tt) unwind ts).0 in
        ((vs : List A) × (ts ≡ returned vs) × (r ≡ ok vs))
        ⊎ (failures ts ≢ []) × (r ≡ raised (concurrency_error (errors_of (failures ts))))
        ⊎ (failures ts ≡ []) × (r ≡ raised cancelled)
  unfolding run_all
  run_all-cases unwind ts u w = conclude-cases unwind ts (failures ts) refl u (Waited-failures ts w)

  -- How `run_all` ends: as its wait does, if that was cancelled, and else in one of three ways.
  abbrev pub Ends : Result (Unit {0}) → List (Task A) → Result (List A) → Type 0
  Ends (raised e) ts r = r ≡ raised cancelled
  Ends (ok _) ts r =
      ((vs : List A) × (ts ≡ returned vs) × (r ≡ ok vs))
      ⊎ ((es : List Exn) × Failed ts es
          × (es ≢ [])
          × (r ≡ raised (concurrency_error (errors_of es))))
      ⊎ Failed ts [] × (r ≡ raised cancelled)

  run_all-ways :
      (unwind : ℕ → Result A) (ts : List (Task A))
      → Unwinds unwind
      → Waited (ok tt) ts
      → Ends (ok tt) ts (run_all (ok tt) unwind ts).0
  run_all-ways unwind ts u w = elim (run_all-cases unwind ts u w) [
    | inl values ↦ inl values
    | inr rest ↦ elim rest [
      | inl (some_failed, e) ↦ inr (inl (failures ts, failures-Failed ts, some_failed, e))
      | inr (none_failed, e) ↦ inr (inr (subst (Failed ts) none_failed (failures-Failed ts), e))
    ]
  ]

  -- Structured concurrency, when `asyncio.wait` has kept its promise and cancelled children unwind.
  -- `run_all` does one of four things: every child has returned, and it returns their values in input
  -- order; or some have failed when the wait ends, and it raises `ConcurrencyError` with all their
  -- errors, in input order; or none has failed but a child was cancelled, and it raises
  -- `CancelledError`; or it is cancelled while it waits, and raises `CancelledError`. However it ends,
  -- every child has stopped.
  pub run_all-Ends :
      (waited : Result (Unit {0})) (unwind : ℕ → Result A) (ts : List (Task A))
      → Unwinds unwind
      → Waited waited ts
      → Ends waited ts (run_all waited unwind ts).0 × All IsDone (run_all waited unwind ts).1
  unfolding run_all
  run_all-Ends (ok _) unwind ts u w =
      (run_all-ways unwind ts u w, run_all-stopped (ok tt) unwind ts u w)
  run_all-Ends (raised e) unwind ts u w = (
    rw w ((then_raise-IsDone e unwind ts u).0 ∙ ap raised (is_cancelled-eq e w)),
    run_all-stopped (raised e) unwind ts u w,
  )

  -- No cancellation is reported as a failure, nor a value.
  pub failures-genuine : (ts : List (Task A)) → All (λ e. is_cancelled e ≡ false) (failures ts)
  unfolding failures
  failures-genuine [] = tt
  failures-genuine (pending ∷ ts) = failures-genuine ts
  failures-genuine (done (ok v) ∷ ts) = failures-genuine ts
  failures-genuine (done (raised e) ∷ ts) =
      if_intro (All (λ e. is_cancelled e ≡ false)) (is_cancelled e) (λ stop. failures-genuine ts)
        (λ fails. (fails, failures-genuine ts))

  outcome_of-eq : (r : Result A) → outcome_of r ≡ r
  outcome_of-eq (ok v) = refl
  outcome_of-eq (raised e) = elim (Bool-cases (is_cancelled e)) [
    | inl stop ↦ rw (stop, is_cancelled-eq e stop)
    | inr fails ↦ rw fails
  ]

  outcomes-done : (rs : List (Result A)) → outcomes (map done rs) ≡ ok rs
  unfolding outcomes
  outcomes-done [] = refl
  outcomes-done (r ∷ rs) = rw (outcomes-done rs, outcome_of-eq r)

  -- Once all its children have ended, `run_all_settled` raises nothing and reports how each ended,
  -- in input order: its value, its exception, or that it was cancelled.
  pub run_all_settled-done :
      (unwind : ℕ → Result A) (rs : List (Result A))
      → run_all_settled (ok tt) unwind (map done rs) ≡ (ok rs, map done rs)
  unfolding run_all_settled
  run_all_settled-done unwind rs = rw (outcomes-done rs)
