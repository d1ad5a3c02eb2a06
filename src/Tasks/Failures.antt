-- ===== src/Tasks/Failures.antt =====
-- Which of the tasks of `run_all` in aiolab/tasks.py have failed, told without its own filter.
use asyncio_tests.Base.{◌≡◌, ◌≢◌, inl, inr, refl, true, false, List, [], ◌∷◌, Bool-cases}
use asyncio_tests.Errors.{Exn, ok, raised, is_cancelled, cancelled}
use asyncio_tests.Tasks.Group.{Task, pending, done, failures}

-- The failures among the tasks, in their order: those that have ended by what is no cancellation.
pub data Failed {A : Type 0} : List (Task A) → List Exn → Type 0 where
  no_more : Failed [] []
  past_running : {ts : List (Task A)} {es : List Exn} → Failed ts es → Failed (pending ∷ ts) es
  past_value :
      {ts : List (Task A)} {es : List Exn} {v : A} → Failed ts es → Failed (done (ok v) ∷ ts) es
  past_stop :
      {ts : List (Task A)} {es : List Exn} → Failed ts es → Failed (done (raised cancelled) ∷ ts) es
  one_more :
      {ts : List (Task A)} {es : List Exn} {e : Exn}
      → e ≢ cancelled
      → Failed ts es
      → Failed (done (raised e) ∷ ts) (e ∷ es)

pub is_cancelled-eq : (e : Exn) → is_cancelled e ≡ true → e ≡ cancelled
unfolding is_cancelled
is_cancelled-eq cancelled h = refl
is_cancelled-eq _ h = cc

not_cancelled : (e : Exn) → is_cancelled e ≡ false → e ≢ cancelled
unfolding is_cancelled
not_cancelled e genuine same = cc (rw same at genuine)

module _ {A : Type 0} where
  pub failures-Failed : (ts : List (Task A)) → Failed ts (failures ts)
  unfolding failures
  failures-Failed [] = no_more
  failures-Failed (pending ∷ ts) = past_running (failures-Failed ts)
  failures-Failed (done (ok v) ∷ ts) = past_value (failures-Failed ts)
  failures-Failed (done (raised e) ∷ ts) = elim (Bool-cases (is_cancelled e)) [
    | inl stop ↦ rw (stop, is_cancelled-eq e stop) (past_stop (failures-Failed ts))
    | inr genuine ↦ rw genuine (one_more (not_cancelled e genuine) (failures-Failed ts))
  ]

  -- Tasks with failures are found to have some.
  pub Failed-some : {ts : List (Task A)} {es : List Exn} → Failed ts es → es ≢ [] → failures ts ≢ []
  unfolding failures is_cancelled
  Failed-some no_more some_es = some_es
  Failed-some (past_running f) some_es = Failed-some f some_es
  Failed-some (past_value f) some_es = Failed-some f some_es
  Failed-some (past_stop f) some_es = Failed-some f some_es
  Failed-some (one_more {e = e} genuine f) some_es = elim (Bool-cases (is_cancelled e)) [
    | inl stop ↦ absurd (genuine (is_cancelled-eq e stop))
    | inr goes ↦ rw goes (λ n. cc)
  ]
