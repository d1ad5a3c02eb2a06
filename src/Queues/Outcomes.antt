-- ===== src/Queues/Outcomes.antt =====
-- What the workers of aiolab/queues.py have made of the items, each counted by any weight of its outcome.
use asyncio_tests.Base.{
  ℕ, ◌+◌, ◌≡◌, refl, true, Option, none, some, List, [], ◌∷◌, get_elem?, total, total-append, arith,
}
use asyncio_tests.Errors.{Exn, Result, ok, raised}
use asyncio_tests.Queues.Pool.{
  WorkerPool, Worker, waiting, handling, ended, init, start, submit, try_submit, get, handled,
  is_drained,
}
use asyncio_tests.Queues.Events.{
  Event, starts, submits, tries, resumes, gives_up, takes, handles, stops, closes, forgets, resume,
  take_next, handle, stop, step, run,
}
use asyncio_tests.Queues.Joining.{IsOrderly, AreOrderly}
use asyncio_tests.Queues.Holding.{
  accepted, all_accepted, held, in_hands, dealt, step-held, init-held, join-held,
}

module _ {T R : Type 0} (handler : T → Result R) where
  abbrev pub AnswersAt : Option (Worker T) → Result R → Type 0
  AnswersAt (some (handling x)) r = r ≡ handler x
  AnswersAt _ r = Unit

  -- Each handler that ends does so as the item in its hands makes it.
  abbrev pub Answers : WorkerPool T R → Event T R → Type 0
  Answers p (handles i r report) = AnswersAt (get_elem? p.workers i) r
  Answers p _ = Unit

  abbrev pub AllAnswer : WorkerPool T R → List (Event T R) → Type 0
  AllAnswer p [] = Unit
  AllAnswer p (e ∷ es) = Answers p e × AllAnswer (step p e) es

  module _ (w : Result R → ℕ) where
    abbrev pub of_item : T → ℕ
    of_item x = w (handler x)

    -- The outcomes that the pool has kept.
    abbrev pub kept : WorkerPool T R → ℕ
    kept p = total (λ r. w (ok r)) p.results + total (λ e. w (raised e)) p.stats.errors

    take_next-kept :
        (p : WorkerPool T R) (i : ℕ) (o : Option (Worker T)) → kept (take_next p i o) ≡ kept p
    unfolding take_next get
    take_next-kept p i (some waiting) = ground arith
    take_next-kept p i none = refl
    take_next-kept p i (some (handling y)) = refl
    take_next-kept p i (some ended) = refl

    resume-kept : (p : WorkerPool T R) (i : ℕ) (o : Option T) → kept (resume p i o) ≡ kept p
    unfolding resume
    resume-kept p i none = refl
    resume-kept p i (some x) = ground arith

    stop-kept : (p : WorkerPool T R) (i : ℕ) (o : Option (Worker T)) → kept (stop p i o) ≡ kept p
    unfolding stop
    stop-kept p i (some waiting) = refl
    stop-kept p i none = refl
    stop-kept p i (some (handling y)) = refl
    stop-kept p i (some ended) = refl

    handle-kept :
        (p : WorkerPool T R) (i : ℕ) (o : Option (Worker T)) (r : Result R)
        (report : Result (Unit {0}))
        → IsOrderly {T = T} (handles i r report)
        → AnswersAt o r
        → kept (handle p i o r report) ≡ kept p + in_hands of_item o
    unfolding handle handled
    handle-kept p i (some (handling x)) (ok v) report o a =
        ground (arith, total-append (λ (r : R). w (ok r)) p.results (v ∷ []))
    handle-kept p i (some (handling x)) (raised exc) report o a =
        ground (arith, total-append (λ (e : Exn). w (raised e)) p.stats.errors (exc ∷ []))
    handle-kept p i none r report o a = omega arith
    handle-kept p i (some waiting) r report o a = omega arith
    handle-kept p i (some ended) r report o a = omega arith

    step-kept :
        (p : WorkerPool T R) (e : Event T R)
        → IsOrderly e
        → Answers p e
        → kept (step p e) ≡ kept p + dealt of_item p e
    unfolding step start submit try_submit
    step-kept p starts o a = ground arith
    step-kept p (submits x) o a = ground arith
    step-kept p (tries x) o a = ground arith
    step-kept p (resumes i) o a = omega (arith, resume-kept p i (get_elem? p.putters i))
    step-kept p (gives_up i) o a = absurd o
    step-kept p (takes i) o a = omega (arith, take_next-kept p i (get_elem? p.workers i))
    step-kept p (handles i r report) o a = handle-kept p i _ r report o a
    step-kept p (stops i) o a = omega (arith, stop-kept p i (get_elem? p.workers i))
    step-kept p closes o a = omega arith
    step-kept p forgets o a = ground arith

    run-kept :
        (p : WorkerPool T R) (es : List (Event T R))
        → AreOrderly es
        → AllAnswer p es
        → held of_item (run p es) + kept (run p es)
          ≡ held of_item p + kept p + total of_item (all_accepted p es)
    unfolding run
    run-kept p [] o a = omega arith
    run-kept p (e ∷ es) o a = omega (
      arith,
      step-held of_item p e o.0,
      step-kept p e o.0 a.0,
      run-kept (step p e) es o.1 a.1,
      total-append of_item (accepted p e) (all_accepted (step p e) es),
    )

    init-kept :
        (workers maxsize : ℕ) (p : WorkerPool T R) → init workers maxsize ≡ ok p → kept p ≡ 0
    unfolding init
    init-kept workers maxsize p e = ground arith

    -- When `join` returns after an orderly run with no `submit` left waiting, and each handler has ended
    -- as its item makes it, the results and errors kept are the outcomes of the items that were
    -- submitted, each as often: any weight of outcomes has the same sum over both.
    pub join-outcomes :
        (workers maxsize : ℕ) (p : WorkerPool T R) (es : List (Event T R))
        → init workers maxsize ≡ ok p
        → AreOrderly es
        → AllAnswer p es
        → is_drained (run p es) ≡ true
        → (run p es).putters ≡ []
        → kept (run p es) ≡ total of_item (all_accepted p es)
    join-outcomes workers maxsize p es made o a done none_waiting = omega (
      arith,
      run-kept p es o a,
      init-held of_item workers maxsize p made,
      init-kept workers maxsize p made,
      join-held of_item workers maxsize p es made o done none_waiting,
    )
