-- ===== src/Queues/Holding.antt =====
-- The items that the pool of aiolab/queues.py holds, each counted by any weight: what comes in with an
-- event, and what goes out as a handler ends.
use asyncio_tests.Base.{
  ℕ, ◌+◌, ◌≡◌, refl, true, Option, none, some, List, [], ◌∷◌, ◌++◌, get_elem?, length,
  if◌then◌else◌, total, total-append, total-set, total-remove_at, total-replicate_zero, arith,
}
use asyncio_tests.Errors.{Result, ok, raised}
use asyncio_tests.Queues.Pool.{
  WorkerPool, Worker, waiting, handling, ended, init, start, submit, try_submit, get, handled,
  has_room, is_drained,
}
use asyncio_tests.Queues.Events.{
  Event, starts, submits, tries, resumes, gives_up, takes, handles, stops, closes, forgets,
  all_ended, resume, take_next, handle, stop, step, run,
}
use asyncio_tests.Queues.Accounting.{weight, in_hand}
use asyncio_tests.Queues.Joining.{IsOrderly, AreOrderly, IsExact, run-IsExact, init-IsExact}

module _ {T R : Type 0} where
  -- The items that the pool takes on.
  abbrev pub accepted : WorkerPool T R → Event T R → List T
  accepted p (submits x) = if p.closed then [] else x ∷ []
  accepted p (tries x) = if p.closed then [] else if has_room p then x ∷ [] else []
  accepted p _ = []

  abbrev pub all_accepted : WorkerPool T R → List (Event T R) → List T
  all_accepted p [] = []
  all_accepted p (e ∷ es) = accepted p e ++ all_accepted (step p e) es

module _ {T : Type 0} (w : T → ℕ) where
  empty : (xs : List T) → length xs ≡ 0 → xs ≡ []
  empty [] e = refl
  empty (x ∷ xs) e = absurd (omega (arith, e))

  abbrev pub of_worker : Worker T → ℕ
  of_worker (handling x) = w x
  of_worker _ = 0

  abbrev pub in_hands : Option (Worker T) → ℕ
  in_hands (some (handling x)) = w x
  in_hands _ = 0

  of_worker-all_ended : (ws : List (Worker T)) → all_ended ws ≡ true → total of_worker ws ≡ 0
  of_worker-all_ended [] e = refl
  of_worker-all_ended (ended ∷ ws) e = omega (arith, of_worker-all_ended ws e)
  of_worker-all_ended (waiting ∷ ws) e = cc
  of_worker-all_ended (handling x ∷ ws) e = cc

  of_worker-none : (ws : List (Worker T)) → total weight ws ≡ 0 → total of_worker ws ≡ 0
  of_worker-none [] e = refl
  of_worker-none (ended ∷ ws) e = omega (arith, of_worker-none ws (omega (arith, e)))
  of_worker-none (waiting ∷ ws) e = omega (arith, of_worker-none ws (omega (arith, e)))
  of_worker-none (handling x ∷ ws) e = absurd (omega (arith, e))

  module _ {R : Type 0} where
    abbrev pub held : WorkerPool T R → ℕ
    held p = total of_worker p.workers + total w p.queue + total w p.putters

    -- The item whose handler ends.
    abbrev pub dealt : WorkerPool T R → Event T R → ℕ
    dealt p (handles i r report) = in_hands (get_elem? p.workers i)
    dealt p _ = 0

    get-held :
        (p : WorkerPool T R) (i : ℕ) (q : List T)
        → p.queue ≡ q
        → get_elem? p.workers i ≡ some waiting
        → held (get p i) ≡ held p
    unfolding get
    get-held p i [] eq e = ground arith
    get-held p i (x ∷ rest) eq e =
        ground (arith, total-set of_worker p.workers i waiting (handling x) e)

    take_next-held :
        (p : WorkerPool T R) (i : ℕ) (o : Option (Worker T))
        → get_elem? p.workers i ≡ o
        → held (take_next p i o) ≡ held p
    unfolding take_next
    take_next-held p i (some waiting) e = get-held p i p.queue refl e
    take_next-held p i none e = refl
    take_next-held p i (some (handling y)) e = refl
    take_next-held p i (some ended) e = refl

    resume-held :
        (p : WorkerPool T R) (i : ℕ) (o : Option T)
        → get_elem? p.putters i ≡ o
        → held (resume p i o) ≡ held p
    unfolding resume
    resume-held p i none e = refl
    resume-held p i (some x) e =
        ground (arith, total-append w p.queue (x ∷ []), total-remove_at w p.putters i x e)

    stop-held :
        (p : WorkerPool T R) (i : ℕ) (o : Option (Worker T))
        → get_elem? p.workers i ≡ o
        → held (stop p i o) ≡ held p
    unfolding stop
    stop-held p i (some waiting) e = ground (arith, total-set of_worker p.workers i waiting ended e)
    stop-held p i none e = refl
    stop-held p i (some (handling y)) e = refl
    stop-held p i (some ended) e = refl

    handle-held :
        (p : WorkerPool T R) (i : ℕ) (o : Option (Worker T)) (r : Result R)
        (report : Result (Unit {0}))
        → get_elem? p.workers i ≡ o
        → IsOrderly {T = T} (handles i r report)
        → held (handle p i o r report) + in_hands o ≡ held p
    unfolding handle handled
    handle-held p i (some (handling x)) (ok v) report e o =
        ground (arith, total-set of_worker p.workers i (handling x) waiting e)
    handle-held p i (some (handling x)) (raised exc) report e o =
        ground (arith, total-set of_worker p.workers i (handling x) waiting e)
    handle-held p i none r report e o = omega arith
    handle-held p i (some waiting) r report e o = omega arith
    handle-held p i (some ended) r report e o = omega arith

    pub step-held :
        (p : WorkerPool T R) (e : Event T R)
        → IsOrderly e
        → held (step p e) + dealt p e ≡ held p + total w (accepted p e)
    unfolding step start submit try_submit
    step-held p starts o =
        ground (arith, total-replicate_zero {A = Worker T} of_worker p.n_workers waiting refl)
    step-held p (submits x) o =
        ground (arith, total-append w p.queue (x ∷ []), total-append w p.putters (x ∷ []))
    step-held p (tries x) o = ground (arith, total-append w p.queue (x ∷ []))
    step-held p (resumes i) o = omega (arith, resume-held p i _ refl)
    step-held p (gives_up i) o = absurd o
    step-held p (takes i) o = omega (arith, take_next-held p i _ refl)
    step-held p (handles i r report) o = omega (arith, handle-held p i _ r report refl o)
    step-held p (stops i) o = omega (arith, stop-held p i _ refl)
    step-held p closes o = omega arith
    step-held p forgets o = ground (arith, of_worker-all_ended p.workers)

    pub init-held :
        (workers maxsize : ℕ) (p : WorkerPool T R) → init workers maxsize ≡ ok p → held p ≡ 0
    unfolding init
    init-held workers maxsize p e = ground arith

    pub exact-held :
        (p : WorkerPool T R) → IsExact p → is_drained p ≡ true → p.putters ≡ [] → held p ≡ 0
    exact-held p v done none_waiting =
        let owed : length p.queue + in_hand p ≡ p.unfinished = v.owed in
        let none_queued : p.queue ≡ [] = empty p.queue (ground (arith, owed, done)) in
        let queued : total w p.queue ≡ 0 = rw none_queued refl in
        let asleep : total w p.putters ≡ 0 = rw none_waiting refl in
        omega (arith, of_worker-none p.workers (ground (arith, owed, done)), queued, asleep)

    -- When `join` returns after an orderly run with no `submit` left waiting, the pool holds nothing.
    pub join-held :
        (workers maxsize : ℕ) (p : WorkerPool T R) (es : List (Event T R))
        → init workers maxsize ≡ ok p
        → AreOrderly es
        → is_drained (run p es) ≡ true
        → (run p es).putters ≡ []
        → held (run p es) ≡ 0
    join-held workers maxsize p es made o done none_waiting =
        exact-held (run p es) (run-IsExact p es o (init-IsExact workers maxsize p made)) done
          none_waiting
