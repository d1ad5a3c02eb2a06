-- ===== src/Queues/Joining.antt =====
-- When `join` of aiolab/queues.py returns, and what has been done by then.
use asyncio_tests.Base.{
  ℕ, ◌+◌, ◌≡◌, refl, true, false, Option, none, some, List, [], ◌∷◌, length, get_elem?,
  length-append, length-remove_at, total-set, total-replicate_zero, arith,
}
use asyncio_tests.Errors.{Result, ok, raised, is_cancelled, is_exception}
use asyncio_tests.Queues.Pool.{
  WorkerPool, Worker, waiting, handling, ended, init, start, submit, try_submit, get, handled,
  is_drained, processed,
}
use asyncio_tests.Queues.Events.{
  Event, starts, submits, tries, resumes, gives_up, takes, handles, stops, closes, forgets, resume,
  take_next, handle, stop, step, run,
}
use asyncio_tests.Queues.Accounting.{weight, in_hand, total-all_ended}

module _ {T R : Type 0} where
  -- Handlers return or raise an `Exception`, `on_result` returns, and no waiting `submit` is
  -- cancelled.
  abbrev pub IsOrderly : Event T R → Type 0
  IsOrderly (gives_up i) = ⊥
  IsOrderly (handles i (ok r) report) = report ≡ ok tt
  IsOrderly (handles i (raised e) report) = (is_cancelled e ≡ false) × (is_exception e ≡ true)
  IsOrderly _ = Unit

  abbrev pub AreOrderly : List (Event T R) → Type 0
  AreOrderly [] = Unit
  AreOrderly (e ∷ es) = IsOrderly e × AreOrderly es

  -- Nothing is lost: what is unfinished is queued or in hand, and what was submitted is somewhere.
  pub record IsExact (p : WorkerPool T R) : Type 0 where
    pub owed : length p.queue + in_hand p ≡ p.unfinished
    pub flow :
        p.stats.completed + p.stats.failed + length p.queue + in_hand p + length p.putters
        ≡ p.stats.submitted

module _ {T R : Type 0} where
  get-IsExact :
      (p : WorkerPool T R) (i : ℕ) (q : List T)
      → p.queue ≡ q
      → get_elem? p.workers i ≡ some waiting
      → IsExact p
      → IsExact (get p i)
  unfolding get
  get-IsExact p i [] eq e v = rw (eq, get) v
  get-IsExact p i (x ∷ rest) eq e v =
      ground (arith, total-set weight p.workers i waiting (handling x) e)

  take_next-IsExact :
      (p : WorkerPool T R) (i : ℕ) (o : Option (Worker T))
      → get_elem? p.workers i ≡ o
      → IsExact p
      → IsExact (take_next p i o)
  unfolding take_next
  take_next-IsExact p i (some waiting) e v = get-IsExact p i p.queue refl e v
  take_next-IsExact p i none e v = v
  take_next-IsExact p i (some (handling y)) e v = v
  take_next-IsExact p i (some ended) e v = v

  resume-IsExact :
      (p : WorkerPool T R) (i : ℕ) (o : Option T)
      → get_elem? p.putters i ≡ o
      → IsExact p
      → IsExact (resume p i o)
  unfolding resume
  resume-IsExact p i none e v = v
  resume-IsExact p i (some x) e v =
      ground (arith, length-append p.queue (x ∷ []), length-remove_at p.putters i x e)

  handle-IsExact :
      (p : WorkerPool T R) (i : ℕ) (o : Option (Worker T)) (r : Result R)
      (report : Result (Unit {0}))
      → get_elem? p.workers i ≡ o
      → IsOrderly {T = T} (handles i r report)
      → IsExact p
      → IsExact (handle p i o r report)
  unfolding handle handled
  handle-IsExact p i (some (handling x)) (ok r) report e o v =
      ground (arith, total-set weight p.workers i (handling x) waiting e)
  handle-IsExact p i (some (handling x)) (raised exc) report e o v =
      ground (arith, total-set weight p.workers i (handling x) waiting e)
  handle-IsExact p i none r report e o v = v
  handle-IsExact p i (some waiting) r report e o v = v
  handle-IsExact p i (some ended) r report e o v = v

  stop-IsExact :
      (p : WorkerPool T R) (i : ℕ) (o : Option (Worker T))
      → get_elem? p.workers i ≡ o
      → IsExact p
      → IsExact (stop p i o)
  unfolding stop
  stop-IsExact p i (some waiting) e v = ground (arith, total-set weight p.workers i waiting ended e)
  stop-IsExact p i none e v = v
  stop-IsExact p i (some (handling y)) e v = v
  stop-IsExact p i (some ended) e v = v

  pub step-IsExact :
      (p : WorkerPool T R) (e : Event T R) → IsOrderly e → IsExact p → IsExact (step p e)
  unfolding step start submit try_submit
  step-IsExact p starts o v =
      ground (arith, total-replicate_zero {A = Worker T} weight p.n_workers waiting refl)
  step-IsExact p (submits x) o v =
      ground (arith, length-append p.queue (x ∷ []), length-append p.putters (x ∷ []))
  step-IsExact p (tries x) o v = ground (arith, length-append p.queue (x ∷ []))
  step-IsExact p (resumes i) o v = resume-IsExact p i _ refl v
  step-IsExact p (gives_up i) o v = absurd o
  step-IsExact p (takes i) o v = take_next-IsExact p i _ refl v
  step-IsExact p (handles i r report) o v = handle-IsExact p i _ r report refl o v
  step-IsExact p (stops i) o v = stop-IsExact p i _ refl v
  step-IsExact p closes o v = ground arith
  step-IsExact p forgets o v = ground (arith, total-all_ended p.workers)

  pub run-IsExact :
      (p : WorkerPool T R) (es : List (Event T R)) → AreOrderly es → IsExact p → IsExact (run p es)
  unfolding run
  run-IsExact p [] o v = v
  run-IsExact p (e ∷ es) o v = run-IsExact (step p e) es o.1 (step-IsExact p e o.0 v)

  pub init-IsExact :
      (workers maxsize : ℕ) (p : WorkerPool T R) → init workers maxsize ≡ ok p → IsExact p
  unfolding init
  init-IsExact workers maxsize p e = ground arith

  -- When `join` returns after an orderly run, nothing is queued or in hand, and every submitted
  -- item, but those that still wait for room, has been processed, each once.
  pub join-processed :
      (workers maxsize : ℕ) (p : WorkerPool T R) (es : List (Event T R))
      → init workers maxsize ≡ ok p
      → AreOrderly es
      → is_drained (run p es) ≡ true
      → let q = run p es in
        (q.queue ≡ [])
        × (in_hand q ≡ 0)
        × (processed q.stats + length q.putters ≡ q.stats.submitted)
  join-processed workers maxsize p es e o done =
      let v = run-IsExact p es o (init-IsExact workers maxsize p e) in ground arith

  -- In an orderly run `join` is never left waiting: with nothing queued or in hand, nothing is
  -- unfinished.
  join_returns :
      (workers maxsize : ℕ) (p : WorkerPool T R) (es : List (Event T R))
      → init workers maxsize ≡ ok p
      → AreOrderly es
      → (run p es).queue ≡ []
      → in_hand (run p es) ≡ 0
      → is_drained (run p es) ≡ true
  join_returns workers maxsize p es e o none_queued none_held =
      let v = run-IsExact p es o (init-IsExact workers maxsize p e) in ground arith
