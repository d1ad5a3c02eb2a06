-- ===== src/Queues/Accounting.antt =====
-- What the pool of aiolab/queues.py keeps true whatever happens to it.
use asyncio_tests.Base.{
  ℕ, ◌+◌, ◌≤◌, ◌≡◌, refl, true, Option, none, some, List, [], ◌∷◌, length, get_elem?, length-append,
  length-remove_at, length-remove_at-le, total, total-set, total-replicate_zero, arith,
}
use asyncio_tests.Errors.{Result, ok, raised}
use asyncio_tests.Queues.Pool.{
  WorkerPool, Worker, waiting, handling, ended, init, start, submit, try_submit, get, handled,
}
use asyncio_tests.Queues.Events.{
  Event, starts, submits, tries, resumes, gives_up, takes, handles, stops, closes, forgets,
  all_ended, resume, take_next, handle, stop, step, run,
}

abbrev pub weight : {T : Type 0} → Worker T → ℕ
weight (handling item) = 1
weight _ = 0

-- The number of items in a worker's hands.
abbrev pub in_hand : {T R : Type 0} → WorkerPool T R → ℕ
in_hand p = total weight p.workers

pub record IsSound {T R : Type 0} (p : WorkerPool T R) : Type 0 where
  -- The queue keeps to its bound.
  pub bounded : length p.queue ≤ p.maxsize
  -- Every queued item and every item in hand is still to be marked done.
  pub owed : length p.queue + in_hand p ≤ p.unfinished
  -- No item is processed, queued or in hand that was not submitted, nor twice.
  pub flow :
      p.stats.completed + p.stats.failed + length p.queue + in_hand p + length p.putters
      ≤ p.stats.submitted
  -- Every success and every failure is kept.
  pub all_results : length p.results ≡ p.stats.completed
  pub all_errors : length p.stats.errors ≡ p.stats.failed

pub total-all_ended :
    {T : Type 0} (ws : List (Worker T)) → all_ended ws ≡ true → total weight ws ≡ 0
total-all_ended [] e = refl
total-all_ended (ended ∷ ws) e = omega (arith, total-all_ended ws e)
total-all_ended (waiting ∷ ws) e = cc
total-all_ended (handling x ∷ ws) e = cc

module _ {T R : Type 0} where
  start-IsSound : (p : WorkerPool T R) → IsSound p → IsSound (start p).1
  unfolding start
  start-IsSound p v =
      ground (arith, total-replicate_zero {A = Worker T} weight p.n_workers waiting refl)

  submit-IsSound : (p : WorkerPool T R) (x : T) → IsSound p → IsSound (submit p x).1
  unfolding submit
  submit-IsSound p x v =
      ground (arith, length-append p.queue (x ∷ []), length-append p.putters (x ∷ []))

  try_submit-IsSound : (p : WorkerPool T R) (x : T) → IsSound p → IsSound (try_submit p x).1
  unfolding try_submit
  try_submit-IsSound p x v = ground (arith, length-append p.queue (x ∷ []))

  resume-IsSound :
      (p : WorkerPool T R) (i : ℕ) (o : Option T)
      → get_elem? p.putters i ≡ o
      → IsSound p
      → IsSound (resume p i o)
  unfolding resume
  resume-IsSound p i none e v = v
  resume-IsSound p i (some x) e v =
      ground (arith, length-append p.queue (x ∷ []), length-remove_at p.putters i x e)

  get-IsSound :
      (p : WorkerPool T R) (i : ℕ) (q : List T)
      → p.queue ≡ q
      → get_elem? p.workers i ≡ some waiting
      → IsSound p
      → IsSound (get p i)
  unfolding get
  get-IsSound p i [] eq e v = rw (eq, get) v
  get-IsSound p i (x ∷ rest) eq e v =
      ground (arith, total-set weight p.workers i waiting (handling x) e)

  take_next-IsSound :
      (p : WorkerPool T R) (i : ℕ) (o : Option (Worker T))
      → get_elem? p.workers i ≡ o
      → IsSound p
      → IsSound (take_next p i o)
  unfolding take_next
  take_next-IsSound p i (some waiting) e v = get-IsSound p i p.queue refl e v
  take_next-IsSound p i none e v = v
  take_next-IsSound p i (some (handling y)) e v = v
  take_next-IsSound p i (some ended) e v = v

  handled-IsSound :
      (p : WorkerPool T R) (i : ℕ) (x : T) (r : Result R) (report : Result (Unit {0}))
      → get_elem? p.workers i ≡ some (handling x)
      → IsSound p
      → IsSound (handled p i r report)
  unfolding handled
  handled-IsSound p i x (ok result) report e v = ground (
    arith,
    length-append p.results (result ∷ []),
    total-set weight p.workers i (handling x) waiting e,
    total-set weight p.workers i (handling x) ended e,
  )
  handled-IsSound p i x (raised exc) report e v = ground (
    arith,
    length-append p.stats.errors (exc ∷ []),
    total-set weight p.workers i (handling x) waiting e,
    total-set weight p.workers i (handling x) ended e,
  )

  handle-IsSound :
      (p : WorkerPool T R) (i : ℕ) (o : Option (Worker T)) (r : Result R)
      (report : Result (Unit {0}))
      → get_elem? p.workers i ≡ o
      → IsSound p
      → IsSound (handle p i o r report)
  unfolding handle
  handle-IsSound p i (some (handling x)) r report e v = handled-IsSound p i x r report e v
  handle-IsSound p i none r report e v = v
  handle-IsSound p i (some waiting) r report e v = v
  handle-IsSound p i (some ended) r report e v = v

  stop-IsSound :
      (p : WorkerPool T R) (i : ℕ) (o : Option (Worker T))
      → get_elem? p.workers i ≡ o
      → IsSound p
      → IsSound (stop p i o)
  unfolding stop
  stop-IsSound p i (some waiting) e v = ground (arith, total-set weight p.workers i waiting ended e)
  stop-IsSound p i none e v = v
  stop-IsSound p i (some (handling y)) e v = v
  stop-IsSound p i (some ended) e v = v

  -- Every event keeps the pool sound.
  pub step-IsSound : (p : WorkerPool T R) (e : Event T R) → IsSound p → IsSound (step p e)
  unfolding step
  step-IsSound p starts v = start-IsSound p v
  step-IsSound p (submits x) v = submit-IsSound p x v
  step-IsSound p (tries x) v = try_submit-IsSound p x v
  step-IsSound p (resumes i) v = resume-IsSound p i _ refl v
  step-IsSound p (gives_up i) v = ground (arith, length-remove_at-le p.putters i)
  step-IsSound p (takes i) v = take_next-IsSound p i _ refl v
  step-IsSound p (handles i r report) v = handle-IsSound p i _ r report refl v
  step-IsSound p (stops i) v = stop-IsSound p i _ refl v
  step-IsSound p closes v = ground arith
  step-IsSound p forgets v = ground (arith, total-all_ended p.workers)

  pub run-IsSound : (p : WorkerPool T R) (es : List (Event T R)) → IsSound p → IsSound (run p es)
  unfolding run
  run-IsSound p [] v = v
  run-IsSound p (e ∷ es) v = run-IsSound (step p e) es (step-IsSound p e v)

  init-IsSound :
      (workers maxsize : ℕ) (p : WorkerPool T R) → init workers maxsize ≡ ok p → IsSound p
  unfolding init
  init-IsSound workers maxsize p e = ground arith

  -- After any events on a new pool: the queue keeps to its bound; what is queued or in a worker's
  -- hands is still to be marked done; what was processed, is queued, in hand or waits for room was
  -- submitted; and each success and each failure is kept.
  pub run-init-IsSound :
      (workers maxsize : ℕ) (p : WorkerPool T R) (es : List (Event T R))
      → init workers maxsize ≡ ok p
      → IsSound (run p es)
  run-init-IsSound workers maxsize p es e = run-IsSound p es (init-IsSound workers maxsize p e)
