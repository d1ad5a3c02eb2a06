-- ===== src/Queues/Leak.antt =====
-- What a raising `on_result`, or a `BaseException` from a handler, does to `join` of aiolab/queues.py.
use asyncio_tests.Base.{
  ℕ, ◌+◌, ◌≤◌, ◌≡◌, refl, false, Option, none, some, List, [], ◌∷◌, length, get_elem?,
  length-append, total-set, total-replicate_zero, arith,
}
use asyncio_tests.Errors.{Exn, Result, ok, raised}
use asyncio_tests.Queues.Pool.{
  WorkerPool, Worker, waiting, handling, ended, get, handled, is_drained,
}
use asyncio_tests.Queues.Events.{
  Event, starts, submits, tries, resumes, gives_up, takes, handles, stops, closes, forgets, resume,
  take_next, handle, stop, step, run,
}
use asyncio_tests.Queues.Accounting.{weight, in_hand, IsSound, total-all_ended}

-- At least `k` items are to be marked done that are neither queued nor in hand.
abbrev pub Owes : {T R : Type 0} → ℕ → WorkerPool T R → Type 0
Owes k p = length p.queue + in_hand p + k ≤ p.unfinished

module _ {T R : Type 0} (k : ℕ) where
  get-Owes :
      (p : WorkerPool T R) (i : ℕ) (q : List T)
      → p.queue ≡ q
      → get_elem? p.workers i ≡ some waiting
      → Owes k p
      → Owes k (get p i)
  unfolding get
  get-Owes p i [] eq e v = rw (eq, get) v
  get-Owes p i (x ∷ rest) eq e v =
      ground (arith, total-set weight p.workers i waiting (handling x) e)

  take_next-Owes :
      (p : WorkerPool T R) (i : ℕ) (o : Option (Worker T))
      → get_elem? p.workers i ≡ o
      → Owes k p
      → Owes k (take_next p i o)
  unfolding take_next
  take_next-Owes p i (some waiting) e v = get-Owes p i p.queue refl e v
  take_next-Owes p i none e v = v
  take_next-Owes p i (some (handling y)) e v = v
  take_next-Owes p i (some ended) e v = v

  handle-Owes :
      (p : WorkerPool T R) (i : ℕ) (o : Option (Worker T)) (r : Result R)
      (report : Result (Unit {0}))
      → get_elem? p.workers i ≡ o
      → Owes k p
      → Owes k (handle p i o r report)
  unfolding handle handled
  handle-Owes p i (some (handling x)) r report e v = ground (
    arith,
    total-set weight p.workers i (handling x) waiting e,
    total-set weight p.workers i (handling x) ended e,
  )
  handle-Owes p i none r report e v = v
  handle-Owes p i (some waiting) r report e v = v
  handle-Owes p i (some ended) r report e v = v

  stop-Owes :
      (p : WorkerPool T R) (i : ℕ) (o : Option (Worker T))
      → get_elem? p.workers i ≡ o
      → Owes k p
      → Owes k (stop p i o)
  unfolding stop
  stop-Owes p i (some waiting) e v = ground (arith, total-set weight p.workers i waiting ended e)
  stop-Owes p i none e v = v
  stop-Owes p i (some (handling y)) e v = v
  stop-Owes p i (some ended) e v = v

  resume-Owes : (p : WorkerPool T R) (i : ℕ) (o : Option T) → Owes k p → Owes k (resume p i o)
  unfolding resume
  resume-Owes p i none v = v
  resume-Owes p i (some x) v = ground (arith, length-append p.queue (x ∷ []))

  step-Owes : (p : WorkerPool T R) (e : Event T R) → Owes k p → Owes k (step p e)
  unfolding step
  step-Owes p starts v =
      ground (arith, total-replicate_zero {A = Worker T} weight p.n_workers waiting refl)
  step-Owes p (submits x) v = ground (arith, length-append p.queue (x ∷ []))
  step-Owes p (tries x) v = ground (arith, length-append p.queue (x ∷ []))
  step-Owes p (resumes i) v = resume-Owes p i (get_elem? p.putters i) v
  step-Owes p (gives_up i) v = v
  step-Owes p (takes i) v = take_next-Owes p i _ refl v
  step-Owes p (handles i r report) v = handle-Owes p i _ r report refl v
  step-Owes p (stops i) v = stop-Owes p i _ refl v
  step-Owes p closes v = v
  step-Owes p forgets v = ground (arith, total-all_ended p.workers)

  run-Owes : (p : WorkerPool T R) (es : List (Event T R)) → Owes k p → Owes k (run p es)
  unfolding run
  run-Owes p [] v = v
  run-Owes p (e ∷ es) v = run-Owes (step p e) es (step-Owes p e v)

report-Owes :
    {T R : Type 0} (p : WorkerPool T R) (i : ℕ) (x : T) (r : R) (e : Exn)
    → IsSound p
    → get_elem? p.workers i ≡ some (handling x)
    → Owes 1 (step p (handles i (ok r) (raised e)))
unfolding step
report-Owes p i x r e v at =
    rw (step, at) (ground (arith, total-set weight p.workers i (handling x) ended at))

-- If `on_result` raises, `join` never returns: in every state that can follow, the pool has an
-- unfinished item, though none may be queued or in hand.
pub raising_report_hangs :
    {T R : Type 0} (p : WorkerPool T R) (i : ℕ) (x : T) (r : R) (e : Exn) (es : List (Event T R))
    → IsSound p
    → get_elem? p.workers i ≡ some (handling x)
    → is_drained (run p (handles i (ok r) (raised e) ∷ es)) ≡ false
unfolding run
raising_report_hangs p i x r e es v at =
    ground
      (arith, run-Owes 1 (step p (handles i (ok r) (raised e))) es (report-Owes p i x r e v at))
