-- ===== src/Queues/Final.antt =====
-- What a closed pool of aiolab/queues.py has done, and what it never will.
use asyncio_tests.Base.{ℕ, ◌≡◌, refl, true, Option, none, some, List, [], ◌∷◌, get_elem?, arith}
use asyncio_tests.Errors.{Result, ok, raised}
use asyncio_tests.Queues.Pool.{
  PoolStats, WorkerPool, Worker, waiting, handling, ended, init, start, submit, try_submit, get,
  handled, is_drained, processed,
}
use asyncio_tests.Queues.Events.{
  Event, starts, submits, tries, resumes, gives_up, takes, handles, stops, closes, forgets,
  all_ended, resume, take_next, handle, stop, step, run,
}
use asyncio_tests.Queues.Joining.{IsExact, AreOrderly, step-IsExact, run-IsExact, init-IsExact}
use asyncio_tests.Queues.Quiet.{IsQuiet, run-Stays}
use asyncio_tests.Queues.Closing.{gathered, aclose}

module _ {T R : Type 0} where
  -- What `aclose` has come to: it has returned, with every item that was ever submitted processed,
  -- none queued, and no worker left.
  abbrev pub Finished : Option (PoolStats × WorkerPool T R) → Type 0
  Finished o =
      (stats : PoolStats) × (q : WorkerPool T R) × (o ≡ some (stats, q))
      × (processed stats ≡ stats.submitted)
      × (q.queue ≡ [])
      × (q.workers ≡ [])
      × (q.closed ≡ true)

  gathered-Finished :
      (p : WorkerPool T R)
      → IsQuiet p
      → all_ended p.workers ≡ true
      → processed p.stats ≡ p.stats.submitted
      → Finished (gathered p)
  unfolding step
  gathered-Finished p v over all =
      (p.stats, record p { workers = [] }, ground arith, all, v.none_queued, refl, v.shut)

  take_next-closed :
      (p : WorkerPool T R) (i : ℕ) (o : Option (Worker T))
      → p.closed ≡ true
      → (take_next p i o).closed ≡ true
  unfolding take_next get
  take_next-closed p i none h = h
  take_next-closed p i (some ended) h = h
  take_next-closed p i (some (handling x)) h = h
  take_next-closed p i (some waiting) h = ground arith

  resume-closed :
      (p : WorkerPool T R) (i : ℕ) (o : Option T) → p.closed ≡ true → (resume p i o).closed ≡ true
  unfolding resume
  resume-closed p i none h = h
  resume-closed p i (some x) h = ground arith

  handle-closed :
      (p : WorkerPool T R) (i : ℕ) (o : Option (Worker T)) (r : Result R)
      (report : Result (Unit {0}))
      → p.closed ≡ true
      → (handle p i o r report).closed ≡ true
  unfolding handle handled
  handle-closed p i none r report h = h
  handle-closed p i (some ended) r report h = h
  handle-closed p i (some waiting) r report h = h
  handle-closed p i (some (handling x)) (ok v) report h = ground arith
  handle-closed p i (some (handling x)) (raised e) report h = ground arith

  stop-closed :
      (p : WorkerPool T R) (i : ℕ) (o : Option (Worker T))
      → p.closed ≡ true
      → (stop p i o).closed ≡ true
  unfolding stop
  stop-closed p i none h = h
  stop-closed p i (some ended) h = h
  stop-closed p i (some (handling x)) h = h
  stop-closed p i (some waiting) h = h

  step-closed : (p : WorkerPool T R) (e : Event T R) → p.closed ≡ true → (step p e).closed ≡ true
  unfolding step start submit try_submit
  step-closed p starts h = ground arith
  step-closed p (submits x) h = ground arith
  step-closed p (tries x) h = ground arith
  step-closed p (resumes i) h = resume-closed p i (get_elem? p.putters i) h
  step-closed p (gives_up i) h = h
  step-closed p (takes i) h = take_next-closed p i (get_elem? p.workers i) h
  step-closed p (handles i r report) h = handle-closed p i (get_elem? p.workers i) r report h
  step-closed p (stops i) h = stop-closed p i (get_elem? p.workers i) h
  step-closed p closes h = refl
  step-closed p forgets h = ground arith

  pub closes-closed : (p : WorkerPool T R) → (step p closes).closed ≡ true
  unfolding step
  closes-closed p = refl

  pub run-closed :
      (p : WorkerPool T R) (es : List (Event T R)) → p.closed ≡ true → (run p es).closed ≡ true
  unfolding run
  run-closed p [] h = h
  run-closed p (e ∷ es) h = run-closed (step p e) es (step-closed p e h)

  pub drained-IsQuiet :
      (p : WorkerPool T R)
      → IsExact p
      → p.closed ≡ true
      → is_drained p ≡ true
      → p.putters ≡ []
      → IsQuiet p × (processed p.stats ≡ p.stats.submitted)
  drained-IsQuiet p v shut done none_waiting = ground arith

  -- After an orderly run with no `submit` left waiting, `aclose` with `drain=True` returns once the
  -- cancelled workers have ended, whatever else is tried meanwhile: every item that was submitted has
  -- been processed, nothing is queued, and no worker is left.
  pub aclose-Finished :
      (workers maxsize : ℕ) (p : WorkerPool T R) (es draining unwinding : List (Event T R))
      → init workers maxsize ≡ ok p
      → AreOrderly es
      → AreOrderly draining
      → is_drained (run (step (run p es) closes) draining) ≡ true
      → (run (step (run p es) closes) draining).putters ≡ []
      → all_ended (run (run (step (run p es) closes) draining) unwinding).workers ≡ true
      → Finished (aclose true draining unwinding (run p es))
  unfolding aclose
  aclose-Finished workers maxsize p es draining unwinding made o o' done none_waiting over =
      let q = run (step (run p es) closes) draining in
      let v = run-IsExact (step (run p es) closes) draining o' (
        step-IsExact (run p es) closes tt
          (run-IsExact p es o (init-IsExact workers maxsize p made))) in
      let (quiet, all) =
        drained-IsQuiet q v
          (run-closed (step (run p es) closes) draining (closes-closed (run p es))) done
          none_waiting in
      let (still, (_, submitted, completed, failed, _)) = run-Stays q unwinding quiet in
      rw done (
        gathered-Finished (run q unwinding) still over
          (omega (arith, all, submitted, completed, failed)))
