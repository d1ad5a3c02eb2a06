-- ===== src/Queues/Quiet.antt =====
-- A closed pool of aiolab/queues.py with nothing left to do, and what can still happen to it.
use asyncio_tests.Base.{
  ℕ, ◌≡◌, refl, ◌∙◌, true, Option, none, some, List, [], ◌∷◌, get_elem?, total-set,
  total-replicate_zero, arith,
}
use asyncio_tests.Errors.{Result}
use asyncio_tests.Queues.Pool.{
  WorkerPool, Worker, waiting, handling, ended, start, submit, try_submit, get,
}
use asyncio_tests.Queues.Events.{
  Event, starts, submits, tries, resumes, gives_up, takes, handles, stops, closes, forgets, resume,
  take_next, handle, stop, step, run,
}
use asyncio_tests.Queues.Accounting.{weight, in_hand, total-all_ended}

module _ {T R : Type 0} where
  -- A closed pool with nothing queued, in hand or waiting for room.
  pub record IsQuiet (p : WorkerPool T R) : Type 0 where
    pub shut : p.closed ≡ true
    pub none_queued : p.queue ≡ []
    pub none_waiting : p.putters ≡ []
    pub none_held : in_hand p ≡ 0

  -- Whether both have the same outcomes.
  abbrev pub SameDone : WorkerPool T R → WorkerPool T R → Type 0
  SameDone p q =
      (q.results ≡ p.results)
      × (q.stats.submitted ≡ p.stats.submitted)
      × (q.stats.completed ≡ p.stats.completed)
      × (q.stats.failed ≡ p.stats.failed)
      × (q.stats.errors ≡ p.stats.errors)

  idle_worker :
      (p : WorkerPool T R) (i : ℕ) (x : T)
      → get_elem? p.workers i ≡ some (handling x)
      → in_hand p ≡ 0
      → ⊥
  idle_worker p i x e h = omega (arith, total-set weight p.workers i (handling x) waiting e, h)

  same_done : (p : WorkerPool T R) → SameDone p p
  same_done p = (refl, refl, refl, refl, refl)

  -- An event that comes to what it is when nothing is in hand, queued or waiting.
  abbrev pub Stays : WorkerPool T R → WorkerPool T R → Type 0
  Stays p q = IsQuiet q × SameDone p q

  take_next-Stays :
      (p : WorkerPool T R) (i : ℕ) (o : Option (Worker T)) → IsQuiet p → Stays p (take_next p i o)
  unfolding take_next get
  take_next-Stays p i none v = (v, same_done p)
  take_next-Stays p i (some ended) v = (v, same_done p)
  take_next-Stays p i (some (handling x)) v = (v, same_done p)
  take_next-Stays p i (some waiting) v = ground (arith, v.none_queued)

  resume-Stays :
      (p : WorkerPool T R) (i : ℕ) (o : Option T)
      → get_elem? p.putters i ≡ o
      → IsQuiet p
      → Stays p (resume p i o)
  unfolding resume
  resume-Stays p i none e v = (v, same_done p)
  resume-Stays p i (some x) e v = cc (rw v.none_waiting at e)

  handle-Stays :
      (p : WorkerPool T R) (i : ℕ) (o : Option (Worker T)) (r : Result R)
      (report : Result (Unit {0}))
      → get_elem? p.workers i ≡ o
      → IsQuiet p
      → Stays p (handle p i o r report)
  unfolding handle
  handle-Stays p i none r report e v = (v, same_done p)
  handle-Stays p i (some ended) r report e v = (v, same_done p)
  handle-Stays p i (some waiting) r report e v = (v, same_done p)
  handle-Stays p i (some (handling x)) r report e v = absurd (idle_worker p i x e v.none_held)

  stop-Stays :
      (p : WorkerPool T R) (i : ℕ) (o : Option (Worker T))
      → get_elem? p.workers i ≡ o
      → IsQuiet p
      → Stays p (stop p i o)
  unfolding stop
  stop-Stays p i none e v = (v, same_done p)
  stop-Stays p i (some ended) e v = (v, same_done p)
  stop-Stays p i (some (handling x)) e v = (v, same_done p)
  stop-Stays p i (some waiting) e v = (
    record {
      shut = v.shut;
      none_queued = v.none_queued;
      none_waiting = v.none_waiting;
      none_held = omega (arith, v.none_held, total-set weight p.workers i waiting ended e);
    },
    same_done p,
  )

  step-IsQuiet : (p : WorkerPool T R) (e : Event T R) → IsQuiet p → Stays p (step p e)
  unfolding step start submit try_submit
  step-IsQuiet p starts v =
      ground (arith, v.shut, total-replicate_zero {A = Worker T} weight p.n_workers waiting refl)
  step-IsQuiet p (submits x) v = ground (arith, v.shut)
  step-IsQuiet p (tries x) v = ground (arith, v.shut)
  step-IsQuiet p (resumes i) v = resume-Stays p i _ refl v
  step-IsQuiet p (gives_up i) v = ground (arith, v.none_waiting)
  step-IsQuiet p (takes i) v = take_next-Stays p i _ v
  step-IsQuiet p (handles i r report) v = handle-Stays p i _ r report refl v
  step-IsQuiet p (stops i) v = stop-Stays p i _ refl v
  step-IsQuiet p closes v = ground arith
  step-IsQuiet p forgets v = ground (arith, total-all_ended p.workers)

  pub run-Stays : (p : WorkerPool T R) (es : List (Event T R)) → IsQuiet p → Stays p (run p es)
  unfolding run
  run-Stays p [] v = (v, same_done p)
  run-Stays p (e ∷ es) v =
      let (w, (results, submitted, completed, failed, errors)) = step-IsQuiet p e v in
      let (u, (results', submitted', completed', failed', errors')) = run-Stays (step p e) es w in
      (
        u,
        (
          results' ∙ results,
          submitted' ∙ submitted,
          completed' ∙ completed,
          failed' ∙ failed,
          errors' ∙ errors,
        ),
      )
