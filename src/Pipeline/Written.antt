-- ===== src/Pipeline/Written.antt =====
-- The batches that are queued in the pool of writers of examples/pipeline_demo.py, and those it writes.
use asyncio_tests.Base.{
  ℕ, ◌+◌, ◌≡◌, ◌≤◌, refl, ◌∙◌, false, Option, none, some, List, [], ◌∷◌, get_elem?, All, total,
  total-append, arith,
}
use asyncio_tests.Errors.{Result, ok, raised}
use asyncio_tests.Queues.Pool.{WorkerPool, Worker, waiting, handling, ended, get, handled}
use asyncio_tests.Queues.Events.{
  Event, starts, submits, tries, resumes, gives_up, takes, handles, stops, closes, forgets, step,
  resume, take_next, handle, stop,
}
use asyncio_tests.Queues.Joining.{IsOrderly, IsExact}
use asyncio_tests.Queues.Holding.{accepted, held, in_hands, dealt, step-held}
use asyncio_tests.Pipeline.Writing.{Writer, write, wrote, advance}

module _ {B : Type 0} where
  -- What the workers and a waiting `submit` do, where `write` ends well.
  abbrev pub IsWorkers : Event B (Unit {0}) → Type 0
  IsWorkers (resumes i) = Unit
  IsWorkers (takes i) = Unit
  IsWorkers (stops i) = Unit
  IsWorkers (handles i (ok v) report) = report ≡ ok tt
  IsWorkers _ = ⊥

  -- The other events of a pool that only `main` uses.
  abbrev pub IsMains : Event B (Unit {0}) → Type 0
  IsMains starts = Unit
  IsMains (submits b) = Unit
  IsMains closes = Unit
  IsMains forgets = Unit
  IsMains e = IsWorkers e

  abbrev pub AreWorkers : List (Event B (Unit {0})) → Type 0
  AreWorkers es = All IsWorkers es

  pub worker-IsMains : (e : Event B (Unit {0})) → IsWorkers e → IsMains e
  worker-IsMains (resumes i) h = tt
  worker-IsMains (takes i) h = tt
  worker-IsMains (stops i) h = tt
  worker-IsMains (handles i (ok v) report) h = h
  worker-IsMains (handles i (raised e) report) h = absurd h
  worker-IsMains starts h = tt
  worker-IsMains (submits b) h = tt
  worker-IsMains (tries b) h = absurd h
  worker-IsMains (gives_up i) h = absurd h
  worker-IsMains closes h = tt
  worker-IsMains forgets h = tt

  pub mains-IsOrderly : (e : Event B (Unit {0})) → IsMains e → IsOrderly e
  mains-IsOrderly (resumes i) h = tt
  mains-IsOrderly (takes i) h = tt
  mains-IsOrderly (stops i) h = tt
  mains-IsOrderly (handles i (ok v) report) h = h
  mains-IsOrderly (handles i (raised e) report) h = absurd h
  mains-IsOrderly starts h = tt
  mains-IsOrderly (submits b) h = tt
  mains-IsOrderly (tries b) h = absurd h
  mains-IsOrderly (gives_up i) h = absurd h
  mains-IsOrderly closes h = tt
  mains-IsOrderly forgets h = tt

  pub worker-accepted :
      (p : WorkerPool B (Unit {0})) (e : Event B (Unit {0})) → IsWorkers e → accepted p e ≡ []
  worker-accepted p (resumes i) h = refl
  worker-accepted p (takes i) h = refl
  worker-accepted p (stops i) h = refl
  worker-accepted p (handles i r report) h = refl
  worker-accepted p starts h = refl
  worker-accepted p (submits b) h = absurd h
  worker-accepted p (tries b) h = absurd h
  worker-accepted p (gives_up i) h = refl
  worker-accepted p closes h = refl
  worker-accepted p forgets h = refl

  -- No call of `submit` waits, and the pool takes on what it is given.
  abbrev pub IsOpen : WorkerPool B (Unit {0}) → Type 0
  IsOpen p = (p.closed ≡ false) × IsExact p

  take_next-kept :
      (p : WorkerPool B (Unit {0})) (i : ℕ) (o : Option (Worker B))
      → ((take_next p i o).closed ≡ p.closed) × ((take_next p i o).putters ≡ p.putters)
  unfolding take_next get
  take_next-kept p i none = (refl, refl)
  take_next-kept p i (some (handling b)) = (refl, refl)
  take_next-kept p i (some ended) = (refl, refl)
  take_next-kept p i (some waiting) = (ground arith, ground arith)

  stop-kept :
      (p : WorkerPool B (Unit {0})) (i : ℕ) (o : Option (Worker B))
      → ((stop p i o).closed ≡ p.closed) × ((stop p i o).putters ≡ p.putters)
  unfolding stop
  stop-kept p i none = (refl, refl)
  stop-kept p i (some (handling b)) = (refl, refl)
  stop-kept p i (some ended) = (refl, refl)
  stop-kept p i (some waiting) = (refl, refl)

  handle-kept :
      (p : WorkerPool B (Unit {0})) (i : ℕ) (o : Option (Worker B)) (report : Result (Unit {0}))
      → report ≡ ok tt
      → ((handle p i o (ok tt) report).closed ≡ p.closed)
        × ((handle p i o (ok tt) report).putters ≡ p.putters)
  unfolding handle handled
  handle-kept p i none report e = (refl, refl)
  handle-kept p i (some (handling b)) report e = rw e (refl, refl)
  handle-kept p i (some ended) report e = (refl, refl)
  handle-kept p i (some waiting) report e = (refl, refl)

  resume-kept :
      (p : WorkerPool B (Unit {0})) (i : ℕ) (o : Option B)
      → get_elem? p.putters i ≡ o
      → ((resume p i o).closed ≡ p.closed) × (p.putters ≡ [] → (resume p i o).putters ≡ [])
  unfolding resume
  resume-kept p i none e = (refl, λ h. h)
  resume-kept p i (some b) e = (ground arith, λ h. ground (arith, e, h))

  pub worker-kept :
      (p : WorkerPool B (Unit {0})) (e : Event B (Unit {0}))
      → IsWorkers e
      → ((step p e).closed ≡ p.closed) × (p.putters ≡ [] → (step p e).putters ≡ [])
  unfolding step
  worker-kept p (resumes i) h = resume-kept p i _ refl
  worker-kept p (takes i) h =
      let (c, q) = take_next-kept p i (get_elem? p.workers i) in (c, λ n. q ∙ n)
  worker-kept p (stops i) h = let (c, q) = stop-kept p i (get_elem? p.workers i) in (c, λ n. q ∙ n)
  worker-kept p (handles i (ok v) report) h =
      let (c, q) = handle-kept p i (get_elem? p.workers i) report h in (c, λ n. q ∙ n)
  worker-kept p (handles i (raised e) report) h = absurd h
  worker-kept p starts h = absurd h
  worker-kept p (submits b) h = absurd h
  worker-kept p (tries b) h = absurd h
  worker-kept p (gives_up i) h = absurd h
  worker-kept p closes h = absurd h
  worker-kept p forgets h = absurd h

  module _ (weight : B → ℕ) where
    -- The batches that are written, and those that the pool holds.
    abbrev pub tally : Writer B → ℕ
    tally w = total weight w.written + held weight w.pool

    write-total :
        (o : Option (Worker B)) (written : List B)
        → total weight (write o (ok tt) written) ≡ total weight written + in_hands weight o
    write-total none written = omega arith
    write-total (some (handling b)) written = omega (arith, total-append weight written (b ∷ []))
    write-total (some ended) written = omega arith
    write-total (some waiting) written = omega arith

    wrote-total :
        (w : Writer B) (e : Event B (Unit {0}))
        → IsMains e
        → total weight (wrote w e) ≡ total weight w.written + dealt weight w.pool e
    wrote-total w (handles i (ok v) report) h = write-total (get_elem? w.pool.workers i) w.written
    wrote-total w (handles i (raised e) report) h = absurd h
    wrote-total w starts h = omega arith
    wrote-total w (submits b) h = omega arith
    wrote-total w (tries b) h = omega arith
    wrote-total w (gives_up i) h = omega arith
    wrote-total w (resumes i) h = omega arith
    wrote-total w (takes i) h = omega arith
    wrote-total w (stops i) h = omega arith
    wrote-total w closes h = omega arith
    wrote-total w forgets h = omega arith

    pub advance-tally :
        (w : Writer B) (e : Event B (Unit {0}))
        → IsMains e
        → tally (advance w e) ≡ tally w + total weight (accepted w.pool e)
    unfolding advance
    advance-tally w e h =
        omega (arith, wrote-total w e h, step-held weight w.pool e (mains-IsOrderly e h))

    -- What is written stays so.
    pub advance-written :
        (w : Writer B) (e : Event B (Unit {0}))
        → IsMains e
        → total weight w.written ≤ total weight (advance w e).written
    unfolding advance
    advance-written w e h = omega (arith, wrote-total w e h)
