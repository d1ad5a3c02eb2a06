-- ===== src/Pipeline/Report.antt =====
-- What `main` of examples/pipeline_demo.py has written when it ends, and what it prints.
use asyncio_tests.Base.{
  ℕ, ◌≡◌, ◌≤◌, refl, ap, ◌∙◌, false, Option, none, some, List, [], ◌∷◌, ◌++◌, All, total, if_intro,
  arith,
}
use asyncio_tests.Errors.{ok}
use asyncio_tests.Queues.Pool.{PoolStats, WorkerPool, Worker, is_drained}
use asyncio_tests.Queues.Events.{Event, closes, forgets}
use asyncio_tests.Queues.Closing.{aexit}
use asyncio_tests.Queues.Holding.{held, exact-held}
use asyncio_tests.Pipeline.Writing.{
  Writer, Turns, advance, advance_all, submit_all, while_left, if_left, leave, with_writer,
}
use asyncio_tests.Pipeline.Written.{
  AreWorkers, worker-IsMains, IsOpen, tally, advance-tally, advance-written,
}
use asyncio_tests.Pipeline.Submitting.{
  advance-worker, workers-IsOpen, workers-putters, workers-tally, Submitted, submit_all-Submitted,
}

module _ {B : Type 0} where
  -- The event loop runs nothing but the workers between the steps of `main`, and `write` ends well.
  abbrev pub AreTurns : Turns B → Type 0
  AreTurns t =
      All AreWorkers t.after_submit
      × AreWorkers t.joining
      × AreWorkers t.draining
      × AreWorkers t.unwinding

  -- The pool of writers, which has been started.
  abbrev pub started : Writer B
  started = record {
    written = [];
    pool = record {
      n_workers = 2;
      maxsize = 4;
      workers = Worker.waiting ∷ Worker.waiting ∷ [];
      queue = [];
      unfinished = 0;
      putters = [];
      closed = false;
      results = [];
      stats = record { submitted = 0; completed = 0; failed = 0; rejected = 0; errors = [] };
    };
  }

  advance_all-append :
      (w : Writer B) (es fs : List (Event B (Unit {0})))
      → advance_all w (es ++ fs) ≡ advance_all (advance_all w es) fs
  unfolding advance_all
  advance_all-append w [] fs = refl
  advance_all-append w (e ∷ es) fs = advance_all-append (advance w e) es fs

  module _ (weight : B → ℕ) where
    -- Nothing comes in, and what has been written stays.
    abbrev Keeps : Writer B → Writer B → Type 0
    Keeps w w' =
        (tally weight w' ≡ tally weight w) × (total weight w.written ≤ total weight w'.written)

    Keeps-trans : (w w' w'' : Writer B) → Keeps w w' → Keeps w' w'' → Keeps w w''
    Keeps-trans w w' w'' (t, g) (t', g') = (omega (arith, t, t'), omega (arith, g, g'))

    workers-Keeps :
        (w : Writer B) (es : List (Event B (Unit {0}))) → AreWorkers es → Keeps w (advance_all w es)
    unfolding advance_all
    workers-Keeps w [] h = (refl, omega arith)
    workers-Keeps w (e ∷ es) h =
        Keeps-trans w (advance w e) (advance_all (advance w e) es)
          (advance-worker weight w e h.0, advance-written weight w e (worker-IsMains e h.0))
          (workers-Keeps (advance w e) es h.1)

    left-Keeps :
        (t : Turns B) (w : Writer B) → AreTurns t → Keeps w (advance_all w (while_left none t))
    unfolding advance_all
    left-Keeps t w (_, _, d, u) =
        let shut = advance w closes in
        let drained = advance_all shut t.draining in
        let unwound = advance_all drained t.unwinding in
        let ends : advance_all w (while_left none t) ≡ advance unwound forgets =
          advance_all-append shut (t.draining ++ t.unwinding) (forgets ∷ [])
          ∙ ap (λ x. advance x forgets) (advance_all-append shut t.draining t.unwinding) in
        rw ends (
          Keeps-trans w shut (advance unwound forgets)
            (omega (arith, advance-tally weight w closes tt), advance-written weight w closes tt)
            (Keeps-trans shut drained (advance unwound forgets) (workers-Keeps shut t.draining d) (
              Keeps-trans drained unwound (advance unwound forgets)
                (workers-Keeps drained t.unwinding u)
                (
                  omega (arith, advance-tally weight unwound forgets tt),
                  advance-written weight unwound forgets tt,
                ))))

    -- If the block is left, just what was submitted is written.
    abbrev pub WroteAll : List B → Option (Writer B) → Type 0
    WroteAll bs none = Unit
    WroteAll bs (some w) = total weight w.written ≡ total weight bs

    if_left-WroteAll :
        {R : Type 0} (bs : List B) (o : Option (PoolStats × WorkerPool B R)) (w w' : Writer B)
        → Keeps w w'
        → held weight w.pool ≡ 0
        → tally weight w ≡ total weight bs
        → WroteAll bs (if_left o w')
    if_left-WroteAll bs none w w' k h e = tt
    if_left-WroteAll bs (some (stats, p)) w w' (t, g) h e = omega (arith, t, g, h, e)

    with_writer-WroteAll :
        (t : Turns B) (bs : List B) (o : Option (Writer B))
        → AreTurns t
        → Submitted weight started bs o
        → WroteAll bs (with_writer t (ok tt) o)
    unfolding with_writer leave
    with_writer-WroteAll t bs none h s = tt
    with_writer-WroteAll t bs (some w) h (ready, n, e) =
        let w' = advance_all w t.joining in
        let (_, exact) = workers-IsOpen weight w t.joining h.1 ready in
        if_intro (WroteAll bs) (is_drained w'.pool)
          (λ done.
            if_left-WroteAll bs (aexit none t.draining t.unwinding w'.pool) w'
              (advance_all w' (while_left none t)) (left-Keeps t w' h)
              (exact-held weight w'.pool exact done (workers-putters weight w t.joining h.1 n))
              (omega (arith, workers-tally weight w t.joining h.1, e)))
          (λ waits. tt)

    started-IsOpen : IsOpen started.pool
    started-IsOpen = (refl, ground arith)

    pub written-all :
        (t : Turns B) (bs : List B)
        → AreTurns t
        → WroteAll bs (with_writer t (ok tt) (submit_all t.after_submit bs started))
    written-all t bs h =
        with_writer-WroteAll t bs (submit_all t.after_submit bs started) h
          (submit_all-Submitted weight t.after_submit bs started h.0 started-IsOpen refl)
