-- ===== src/Queues/Stranded.antt =====
-- What `aclose` of aiolab/queues.py leaves behind of the calls of `submit` that wait for room.
use asyncio_tests.Base.{
  ℕ, suc, ◌≡◌, refl, ◌∙◌, true, false, Option, none, some, List, [], ◌∷◌, get_elem?, ◌⊎◌, inl, inr,
  All, arith, ◌≤◌, subst, ap, sym,
}
use asyncio_tests.Queues.Pool.{
  PoolStats, WorkerPool, Worker, waiting, handling, ended, start, submit, try_submit, has_room,
  is_drained, processed,
}
use asyncio_tests.Queues.Events.{
  Event, starts, submits, tries, resumes, gives_up, takes, handles, stops, closes, forgets,
  all_ended, resume, take_next, handle, stop, step, run,
}
use asyncio_tests.Queues.Joining.{IsExact}
use asyncio_tests.Queues.Closing.{gathered, aclose}
use asyncio_tests.Queues.Final.{closes-closed, run-closed}

module _ {T R : Type 0} where
  -- The pool is not started again, and no waiting `submit` is cancelled.
  abbrev pub Persists : Event T R → Type 0
  Persists starts = ⊥
  Persists (gives_up i) = ⊥
  Persists _ = Unit

  -- What a pool is that nothing can change but a new start or the cancellation of those who wait.
  pub record IsStuck (p : WorkerPool T R) : Type 0 where
    pub shut : p.closed ≡ true
    pub no_workers : p.workers ≡ []
    pub no_way : (has_room p ≡ false) ⊎ (p.putters ≡ [])

  -- Nothing moves on, and nothing is processed.
  abbrev pub Unmoved : WorkerPool T R → WorkerPool T R → Type 0
  Unmoved p q =
      (q.putters ≡ p.putters)
      × (q.queue ≡ p.queue)
      × (q.stats.submitted ≡ p.stats.submitted)
      × (processed q.stats ≡ processed p.stats)

  resume_refused :
      (p : WorkerPool T R) (i : ℕ) (o : Option T)
      → get_elem? p.putters i ≡ o
      → (has_room p ≡ false) ⊎ (p.putters ≡ [])
      → resume p i o ≡ p
  unfolding resume
  resume_refused p i none e no_way = refl
  resume_refused p i (some x) e (inl full) = ground (arith, full)
  resume_refused p i (some x) e (inr none_waiting) = cc (rw none_waiting at e)

  step-IsStuck :
      (p : WorkerPool T R) (e : Event T R)
      → Persists e
      → IsStuck p
      → IsStuck (step p e) × Unmoved p (step p e)
  unfolding step start submit try_submit take_next handle stop
  step-IsStuck p starts k v = absurd k
  step-IsStuck p (gives_up i) k v = absurd k
  step-IsStuck p (submits x) k v = ground (arith, v.shut, v.no_workers)
  step-IsStuck p (tries x) k v = ground (arith, v.shut, v.no_workers)
  step-IsStuck p (resumes i) k v =
      rw (resume_refused p i _ refl v.no_way) (v, (refl, refl, refl, refl))
  step-IsStuck p (takes i) k v = ground (arith, v.no_workers)
  step-IsStuck p (handles i r report) k v = ground (arith, v.no_workers)
  step-IsStuck p (stops i) k v = ground (arith, v.no_workers)
  step-IsStuck p closes k v = ground (arith, v.no_workers)
  step-IsStuck p forgets k v = ground (arith, v.no_workers)

  run-IsStuck :
      (p : WorkerPool T R) (es : List (Event T R))
      → All Persists es
      → IsStuck p
      → IsStuck (run p es) × Unmoved p (run p es)
  unfolding run
  run-IsStuck p [] k v = (v, (refl, refl, refl, refl))
  run-IsStuck p (e ∷ es) k v =
      let (w, (putters, queue, submitted, done)) = step-IsStuck p e k.0 v in
      let (u, (putters', queue', submitted', done')) = run-IsStuck (step p e) es k.1 w in
      (u, (putters' ∙ putters, queue' ∙ queue, submitted' ∙ submitted, done' ∙ done))

  gathered-closed :
      (p q : WorkerPool T R) (stats : PoolStats)
      → p.closed ≡ true
      → gathered p ≡ some (stats, q)
      → (q.closed ≡ true) × (q.workers ≡ [])
  unfolding step
  gathered-closed p q stats shut e = ground (arith, shut, e)

  -- If an abort, `aclose` with `drain=False`, leaves a full queue, the calls of `submit` that wait for
  -- room wait on, whatever happens, until they are cancelled or the pool is started again.
  pub abort_strands :
      (p q : WorkerPool T R) (stats : PoolStats) (unwinding later : List (Event T R))
      → aclose false [] unwinding p ≡ some (stats, q)
      → has_room q ≡ false
      → All Persists later
      → Unmoved q (run q later)
  unfolding aclose
  abort_strands p q stats unwinding later returned full k =
      let (shut, no_workers) =
        gathered-closed (run (step p closes) unwinding) q stats
          (run-closed (step p closes) unwinding (closes-closed p)) returned in
      (run-IsStuck q later k (record { shut = shut; no_workers = no_workers; no_way = inl full })).1

  -- The cancellation of a worker that waits for an item.
  abbrev pub IsStop : Event T R → Type 0
  IsStop (stops i) = Unit
  IsStop _ = ⊥

  -- All but the workers.
  abbrev SameBut : WorkerPool T R → WorkerPool T R → Type 0
  SameBut p q = (q.closed ≡ p.closed) × Unmoved p q × (q.stats ≡ p.stats)

  stop-SameBut : (p : WorkerPool T R) (i : ℕ) (o : Option (Worker T)) → SameBut p (stop p i o)
  unfolding stop
  stop-SameBut p i none = (refl, (refl, refl, refl, refl), refl)
  stop-SameBut p i (some ended) = (refl, (refl, refl, refl, refl), refl)
  stop-SameBut p i (some (handling x)) = (refl, (refl, refl, refl, refl), refl)
  stop-SameBut p i (some waiting) = (refl, (refl, refl, refl, refl), refl)

  stops-SameBut :
      (p : WorkerPool T R) (es : List (Event T R)) → All IsStop es → SameBut p (run p es)
  unfolding run step
  stops-SameBut p [] k = (refl, (refl, refl, refl, refl), refl)
  stops-SameBut p (stops i ∷ es) k =
      let p' = stop p i (get_elem? p.workers i) in
      let (shut, (putters, queue, submitted, done), stats) =
        stop-SameBut p i (get_elem? p.workers i) in
      let (shut', (putters', queue', submitted', done'), stats') = stops-SameBut p' es k.1 in
      (
        shut' ∙ shut,
        (putters' ∙ putters, queue' ∙ queue, submitted' ∙ submitted, done' ∙ done),
        stats' ∙ stats,
      )
  stops-SameBut p (starts ∷ es) k = absurd k.0
  stops-SameBut p (submits x ∷ es) k = absurd k.0
  stops-SameBut p (tries x ∷ es) k = absurd k.0
  stops-SameBut p (resumes i ∷ es) k = absurd k.0
  stops-SameBut p (gives_up i ∷ es) k = absurd k.0
  stops-SameBut p (takes i ∷ es) k = absurd k.0
  stops-SameBut p (handles i r report ∷ es) k = absurd k.0
  stops-SameBut p (closes ∷ es) k = absurd k.0
  stops-SameBut p (forgets ∷ es) k = absurd k.0

  -- The waiting `submit` puts its item.
  resumed :
      (p : WorkerPool T R) (x : T)
      → p.putters ≡ x ∷ []
      → p.queue ≡ []
      → 1 ≤ p.maxsize
      → let q = step p (resumes 0) in
        (q.putters ≡ []) × (q.queue ≡ x ∷ []) × (q.closed ≡ p.closed) × (q.stats ≡ p.stats)
  unfolding step resume
  resumed p x one none_queued some_room = ground arith

  exact_drained :
      (p : WorkerPool T R) (x : T)
      → IsExact p
      → is_drained p ≡ true
      → p.putters ≡ x ∷ []
      → (p.queue ≡ []) × (suc (processed p.stats) ≡ p.stats.submitted)
  exact_drained p x v done one = ground arith

  -- If `join` may return while one `submit` still waits for room on a bounded queue, at a time when the
  -- unfinished items are just those queued or in hand, and each item submitted has been processed, is
  -- queued, in hand or waits for room, as after an orderly run; and that `submit` then puts its item
  -- before the idle workers are stopped: then `aclose` with `drain=True` returns with the item in the
  -- queue and one item fewer processed than submitted, and so it stays, until the pool is started again.
  pub drain_loses_waiting :
      (p d : WorkerPool T R) (x : T) (draining stopping later : List (Event T R))
      → run (step p closes) draining ≡ d
      → IsExact d
      → 1 ≤ d.maxsize
      → is_drained d ≡ true
      → d.putters ≡ x ∷ []
      → All IsStop stopping
      → all_ended (run (step d (resumes 0)) stopping).workers ≡ true
      → All Persists later
      → (stats : PoolStats) × (q : WorkerPool T R) × (aclose true draining (resumes 0 ∷ stopping) p
          ≡ some (stats, q))
        × ((run q later).queue ≡ x ∷ [])
        × (suc (processed (run q later).stats) ≡ (run q later).stats.submitted)
  unfolding aclose run
  drain_loses_waiting p d x draining stopping later reached v room done one k over k' =
      let (none_queued, short) = exact_drained d x v done one in
      let (none_waiting, one_queued, shut, stats) = resumed d x one none_queued room in
      let e = run (step d (resumes 0)) stopping in
      let (shut', (putters, queue, _, _), stats') = stops-SameBut (step d (resumes 0)) stopping k in
      let closed : d.closed ≡ true =
        subst (λ (c : WorkerPool T R). c.closed ≡ true) reached
          (run-closed (step p closes) draining (closes-closed p)) in
      let left = record e { workers = [] } in
      let same : e.stats ≡ d.stats = stats' ∙ stats in
      let stuck : IsStuck left = record {
        shut = shut' ∙ shut ∙ closed;
        no_workers = refl;
        no_way = inr (putters ∙ none_waiting);
      } in
      let (_, (_, kept, submitted, done')) = run-IsStuck left later k' stuck in
      (
        e.stats,
        left,
        rw (reached, done, over) refl,
        kept ∙ queue ∙ one_queued,
        ap suc (done' ∙ ap processed same)
            ∙ short
            ∙ sym (submitted ∙ ap (λ (t : PoolStats). t.submitted) same),
      )
