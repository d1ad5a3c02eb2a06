-- ===== src/Queues/Pool.antt =====
-- `WorkerPool` of aiolab/queues.py between two suspension points: one function for each stretch of
-- code that runs without an `await`. The `asyncio.Queue` is the list of its items with the count
-- of unfinished ones, on which `join` waits.
use asyncio_tests.Base.{
  ℕ, suc, ◌+◌, ◌-◌, Bool, true, false, List, [], ◌∷◌, ◌++◌, length, set, replicate, ltb, ◌==◌,
  if◌then◌else◌,
}
use asyncio_tests.Errors.{
  Exn, Result, ok, raised, is_cancelled, is_exception, value_error, runtime_error,
  pool_closed_error,
}

pub record PoolStats : Type 0 where
  pub submitted : ℕ
  pub completed : ℕ
  pub failed : ℕ
  pub rejected : ℕ
  pub errors : List Exn

-- `PoolStats.processed`
abbrev pub processed : PoolStats → ℕ
processed s = s.completed + s.failed

-- Where a worker stands: at `await self._queue.get()`, at `await self._handler(item)`, or ended.
pub data Worker (T : Type 0) : Type 0 where
  waiting : Worker T
  handling : (item : T) → Worker T
  ended : Worker T

pub record WorkerPool (T R : Type 0) : Type 0 where
  pub n_workers : ℕ
  pub maxsize : ℕ
  pub workers : List (Worker T)
  pub queue : List T
  pub unfinished : ℕ
  -- the items of the calls of `submit` that wait for room
  pub putters : List T
  pub closed : Bool
  pub results : List R
  pub stats : PoolStats

module _ {T R : Type 0} where
  -- `__init__`; `workers` and `maxsize` are natural numbers, since what is below 1 is refused.
  unfoldable pub init : ℕ → ℕ → Result (WorkerPool T R)
  init workers maxsize =
      if ltb workers 1
      then raised value_error
      else if ltb maxsize 1
      then raised value_error
      else ok (record {
        n_workers = workers;
        maxsize = maxsize;
        workers = [];
        queue = [];
        unfinished = 0;
        putters = [];
        closed = false;
        results = [];
        stats = record { submitted = 0; completed = 0; failed = 0; rejected = 0; errors = [] };
      })

  unfoldable pub start : WorkerPool T R → Result (Unit {0}) × WorkerPool T R
  start p = elim p.workers [
    | [] ↦ (ok tt, record p { workers = replicate p.n_workers waiting })
    | w ∷ ws ↦ (raised runtime_error, p)
  ]

  -- `queue.full()` is the failure of this test.
  abbrev pub has_room : WorkerPool T R → Bool
  has_room p = ltb (length p.queue) p.maxsize

  -- `queue.put_nowait`, where there is room
  abbrev pub put : WorkerPool T R → T → WorkerPool T R
  put p item = record p { queue = p.queue ++ item ∷ []; unfinished = suc p.unfinished }

  -- `queue.task_done`. That it is never called with nothing unfinished, where it would raise, is an
  -- invariant below.
  abbrev pub task_done : WorkerPool T R → WorkerPool T R
  task_done p = record p { unfinished = p.unfinished - 1 }

  -- `submit`, up to its return or to its wait for room.
  unfoldable pub submit : WorkerPool T R → T → Result (Unit {0}) × WorkerPool T R
  submit p item =
      if p.closed
      then (raised pool_closed_error, p)
      else (let counted = record p {
        stats = record p.stats { submitted = suc p.stats.submitted };
      } in
          if has_room p
          then (ok tt, put counted item)
          else (ok tt, record counted { putters = p.putters ++ item ∷ [] }))

  unfoldable pub try_submit : WorkerPool T R → T → Result Bool × WorkerPool T R
  try_submit p item =
      if p.closed
      then (raised pool_closed_error, p)
      else if has_room p
      then (
        ok true,
        put (record p { stats = record p.stats { submitted = suc p.stats.submitted } }) item,
      )
      else (ok false, record p { stats = record p.stats { rejected = suc p.stats.rejected } })

  -- A worker takes the oldest item.
  unfoldable pub get : WorkerPool T R → ℕ → WorkerPool T R
  get p i = elim p.queue [
    | [] ↦ p
    | item ∷ rest ↦ record p { queue = rest; workers = set p.workers i (handling item) }
  ]

  abbrev pub put_worker : WorkerPool T R → ℕ → Worker T → WorkerPool T R
  put_worker p i w = record p { workers = set p.workers i w }

  -- `self._on_result(result)` has returned or raised; what it raises ends the worker.
  abbrev pub reported : WorkerPool T R → ℕ → Result (Unit {0}) → WorkerPool T R
  reported p i (ok _) = put_worker (task_done p) i waiting
  reported p i (raised e) = put_worker p i ended

  -- What follows `await self._handler(item)`, by how the handler ended; `report` is how the call of
  -- `on_result` ends, and is `ok tt` for a pool without one.
  unfoldable pub handled : WorkerPool T R → ℕ → Result R → Result (Unit {0}) → WorkerPool T R
  unfolding is_cancelled is_exception
  handled p i (ok result) report =
      reported
        (record p {
          results = p.results ++ result ∷ [];
          stats = record p.stats { completed = suc p.stats.completed };
        })
        i report
  handled p i (raised exc) report =
      if is_cancelled exc
      then put_worker (task_done p) i ended
      else if is_exception exc
      then put_worker
          (task_done (record p {
            stats = record p.stats {
              failed = suc p.stats.failed;
              errors = p.stats.errors ++ exc ∷ [];
            };
          }))
          i waiting
      else put_worker p i ended

  -- `join` returns when this holds.
  abbrev pub is_drained : WorkerPool T R → Bool
  is_drained p = p.unfinished == 0
