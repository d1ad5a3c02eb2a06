-- ===== src/Queues/Events.antt =====
-- The pool of aiolab/queues.py under every interleaving: what its callers, its workers and the event
-- loop do, as a sequence of events. An event that cannot happen in a state leaves it as it is.
use asyncio_tests.Base.{
  ℕ, Bool, true, false, Option, none, some, List, [], ◌∷◌, get_elem?, remove_at, if◌then◌else◌,
}
use mathlib.Core.List.{foldl}
use asyncio_tests.Errors.{Result}
use asyncio_tests.Queues.Pool.{
  WorkerPool, Worker, waiting, handling, ended, start, submit, try_submit, get, handled, put,
  has_room, put_worker,
}

pub data Event (T R : Type 0) : Type 0 where
  starts : Event T R
  submits tries : T → Event T R
  -- a call of `submit` that waits finds room, or is cancelled
  resumes gives_up : ℕ → Event T R
  -- worker `i` takes an item; its handler ends, and then `on_result`; it is cancelled as it waits
  takes : (i : ℕ) → Event T R
  handles : (i : ℕ) → Result R → Result (Unit {0}) → Event T R
  stops : (i : ℕ) → Event T R
  -- `aclose` sets the flag; it forgets its workers once all have ended
  closes forgets : Event T R

abbrev pub all_ended : {T : Type 0} → List (Worker T) → Bool
all_ended [] = true
all_ended (ended ∷ ws) = all_ended ws
all_ended (w ∷ ws) = false

module _ {T R : Type 0} where
  -- A waiting `submit` runs on: it puts its item if there is room, and else waits again.
  unfoldable pub resume : WorkerPool T R → ℕ → Option T → WorkerPool T R
  resume p i none = p
  resume p i (some item) =
      if has_room p then put (record p { putters = remove_at p.putters i }) item else p

  unfoldable pub take_next : WorkerPool T R → ℕ → Option (Worker T) → WorkerPool T R
  unfolding get
  take_next p i (some waiting) = get p i
  take_next p i _ = p

  unfoldable pub handle :
      WorkerPool T R → ℕ → Option (Worker T) → Result R → Result (Unit {0}) → WorkerPool T R
  unfolding handled
  handle p i (some (handling item)) r report = handled p i r report
  handle p i _ r report = p

  unfoldable pub stop : WorkerPool T R → ℕ → Option (Worker T) → WorkerPool T R
  stop p i (some waiting) = put_worker p i ended
  stop p i _ = p

  unfoldable pub step : WorkerPool T R → Event T R → WorkerPool T R
  unfolding start submit try_submit resume take_next handle stop
  step p starts = (start p).1
  step p (submits item) = (submit p item).1
  step p (tries item) = (try_submit p item).1
  step p (resumes i) = resume p i (get_elem? p.putters i)
  step p (gives_up i) = record p { putters = remove_at p.putters i }
  step p (takes i) = take_next p i (get_elem? p.workers i)
  step p (handles i r report) = handle p i (get_elem? p.workers i) r report
  step p (stops i) = stop p i (get_elem? p.workers i)
  step p closes = record p { closed = true }
  step p forgets = if all_ended p.workers then record p { workers = [] } else p

  unfoldable pub run : WorkerPool T R → List (Event T R) → WorkerPool T R
  unfolding step
  run = foldl step
