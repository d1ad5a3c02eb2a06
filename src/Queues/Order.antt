-- ===== src/Queues/Order.antt =====
-- The order in which the items of the pool of aiolab/queues.py are handled.
use asyncio_tests.Base.{Option, none, some, List, [], ◌∷◌, ◌++◌, get_elem?, if◌then◌else◌}
use asyncio_tests.Queues.Pool.{WorkerPool, Worker, waiting, has_room}
use asyncio_tests.Queues.Events.{Event, submits, tries, resumes, takes, step}

module _ {T : Type 0} where
  abbrev pub first : List T → List T
  first [] = []
  first (x ∷ xs) = x ∷ []

  abbrev pub for_worker : Option (Worker T) → List T → List T
  for_worker (some waiting) queue = first queue
  for_worker _ queue = []

module _ {T R : Type 0} where
  -- The items that enter the queue: those of a call that finds room, at once or when it runs on.
  abbrev pub entering : WorkerPool T R → Event T R → List T
  entering p (submits x) = if p.closed then [] else if has_room p then x ∷ [] else []
  entering p (tries x) = if p.closed then [] else if has_room p then x ∷ [] else []
  entering p (resumes i) = elim (get_elem? p.putters i) [
    | none ↦ []
    | some x ↦ if has_room p then x ∷ [] else []
  ]
  entering p _ = []

  -- The item that a worker takes in hand.
  abbrev pub leaving : WorkerPool T R → Event T R → List T
  leaving p (takes i) = for_worker (get_elem? p.workers i) p.queue
  leaving p _ = []

  abbrev pub all_entering : WorkerPool T R → List (Event T R) → List T
  all_entering p [] = []
  all_entering p (e ∷ es) = entering p e ++ all_entering (step p e) es

  abbrev pub all_leaving : WorkerPool T R → List (Event T R) → List T
  all_leaving p [] = []
  all_leaving p (e ∷ es) = leaving p e ++ all_leaving (step p e) es
