-- ===== src/Sync/RwLock.antt =====
-- `ReadWriteLock` of aiolab/sync.py, one function for each stretch of code that runs without an
-- `await`. The lock inside the condition is free whenever no such stretch runs, since `wait_for`
-- gives it back; a call that waits for it has not begun its stretch.
use asyncio_tests.Base.{
  ℕ, suc, ◌-◌, Bool, true, false, not, ◌&&◌, Option, none, some, List, [], ◌∷◌, ◌++◌, map,
  get_elem?, set, remove_at, ◌==◌, if◌then◌else◌,
}
use mathlib.Core.List.{foldl}

-- A call that waits in `wait_for`: for which lock, and whether it has been notified since it last
-- tested its predicate.
pub record Waiter : Type 0 where
  pub writes : Bool
  pub woken : Bool

pub record ReadWriteLock : Type 0 where
  pub readers : ℕ
  pub writer : Bool
  pub waiting_writers : ℕ
  pub waiters : List Waiter

unfoldable pub init : ReadWriteLock
init = record { readers = 0; writer = false; waiting_writers = 0; waiters = [] }

-- The two predicates that `wait_for` is given.
abbrev pub may_read : ReadWriteLock → Bool
may_read l = not l.writer && (l.waiting_writers == 0)

abbrev pub may_write : ReadWriteLock → Bool
may_write l = not l.writer && (l.readers == 0)

abbrev pub may_enter : ReadWriteLock → Bool → Bool
may_enter l writes = if writes then may_write l else may_read l

abbrev pub asleep : Bool → Waiter
asleep writes = record { writes = writes; woken = false }

abbrev pub wake : Waiter → Waiter
wake w = record w { woken = true }

-- `condition.notify_all`
abbrev pub notify_all : ReadWriteLock → ReadWriteLock
notify_all l = record l { waiters = map wake l.waiters }

-- What follows `wait_for` when its predicate holds; for a writer the `finally` comes first.
abbrev pub enter : ReadWriteLock → Bool → ReadWriteLock
enter l writes =
    if writes
    then record l { waiting_writers = l.waiting_writers - 1; writer = true }
    else record l { readers = suc l.readers }

-- `acquire_read` and `acquire_write`, up to their return or their wait.
unfoldable pub acquire_read : ReadWriteLock → ReadWriteLock
acquire_read l =
    if may_read l then enter l false else record l { waiters = l.waiters ++ asleep false ∷ [] }

unfoldable pub acquire_write : ReadWriteLock → ReadWriteLock
acquire_write l =
    let counted = record l { waiting_writers = suc l.waiting_writers } in
    if may_write counted
    then enter counted true
    else record counted { waiters = l.waiters ++ asleep true ∷ [] }

-- A notified call tests its predicate again.
unfoldable pub resume : ReadWriteLock → ℕ → Option Waiter → ReadWriteLock
resume l i none = l
resume l i (some w) =
    if not w.woken
    then l
    else if may_enter l w.writes
    then enter (record l { waiters = remove_at l.waiters i }) w.writes
    else record l { waiters = set l.waiters i (asleep w.writes) }

-- A call that waits is cancelled; the `finally` runs for a writer.
unfoldable pub cancel : ReadWriteLock → ℕ → Option Waiter → ReadWriteLock
cancel l i none = l
cancel l i (some w) =
    let left = record l { waiters = remove_at l.waiters i } in
    if w.writes then record left { waiting_writers = l.waiting_writers - 1 } else left

unfoldable pub release_read : ReadWriteLock → ReadWriteLock
release_read l =
    let left = record l { readers = l.readers - 1 } in
    if l.readers - 1 == 0 then notify_all left else left

unfoldable pub release_write : ReadWriteLock → ReadWriteLock
release_write l = notify_all (record l { writer = false })

pub data Event : Type 0 where
  reads writes : Event
  resumes cancels : ℕ → Event
  read_done write_done : Event

-- `_RWContext` releases only what it has acquired: with no reader or writer inside, the releases do
-- not happen.
unfoldable pub step : ReadWriteLock → Event → ReadWriteLock
unfolding acquire_read acquire_write resume cancel release_read release_write
step l reads = acquire_read l
step l writes = acquire_write l
step l (resumes i) = resume l i (get_elem? l.waiters i)
step l (cancels i) = cancel l i (get_elem? l.waiters i)
step l read_done = if l.readers == 0 then l else release_read l
step l write_done = if l.writer then release_write l else l

unfoldable pub run : ReadWriteLock → List Event → ReadWriteLock
unfolding step
run = foldl step
