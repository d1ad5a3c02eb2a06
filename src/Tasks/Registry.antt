-- ===== src/Tasks/Registry.antt =====
-- `TaskRegistry` of aiolab/tasks.py. A task is its number in the order in which tasks are made; the
-- set of tasks is a list with no task twice.
use asyncio_tests.Base.{ℕ, suc, Bool, true, false, List, [], ◌∷◌, ◌++◌, ◌==◌, if◌then◌else◌}
use mathlib.Core.List.{foldl}
use asyncio_tests.Errors.{Exn, Result, ok, raised, is_cancelled, runtime_error}

pub record TaskRegistry : Type 0 where
  pub tasks : List ℕ
  pub closed : Bool
  pub completed : ℕ
  pub failed : ℕ
  pub errors : List Exn

unfoldable pub init : TaskRegistry
init = record { tasks = []; closed = false; completed = 0; failed = 0; errors = [] }

abbrev pub contains : ℕ → List ℕ → Bool
contains t [] = false
contains t (u ∷ us) = if u == t then true else contains t us

-- `set.discard`
abbrev pub discard : ℕ → List ℕ → List ℕ
discard t [] = []
discard t (u ∷ us) = if u == t then us else u ∷ discard t us

-- `spawn`, with the task that `ensure_future` would make.
unfoldable pub spawn : TaskRegistry → ℕ → Result ℕ × TaskRegistry
spawn r task =
    if r.closed
    then (raised runtime_error, r)
    else (ok task, record r { tasks = r.tasks ++ task ∷ [] })

-- `_on_done`, called by the event loop when the task has ended.
unfoldable pub on_done : {A : Type 0} → TaskRegistry → ℕ → Result A → TaskRegistry
unfolding is_cancelled
on_done r task (ok v) = record r { tasks = discard task r.tasks; completed = suc r.completed }
on_done r task (raised e) =
    let left = record r { tasks = discard task r.tasks } in
    if is_cancelled e
    then left
    else record left { failed = suc r.failed; errors = r.errors ++ e ∷ [] }

-- The registry in an event loop that has made `made` tasks for it and seen `stopped` of them
-- cancelled.
pub record Loop : Type 0 where
  pub registry : TaskRegistry
  pub made : ℕ
  pub stopped : ℕ

pub data Event : Type 0 where
  -- a call of `spawn`; the end of a task; `aclose`, which then cancels what is held
  spawns : Event
  ends : (task : ℕ) → Result (Unit {0}) → Event
  closes : Event

abbrev pub was_cancelled : Result (Unit {0}) → Bool
was_cancelled (ok v) = false
was_cancelled (raised e) = is_cancelled e

abbrev pub make : Loop → Result ℕ × TaskRegistry → Loop
make l (ok task, r) = record l { registry = r; made = suc l.made }
make l (raised e, r) = record l { registry = r }

unfoldable pub step : Loop → Event → Loop
unfolding spawn on_done
step l spawns = make l (spawn l.registry l.made)
step l (ends task end) =
    if contains task l.registry.tasks
    then record l {
      registry = on_done l.registry task end;
      stopped = if was_cancelled end then suc l.stopped else l.stopped;
    }
    else l
step l closes = record l { registry = record l.registry { closed = true } }

-- A new registry.
unfoldable pub new : Loop
unfolding init
new = record { registry = init; made = 0; stopped = 0 }

unfoldable pub run : Loop → List Event → Loop
unfolding step
run = foldl step
