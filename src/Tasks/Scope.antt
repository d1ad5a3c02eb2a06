-- ===== src/Tasks/Scope.antt =====
-- `drain`, `aclose` and `__aexit__` of `TaskRegistry` in aiolab/tasks.py. What happens while the registry
-- waits for tasks, by `gather` or `cancel_and_wait`, is a list of events; a task's end and its
-- callback are one.
use asyncio_tests.Base.{Bool, true, false, Option, none, some, List, [], ◌∷◌, if◌then◌else◌}
use asyncio_tests.Errors.{Exn}
use asyncio_tests.Tasks.Registry.{Loop, Event, closes, step, run}

abbrev pub is_empty : {A : Type 0} → List A → Bool
is_empty [] = true
is_empty (x ∷ xs) = false

-- `drain`, with the events of each call of `gather`; `none` if there are not enough of them.
unfoldable pub drain : List (List Event) → Loop → Option Loop
unfolding run
drain [] l = if is_empty l.registry.tasks then some l else none
drain (events ∷ rounds) l =
    let rest = drain rounds (run l events) in if is_empty l.registry.tasks then some l else rest

-- `aclose`, with the events of `cancel_and_wait`.
unfoldable pub aclose : List Event → Loop → Loop
unfolding run step
aclose events l = run (step l closes) events

abbrev pub then_closed : Option Loop → Option Loop
then_closed none = none
then_closed (some l) = some (record l { registry = record l.registry { closed = true } })

-- `__aexit__`, by the exception that the body has raised, if any.
unfoldable pub aexit : Option Exn → List (List Event) → List Event → Loop → Option Loop
unfolding drain aclose
aexit none rounds events l = then_closed (drain rounds l)
aexit (some e) rounds events l = some (aclose events l)
