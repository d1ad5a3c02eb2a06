-- ===== src/Tasks/Closing.antt =====
-- That the scope of a `TaskRegistry` of aiolab/tasks.py leaves no task behind.
use asyncio_tests.Base.{
  ℕ, ◌+◌, ◌≡◌, ◌⊎◌, true, false, Bool, Option, none, some, List, [], ◌∷◌, ◌==◌, All, if◌then◌else◌,
}
use asyncio_tests.Errors.{Exn}
use asyncio_tests.Tasks.Registry.{contains, Loop, Event, spawns, ends, closes, run}
use asyncio_tests.Tasks.Owner.{IsAccounted}

abbrev pub NoSpawn : Event → Type 0
NoSpawn spawns = ⊥
NoSpawn _ = Unit

-- No task is added: the registry is closed, or nobody spawns.
abbrev Stays : Loop → List Event → Type 0
Stays l es = (l.registry.closed ≡ true) ⊎ All NoSpawn es

-- Whether the task ends.
abbrev pub ends_in : ℕ → List Event → Bool
ends_in t [] = false
ends_in t (ends u r ∷ es) = let rest = ends_in t es in if t == u then true else rest
ends_in t (spawns ∷ es) = ends_in t es
ends_in t (closes ∷ es) = ends_in t es

-- What waiting for the tasks held promises: each of them ends.
abbrev pub Settles : Loop → List Event → Type 0
Settles l es = (t : ℕ) → contains t l.registry.tasks ≡ true → ends_in t es ≡ true

-- The registry after the events of rounds that wait for its tasks.
abbrev pub after : List (List Event) → Loop → Loop
after [] l = l
after (es ∷ rounds) l = after rounds (run l es)

-- A wait that has ended, with no task held and each that was made accounted for.
abbrev Drained : Option Loop → Type 0
Drained o = (l : Loop) × (o ≡ some l) × (l.registry.tasks ≡ []) × IsAccounted l

-- A registry that is closed and holds nothing; each task that it has made has completed, failed or
-- been cancelled.
abbrev pub LeavesNothing : Option Loop → Type 0
LeavesNothing o =
    (l : Loop) × (o ≡ some l)
    × (l.registry.tasks ≡ [])
    × (l.registry.closed ≡ true)
    × (l.registry.completed + l.registry.failed + l.stopped ≡ l.made)

-- What `gather` promises in the last round, in which nobody spawns, or `cancel_and_wait`: that all
-- tasks held end.
abbrev pub Promise : Option Exn → List (List Event) → List Event → Loop → Type 0
Promise none rounds last l = All NoSpawn last × Settles (after rounds l) last
Promise (some e) rounds last l = Settles l last
