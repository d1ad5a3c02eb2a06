-- ===== src/Tasks/Owner.antt =====
-- What the registry of aiolab/tasks.py holds and counts.
use asyncio_tests.Base.{
  ℕ, suc, ◌+◌, ◌≡◌, ◌≢◌, refl, true, false, List, [], ◌∷◌, ◌++◌, length, length-append, arith, All,
}
use asyncio_tests.Errors.{ok, raised}
use asyncio_tests.Tasks.Registry.{
  contains, discard, Loop, Event, spawns, ends, closes, step, new, run,
}

length-discard :
    (t : ℕ) (us : List ℕ) → contains t us ≡ true → suc (length (discard t us)) ≡ length us
length-discard t [] h = cc
length-discard t (u ∷ us) h = ground (arith, length-discard t us)

contains-discard :
    (t u : ℕ) (us : List ℕ) → t ≢ u → contains t us ≡ true → contains t (discard u us) ≡ true
contains-discard t u [] n h = cc
contains-discard t u (v ∷ us) n h = ground (arith, contains-discard t u us n)

contains-append : (t : ℕ) (us vs : List ℕ) → contains t us ≡ true → contains t (us ++ vs) ≡ true
contains-append t [] vs h = cc
contains-append t (u ∷ us) vs h = ground (arith, contains-append t us vs)

pub record IsAccounted (l : Loop) : Type 0 where
  pub all_tasks :
      length l.registry.tasks + l.registry.completed + l.registry.failed + l.stopped ≡ l.made
  pub all_errors : length l.registry.errors ≡ l.registry.failed

pub step-IsAccounted : (l : Loop) (e : Event) → IsAccounted l → IsAccounted (step l e)
unfolding step
step-IsAccounted l spawns v = ground (arith, length-append l.registry.tasks (l.made ∷ []))
step-IsAccounted l (ends t (ok u)) v = ground (arith, length-discard t l.registry.tasks)
step-IsAccounted l (ends t (raised e)) v =
    ground (arith, length-discard t l.registry.tasks, length-append l.registry.errors (e ∷ []))
step-IsAccounted l closes v = ground arith

pub run-IsAccounted : (l : Loop) (es : List Event) → IsAccounted l → IsAccounted (run l es)
unfolding run
run-IsAccounted l [] v = v
run-IsAccounted l (e ∷ es) v = run-IsAccounted (step l e) es (step-IsAccounted l e v)

-- Whatever happens to a new registry, each task that it has made is held, completed, failed or
-- cancelled, and each failure's error is kept.
pub run-new-IsAccounted : (es : List Event) → IsAccounted (run new es)
unfolding new
run-new-IsAccounted es = run-IsAccounted new es (record { all_tasks = refl; all_errors = refl })

-- An event that is not the end of the task.
abbrev pub Spares : ℕ → Event → Type 0
Spares t (ends u end) = t ≢ u
Spares t _ = Unit

step-contains :
    (t : ℕ) (l : Loop) (e : Event)
    → Spares t e
    → contains t l.registry.tasks ≡ true
    → contains t (step l e).registry.tasks ≡ true
unfolding step
step-contains t l spawns s h = ground (arith, contains-append t l.registry.tasks (l.made ∷ []))
step-contains t l (ends u (ok v)) s h = ground (arith, contains-discard t u l.registry.tasks s)
step-contains t l (ends u (raised e)) s h = ground (arith, contains-discard t u l.registry.tasks s)
step-contains t l closes s h = h

run-contains :
    (t : ℕ) (l : Loop) (es : List Event)
    → All (Spares t) es
    → contains t l.registry.tasks ≡ true
    → contains t (run l es).registry.tasks ≡ true
unfolding run
run-contains t l [] s h = h
run-contains t l (e ∷ es) s h = run-contains t (step l e) es s.1 (step-contains t l e s.0 h)

contains-last : (t : ℕ) (us : List ℕ) → contains t (us ++ t ∷ []) ≡ true
contains-last t [] = ground arith
contains-last t (u ∷ us) = ground (arith, contains-last t us)

spawn_held :
    (l : Loop) → l.registry.closed ≡ false → contains l.made (step l spawns).registry.tasks ≡ true
unfolding step
spawn_held l o = ground (arith, contains-last l.made l.registry.tasks)

-- A task that an open registry spawns is held until it ends, whatever else happens meanwhile.
pub spawned_is_held :
    (l : Loop) (es : List Event)
    → l.registry.closed ≡ false
    → All (Spares l.made) es
    → contains l.made (run (step l spawns) es).registry.tasks ≡ true
spawned_is_held l es o s = run-contains l.made (step l spawns) es s (spawn_held l o)
