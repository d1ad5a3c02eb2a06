-- ===== src/Tasks/Numbering.antt =====
-- Which tasks a `TaskRegistry` of aiolab/tasks.py holds: distinct ones, and none that has ended.
use asyncio_tests.Base.{
  ℕ, suc, ◌<◌, ◌≡◌, inl, inr, refl, false, Bool-cases, List, [], ◌∷◌, ◌++◌, ◌==◌, All, if_intro,
  All-mono, All-append, arith,
}
use asyncio_tests.Errors.{Result, ok, raised}
use asyncio_tests.Tasks.Registry.{contains, discard, Loop, Event, spawns, ends, closes, step, run}

abbrev pub Distinct : List ℕ → Type 0
Distinct [] = Unit
Distinct (t ∷ ts) = (contains t ts ≡ false) × Distinct ts

pub lacks-discard :
    (t u : ℕ) (us : List ℕ) → contains t us ≡ false → contains t (discard u us) ≡ false
lacks-discard t u [] h = refl
lacks-discard t u (v ∷ us) h = ground (arith, lacks-discard t u us)

pub discard-lacks : (t : ℕ) (us : List ℕ) → Distinct us → contains t (discard t us) ≡ false
discard-lacks t [] d = refl
discard-lacks t (u ∷ us) d = ground (arith, discard-lacks t us d.1)

Distinct-discard : (t : ℕ) (us : List ℕ) → Distinct us → Distinct (discard t us)
Distinct-discard t [] d = tt
Distinct-discard t (u ∷ us) d =
    if_intro Distinct (u == t) (λ same. d.1)
      (λ differs. (lacks-discard u t us d.0, Distinct-discard t us d.1))

lacks-append :
    (t u : ℕ) (us : List ℕ)
    → contains t us ≡ false
    → (u == t) ≡ false
    → contains t (us ++ u ∷ []) ≡ false
lacks-append t u [] h n = ground arith
lacks-append t u (v ∷ us) h n = ground (arith, lacks-append t u us)

Distinct-append :
    (t : ℕ) (us : List ℕ) → contains t us ≡ false → Distinct us → Distinct (us ++ t ∷ [])
Distinct-append t [] n d = (refl, tt)
Distinct-append t (u ∷ us) n d =
    (lacks-append u t us d.0 (ground arith), Distinct-append t us (ground arith) d.1)

All-discard : (P : ℕ → Type 0) (t : ℕ) (us : List ℕ) → All P us → All P (discard t us)
All-discard P t [] h = tt
All-discard P t (u ∷ us) h =
    if_intro (All P) (u == t) (λ same. h.1) (λ differs. (h.0, All-discard P t us h.1))

lacks-fresh : (n : ℕ) (us : List ℕ) → All (λ t. t < n) us → contains n us ≡ false
lacks-fresh n [] h = refl
lacks-fresh n (u ∷ us) h = ground (arith, lacks-fresh n us h.1, h.0)

pub all_lack-empty : (us : List ℕ) → ((t : ℕ) → contains t us ≡ false) → us ≡ []
all_lack-empty [] h = refl
all_lack-empty (u ∷ us) h = ground (arith, h u)

discard-absent : (t : ℕ) (us : List ℕ) → contains t us ≡ false → discard t us ≡ us
discard-absent t [] h = refl
discard-absent t (u ∷ us) h = ground (arith, discard-absent t us)

-- What the end of a task leaves of the registry.
pub after_end :
    (l : Loop) (t : ℕ) (r : Result (Unit {0}))
    → let l' = step l (ends t r) in
      (l'.registry.tasks ≡ discard t l.registry.tasks)
      × (l'.made ≡ l.made)
      × (l'.registry.closed ≡ l.registry.closed)
unfolding step
after_end l t (ok u) = ground (arith, discard-absent t l.registry.tasks)
after_end l t (raised e) = ground (arith, discard-absent t l.registry.tasks)

-- The tasks held are distinct, and among those made.
abbrev pub Numbered : List ℕ → ℕ → Type 0
Numbered ts made = Distinct ts × All (λ t. t < made) ts

spawn-Numbered : (ts : List ℕ) (made : ℕ) → Numbered ts made → Numbered (ts ++ made ∷ []) (suc made)
spawn-Numbered ts made (d, b) = (
  Distinct-append made ts (lacks-fresh made ts b) d,
  All-append (λ t. t < suc made) ts (made ∷ [])
      (All-mono (λ t. t < made) (λ t. t < suc made) (λ t h. omega (arith, h)) ts b)
      (omega arith, tt),
)

pub step-Numbered :
    (l : Loop) (e : Event)
    → Numbered l.registry.tasks l.made
    → Numbered (step l e).registry.tasks (step l e).made
unfolding step
step-Numbered l spawns v = elim (Bool-cases l.registry.closed) [
  | inl shut ↦ rw shut v
  | inr free ↦ rw free (spawn-Numbered l.registry.tasks l.made v)
]
step-Numbered l (ends t r) (d, b) =
    let (left, made, _) = after_end l t r in
    rw (left, made) (Distinct-discard t l.registry.tasks d, All-discard _ t l.registry.tasks b)
step-Numbered l closes v = v

pub run-Numbered :
    (l : Loop) (es : List Event)
    → Numbered l.registry.tasks l.made
    → Numbered (run l es).registry.tasks (run l es).made
unfolding run
run-Numbered l [] v = v
run-Numbered l (e ∷ es) v = run-Numbered (step l e) es (step-Numbered l e v)
