-- ===== src/Sync/Exclusion.antt =====
-- Who is inside the lock of aiolab/sync.py, under every interleaving.
use asyncio_tests.Base.{
  ℕ, suc, ◌-◌, ◌==◌, ltb, Bool, length, length-append, length-remove_at, length-set, ◌≤◌, ◌≡◌, ◌⊎◌,
  inl, refl, true, false, Option, none, some, List, [], ◌∷◌, get_elem?, if◌then◌else◌, total,
  total-append, total-set, total-remove_at, total-map, arith,
}
use asyncio_tests.Sync.RwLock.{
  Waiter, ReadWriteLock, init, asleep, wake, resume, cancel, Event, reads, writes, resumes, cancels,
  read_done, write_done, step, run,
}

abbrev pub write_weight : Waiter → ℕ
write_weight w = if w.writes then 1 else 0

abbrev pub writers : List Waiter → ℕ
writers = total write_weight

-- The calls that are inside the lock, counted one by one, whatever the lock's own fields say.
pub record Inside : Type 0 where
  pub reading : ℕ
  pub writing : ℕ

abbrev pub nobody : Inside
nobody = record { reading = 0; writing = 0 }

abbrev one_in : Inside → Bool → Inside
one_in c is_writer =
    if is_writer then record c { writing = suc c.writing } else record c { reading = suc c.reading }

-- A call goes in when it does not wait, or no longer does.
abbrev let_in : Inside → Option Waiter → Bool → Inside
let_in c none gone = c
let_in c (some w) gone = if gone then one_in c w.writes else c

abbrev pub follow : ReadWriteLock → Inside → Event → Inside
follow l c reads = if length (step l reads).waiters == length l.waiters then one_in c false else c
follow l c writes = if length (step l writes).waiters == length l.waiters then one_in c true else c
follow l c (resumes i) =
    let_in c (get_elem? l.waiters i) (ltb (length (step l (resumes i)).waiters) (length l.waiters))
follow l c (cancels i) = c
follow l c read_done = record c { reading = c.reading - 1 }
follow l c write_done = record c { writing = c.writing - 1 }

-- The calls that are inside after the events.
abbrev pub inside : ReadWriteLock → Inside → List Event → Inside
inside l c [] = c
inside l c (e ∷ es) = inside (step l e) (follow l c e) es

pub record IsSafe (l : ReadWriteLock) (c : Inside) : Type 0 where
  -- A writer is alone.
  pub exclusive : (c.writing ≡ 0) ⊎ (c.writing ≡ 1) × (c.reading ≡ 0)
  -- The lock knows who is inside.
  pub writing_known : c.writing ≡ (if l.writer then 1 else 0)
  pub reading_known : c.reading ≡ l.readers
  -- Exactly the writers that wait are counted: none is a phantom.
  pub counted : l.waiting_writers ≡ writers l.waiters

resume-IsSafe :
    (l : ReadWriteLock) (c : Inside) (i : ℕ) (o : Option Waiter)
    → get_elem? l.waiters i ≡ o
    → IsSafe l c
    → IsSafe (resume l i o) (let_in c o (ltb (length (resume l i o).waiters) (length l.waiters)))
unfolding resume
resume-IsSafe l c i none e v = v
resume-IsSafe l c i (some w) e v = ground (
  arith,
  total-remove_at write_weight l.waiters i w e,
  total-set write_weight l.waiters i w (asleep w.writes) e,
  length-remove_at l.waiters i w e,
  length-set l.waiters i (asleep w.writes),
)

cancel-IsSafe :
    (l : ReadWriteLock) (c : Inside) (i : ℕ) (o : Option Waiter)
    → get_elem? l.waiters i ≡ o
    → IsSafe l c
    → IsSafe (cancel l i o) c
unfolding cancel
cancel-IsSafe l c i none e v = v
cancel-IsSafe l c i (some w) e v = ground (arith, total-remove_at write_weight l.waiters i w e)

-- Every event keeps the lock safe.
pub step-IsSafe :
    (l : ReadWriteLock) (c : Inside) (e : Event) → IsSafe l c → IsSafe (step l e) (follow l c e)
unfolding step
step-IsSafe l c reads v = ground (
  arith,
  total-append write_weight l.waiters (asleep false ∷ []),
  length-append l.waiters (asleep false ∷ []),
)
step-IsSafe l c writes v = ground (
  arith,
  total-append write_weight l.waiters (asleep true ∷ []),
  length-append l.waiters (asleep true ∷ []),
)
step-IsSafe l c (resumes i) v = resume-IsSafe l c i _ refl v
step-IsSafe l c (cancels i) v = cancel-IsSafe l c i _ refl v
step-IsSafe l c read_done v =
    ground (arith, total-map write_weight wake (λ (w : Waiter). refl) l.waiters)
step-IsSafe l c write_done v =
    ground (arith, total-map write_weight wake (λ (w : Waiter). refl) l.waiters)

run-IsSafe :
    (l : ReadWriteLock) (c : Inside) (es : List Event)
    → IsSafe l c
    → IsSafe (run l es) (inside l c es)
unfolding run
run-IsSafe l c [] v = v
run-IsSafe l c (e ∷ es) v = run-IsSafe (step l e) (follow l c e) es (step-IsSafe l c e v)

init-IsSafe : IsSafe init nobody
unfolding init
init-IsSafe = record {
  exclusive = inl refl;
  writing_known = refl;
  reading_known = refl;
  counted = refl;
}

-- Under every interleaving, with cancellations: at most one writer is inside, and no reader is then; the
-- lock's `_writer` and `_readers` tell who is inside, and `_waiting_writers` counts exactly the writers
-- that wait. A call counts as inside from when it has not waited, or waits no longer, without a
-- cancellation, up to its release.
pub run-init-IsSafe : (es : List Event) → IsSafe (run init es) (inside init nobody es)
run-init-IsSafe es = run-IsSafe init nobody es init-IsSafe

resume-readers :
    (l : ReadWriteLock) (i : ℕ) (o : Option Waiter)
    → 1 ≤ l.waiting_writers
    → (resume l i o).readers ≤ l.readers
unfolding resume
resume-readers l i none h = omega arith
resume-readers l i (some w) h = ground arith

cancel-readers :
    (l : ReadWriteLock) (i : ℕ) (o : Option Waiter) → (cancel l i o).readers ≤ l.readers
unfolding cancel
cancel-readers l i none = omega arith
cancel-readers l i (some w) = ground arith

-- While a writer waits, no reader gets in, whatever happens next.
pub waiting_writer_blocks_readers :
    (l : ReadWriteLock) (e : Event) → 1 ≤ l.waiting_writers → (step l e).readers ≤ l.readers
unfolding step
waiting_writer_blocks_readers l reads h = ground arith
waiting_writer_blocks_readers l writes h = ground arith
waiting_writer_blocks_readers l (resumes i) h = resume-readers l i (get_elem? l.waiters i) h
waiting_writer_blocks_readers l (cancels i) h = cancel-readers l i (get_elem? l.waiters i)
waiting_writer_blocks_readers l read_done h = ground arith
waiting_writer_blocks_readers l write_done h = ground arith
