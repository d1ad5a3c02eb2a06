-- ===== src/Pipeline/Writing.antt =====
-- `main` of examples/pipeline_demo.py from the batches on: the pool of writers, the watchdog and the report.
-- What the event loop runs between the steps of `main` are lists of the pool's events.
use asyncio_tests.Base.{
  ℕ, Bool, leb, ◌==◌, Option, none, some, List, [], ◌∷◌, ◌++◌, length, total, get_elem?,
  if◌then◌else◌,
}
use asyncio_tests.Errors.{Exn, Result, ok, raised, assertion_error}
use asyncio_tests.Queues.Pool.{PoolStats, WorkerPool, Worker, handling, init, is_drained}
use asyncio_tests.Queues.Events.{Event, starts, submits, handles, closes, forgets, step}
use asyncio_tests.Queues.Closing.{aexit}
use asyncio_tests.Tasks.Scope.{is_empty}
use asyncio_tests.Pipeline.{FlakyServer}

-- The pool whose handler is `write`, with `written`.
pub record Writer (B : Type 0) : Type 0 where
  pub written : List B
  pub pool : WorkerPool B (Unit {0})

-- What the event loop runs after each `submit`, up to the next; while `main` is in `join`; and while it
-- leaves the pool, before the workers are cancelled and after that.
pub record Turns (B : Type 0) : Type 0 where
  pub after_submit : List (List (Event B (Unit {0})))
  pub joining : List (Event B (Unit {0}))
  pub draining : List (Event B (Unit {0}))
  pub unwinding : List (Event B (Unit {0}))

module _ {B : Type 0} where
  -- `write` notes its batch as it ends; one that is cancelled in its sleep does not.
  abbrev pub write : Option (Worker B) → Result (Unit {0}) → List B → List B
  write (some (handling batch)) (ok _) written = written ++ batch ∷ []
  write o r written = written

  abbrev pub wrote : Writer B → Event B (Unit {0}) → List B
  wrote w (handles i r report) = write (get_elem? w.pool.workers i) r w.written
  wrote w _ = w.written

  unfoldable pub advance : Writer B → Event B (Unit {0}) → Writer B
  unfolding step
  advance w e = record { written = wrote w e; pool = step w.pool e }

  unfoldable pub advance_all : Writer B → List (Event B (Unit {0})) → Writer B
  unfolding advance
  advance_all w [] = w
  advance_all w (e ∷ es) = advance_all (advance w e) es

  -- The `async for` loop; `none` while a `submit` waits for room.
  unfoldable pub submit_all :
      List (List (Event B (Unit {0}))) → List B → Writer B → Option (Writer B)
  unfolding advance_all
  submit_all turns [] w = some w
  submit_all [] (b ∷ bs) w = none
  submit_all (turn ∷ turns) (b ∷ bs) w =
      let w' = advance_all w (submits b ∷ turn) in
      let rest = submit_all turns bs w' in if is_empty w'.pool.putters then rest else none

  abbrev pub if_left :
      {R : Type 0} → Option (PoolStats × WorkerPool B R) → Writer B → Option (Writer B)
  if_left none w = none
  if_left (some (stats, p)) w = some w

  -- An exit without an exception first waits until the pool is drained.
  abbrev pub while_left : Option Exn → Turns B → List (Event B (Unit {0}))
  while_left none t = closes ∷ t.draining ++ t.unwinding ++ forgets ∷ []
  while_left (some e) t = closes ∷ t.unwinding ++ forgets ∷ []

  -- The end of `async with WorkerPool`, by the exception that its body has raised, if any.
  unfoldable pub leave : Option Exn → Turns B → Writer B → Option (Writer B)
  unfolding aexit advance_all
  leave exc t w =
      if_left (aexit exc t.draining t.unwinding w.pool) (advance_all w (while_left exc t))

  -- The body of `async with WorkerPool`, by how the stream of batches ends, and the exit from it.
  unfoldable pub with_writer : Turns B → Result (Unit {0}) → Option (Writer B) → Option (Writer B)
  unfolding leave
  with_writer t end none = none
  with_writer t (raised e) (some w) = leave (some e) t w
  with_writer t (ok _) (some w) =
      let w' = advance_all w t.joining in if is_drained w'.pool then leave none t w' else none

-- What `main` prints.
pub record Figures (L : Type 0) : Type 0 where
  pub requests : ℕ
  pub failures : ℕ
  pub batches : ℕ
  pub titles : ℕ
  pub stopped : Bool
  pub first : List L

-- How `main` ends, and what it prints if it comes to that.
abbrev pub Printed : Type 0 → Type 0
Printed L = Option (Result ℕ × Option (Figures L))

module _ {L : Type 0} where
  -- `stop.is_set()`, once the watchdog has looked.
  abbrev pub stop_is_set : List (List L) → Bool
  stop_is_set written = leb 3 (length written)

  abbrev pub first_batch : List (List L) → List L
  first_batch [] = []
  first_batch (b ∷ bs) = b

  abbrev pub figures : FlakyServer → List (List L) → Figures L
  figures server written = record {
    requests = server.requests;
    failures = server.failures;
    batches = length written;
    titles = total length written;
    stopped = stop_is_set written;
    first = first_batch written;
  }

  -- The two `assert`s.
  abbrev pub exit_code : FlakyServer → List (List L) → Result ℕ
  exit_code server written =
      if server.failures == 0
      then raised assertion_error
      else if is_empty written
      then raised assertion_error
      else ok 0

  -- The end of `async with TaskRegistry` and the report: a body that has ended well waits for the
  -- watchdog, and one that has raised cancels it.
  abbrev pub report_on : FlakyServer → Result (Unit {0}) → Option (Writer (List L)) → Printed L
  report_on server end none = none
  report_on server (raised e) (some w) = some (raised e, none)
  report_on server (ok _) (some w) =
      if stop_is_set w.written
      then some (exit_code server w.written, some (figures server w.written))
      else none

  abbrev pub with_new_pool :
      Turns (List L)
      → FlakyServer
      → List (List L)
      → Result (Unit {0})
      → Result (WorkerPool (List L) (Unit {0}))
      → Printed L
  unfolding advance submit_all with_writer
  with_new_pool t server bs end (raised e) = some (raised e, none)
  with_new_pool t server bs end (ok p) = report_on server end (
      with_writer t end
        (submit_all t.after_submit bs (advance (record { written = []; pool = p }) starts)))

  -- `main` by the batches of its stream and how that ends, and the server when all is done.
  unfoldable pub main :
      Turns (List L) → FlakyServer → Option (List (List L) × Result (Unit {0})) → Printed L
  unfolding init with_new_pool
  main t server none = none
  main t server (some (bs, end)) = with_new_pool t server bs end (init 2 4)
