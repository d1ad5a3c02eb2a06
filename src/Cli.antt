-- ===== src/Cli.antt =====
-- aiolab/cli.py: which demonstrations run, and the exit code. Here what a demonstration does is an
-- argument; Cli/Demos and Cli/Pool have what each prints. The task registry around them stays empty.
pub mod Exit
pub mod Demos
pub mod Pool
pub mod Shown
pub mod Handled
mod Tests
use asyncio_tests.Base.{ℕ, Bool, true, false, Option, none, some, List, [], ◌∷◌, if◌then◌else◌}
use asyncio_tests.Errors.{
  Exn, Result, ok, raised, Async, pure, ◌>>=◌, ◌>>◌, is_exception, keyboard_interrupt,
}

pub data Demo : Type 0 where
  basics races tasks queue streams retry ratelimit : Demo

-- `list(DEMOS)`
abbrev pub demos : List Demo
demos = basics ∷ races ∷ tasks ∷ queue ∷ streams ∷ retry ∷ ratelimit ∷ []

-- The argument that the parser lets pass: the name of a demonstration, or `all` (`none`).
abbrev pub names : Option Demo → List Demo
names none = demos
names (some demo) = demo ∷ []

-- What the module itself prints: an empty line to stdout, or one of two notes to stderr.
pub data Message : Type 0 where
  blank interrupted : Message
  demo_failed : Exn → Message

abbrev pub is_interrupt : Exn → Bool
is_interrupt keyboard_interrupt = true
is_interrupt _ = false

module _ {W : Type 0} (demo : Demo → Async W (Unit {0})) (print : Message → W → W) where
  -- `if i: print()`
  abbrev pub separate : Bool → W → W
  separate first w = if first then w else print blank w

  -- The loop of `_run`; the first demonstration has no empty line before it.
  unfoldable pub run_names : Bool → List Demo → Async W (Unit {0})
  run_names first [] w = (ok tt, w)
  run_names first (d ∷ ds) w = (demo d >>= λ _. run_names false ds) (separate first w)

  -- The `except` clauses of `main`.
  abbrev pub exit_code : Result (Unit {0}) × W → Result ℕ × W
  exit_code (ok _, w) = (ok 0, w)
  exit_code (raised e, w) =
      if is_interrupt e
      then (ok 130, print interrupted w)
      else if is_exception e
      then (ok 1, print (demo_failed e) w)
      else (raised e, w)

  unfoldable pub main : Option Demo → W → Result ℕ × W
  unfolding run_names is_exception
  main choice w = exit_code (run_names true (names choice) w)
