-- ===== src/Cli/Exit.antt =====
-- How `main` of aiolab/cli.py ends.
use asyncio_tests.Base.{ℕ, ◌≡◌, refl, ◌∙◌, Bool, true, false, Option, List, [], ◌∷◌, ◌++◌}
use asyncio_tests.Errors.{
  Exn, Result, ok, raised, Async, >>=-eq, is_exception, keyboard_interrupt, system_exit, cancelled,
}
use asyncio_tests.Cli.{
  Demo, names, Message, interrupted, demo_failed, separate, run_names, exit_code, main,
}

module _ {W : Type 0} (demo : Demo → Async W (Unit {0})) (print : Message → W → W) where
  -- Demonstrations that return one after the other, and the states before and after them.
  pub data Runs : Bool → List Demo → W → W → Type 0 where
    none_left : {first : Bool} {w : W} → Runs first [] w w
    then_on :
        {first : Bool} {d : Demo} {ds : List Demo} {w w1 w2 : W}
        → demo d (separate demo print first w) ≡ (ok tt, w1)
        → Runs false ds w1 w2
        → Runs first (d ∷ ds) w w2

  -- Whether the next demonstration is the first.
  abbrev pub still : Bool → List Demo → Bool
  still first [] = first
  still first (d ∷ ds) = false

  -- What comes next has failed, or there is nothing left.
  pub data Stops : Bool → List Demo → W → Result (Unit {0}) × W → Type 0 where
    at_end : {first : Bool} {w : W} → Stops first [] w (ok tt, w)
    at_failure :
        {first : Bool} {d : Demo} {ds : List Demo} {e : Exn} {w w1 : W}
        → demo d (separate demo print first w) ≡ (raised e, w1)
        → Stops first (d ∷ ds) w (raised e, w1)

  -- The exit code, and the note that goes with it; what is neither a keyboard interrupt nor an
  -- `Exception` is passed on.
  pub data Exits : Result (Unit {0}) × W → Result ℕ × W → Type 0 where
    all_well : {w : W} → Exits (ok tt, w) (ok 0, w)
    interrupts : {w : W} → Exits (raised keyboard_interrupt, w) (ok 130, print interrupted w)
    fails :
        {e : Exn} {w : W}
        → is_exception e ≡ true
        → Exits (raised e, w) (ok 1, print (demo_failed e) w)
    cancels : {w : W} → Exits (raised cancelled, w) (raised cancelled, w)
    leaves : {w : W} → Exits (raised system_exit, w) (raised system_exit, w)

  exit_code-Exits : (end : Result (Unit {0}) × W) → Exits end (exit_code demo print end)
  unfolding is_exception
  exit_code-Exits (ok _, w) = all_well
  exit_code-Exits (raised cancelled, w) = cancels
  exit_code-Exits (raised keyboard_interrupt, w) = interrupts
  exit_code-Exits (raised system_exit, w) = leaves
  exit_code-Exits (raised _, w) = fails refl

  run_names-Runs :
      {first : Bool} {ds : List Demo} {w w' : W} (rest : List Demo)
      → Runs first ds w w'
      → run_names demo print first (ds ++ rest) w ≡ run_names demo print (still first ds) rest w'
  unfolding run_names
  run_names-Runs rest none_left = refl
  run_names-Runs rest (then_on {ds = []} e none_left) =
      >>=-eq (λ _. run_names demo print false rest) (demo _) e
  run_names-Runs rest (then_on {ds = d ∷ ds} e r) =
      >>=-eq (λ _. run_names demo print false (d ∷ ds ++ rest)) (demo _) e ∙ run_names-Runs rest r

  run_names-Stops :
      {first : Bool} {ds : List Demo} {w : W} {end : Result (Unit {0}) × W}
      → Stops first ds w end
      → run_names demo print first ds w ≡ end
  unfolding run_names
  run_names-Stops at_end = refl
  run_names-Stops (at_failure {ds = ds} e) = >>=-eq (λ _. run_names demo print false ds) (demo _) e

  -- The demonstrations that are asked for run in order up to the first that raises, none of them
  -- after it; the exit code is 0 if there is none, 130 for a keyboard interrupt, which is noted, and
  -- 1 for an `Exception`, which is noted too; a cancellation or a `SystemExit` is passed on.
  pub main_lem :
      (choice : Option Demo) (ran rest : List Demo) (w w' : W) (end : Result (Unit {0}) × W)
      → names choice ≡ ran ++ rest
      → Runs true ran w w'
      → Stops (still true ran) rest w' end
      → Exits end (main demo print choice w)
  unfolding main
  main_lem choice ran rest w w' end e runs stops =
      rw (e, run_names-Runs rest runs, run_names-Stops stops) (exit_code-Exits end)
