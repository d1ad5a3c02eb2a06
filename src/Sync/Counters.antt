-- ===== src/Sync/Counters.antt =====
-- `RaceyCounter` and `SafeCounter` of aiolab/sync.py: many coroutines in `increment` at once.
use asyncio_tests.Base.{
  ℕ, suc, Bool, true, false, Option, none, some, List, [], ◌∷◌, get_elem?, set, replicate,
  if◌then◌else◌,
}
use mathlib.Core.List.{foldl}

-- Where a call of `increment` stands: not begun (or waiting for the lock), at `sleep(0)` with the
-- value that it has read, or returned.
pub data Call : Type 0 where
  begun : Call
  asleep : (current : ℕ) → Call
  returned : Call

-- One stretch of `RaceyCounter.increment`, on the counter's value.
unfoldable pub racey_stretch : ℕ → Call → ℕ × Call
racey_stretch value begun = (value, asleep value)
racey_stretch value (asleep current) = (suc current, returned)
racey_stretch value returned = (value, returned)

-- The event loop runs the next stretch of each call in turn, as it does for calls that `gather` has
-- started and that only `sleep(0)`.
unfoldable pub turn : ℕ → List Call → ℕ × List Call
unfolding racey_stretch
turn value [] = (value, [])
turn value (c ∷ cs) =
    let (value', c') = racey_stretch value c in
    let (value'', cs') = turn value' cs in (value'', c' ∷ cs')

-- `SafeCounter` with its lock.
pub record SafeCounter : Type 0 where
  pub value : ℕ
  pub locked : Bool
  pub calls : List Call

-- One stretch of call `i` of `SafeCounter.increment`; without the lock it waits.
unfoldable pub safe_stretch : SafeCounter → ℕ → Option Call → SafeCounter
safe_stretch s i none = s
safe_stretch s i (some returned) = s
safe_stretch s i (some begun) =
    if s.locked then s else record s { locked = true; calls = set s.calls i (asleep s.value) }
safe_stretch s i (some (asleep current)) = record s {
  value = suc current;
  locked = false;
  calls = set s.calls i returned;
}

-- The calls run in any order.
unfoldable pub schedule : SafeCounter → List ℕ → SafeCounter
unfolding safe_stretch
schedule = foldl (λ s i. safe_stretch s i (get_elem? s.calls i))

unfoldable pub start : ℕ → SafeCounter
start n = record { value = 0; locked = false; calls = replicate n begun }
