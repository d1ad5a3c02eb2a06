-- ===== src/Retry/Machine.antt =====
-- What `CircuitBreaker` of aiolab/retry.py promises, as a machine that counts failures or has tripped, and
-- the breaker under every interleaving of calls.
use asyncio_tests.Base.{
  ℕ, suc, Bool, true, not, Option, none, some, List, [], ◌∷◌, leb, if◌then◌else◌,
}
use asyncio_tests.Errors.{Result, ok, raised, is_cancelled, is_exception}
use asyncio_tests.Float.{Float}
use asyncio_tests.Retry.Breaker.{CircuitBreaker, is_opened, state, finish}

-- Fewer failures one after the other than the threshold, or the time of the last of as many.
pub data Mode (R : Type 0) : Type 0 where
  counting : ℕ → Mode R
  tripped : R → Mode R

-- A call begins, or one that has been let through ends.
pub data Event (R A : Type 0) : Type 0 where
  begins : (now : R) → Event R A
  ends : Result A → (now : R) → Event R A

module _ {R : Type 0} where
  abbrev pub fail : ℕ → R → Mode R → Mode R
  fail threshold now (tripped t) = tripped now
  fail threshold now (counting n) = if leb threshold (suc n) then tripped now else counting (suc n)

  abbrev pub after_event : {A : Type 0} → ℕ → Mode R → Event R A → Mode R
  unfolding is_cancelled is_exception
  after_event threshold m (begins now) = m
  after_event threshold m (ends (ok v) now) = counting 0
  after_event threshold m (ends (raised e) now) =
      if is_cancelled e then m else if is_exception e then fail threshold now m else m

  -- What the breaker's fields stand for.
  abbrev pub mode_at : ℕ → Option R → Mode R
  mode_at failures none = counting failures
  mode_at failures (some t) = tripped t

  abbrev pub mode_of : CircuitBreaker R → Mode R
  mode_of b = mode_at b.failures b.opened_at

module _ (F : Float) where
  open F use {Carrier, sub, le}

  abbrev pub admits : Carrier → Carrier → Mode Carrier → Bool
  admits reset_after now (counting n) = true
  admits reset_after now (tripped t) = le reset_after (sub now t)

  -- The test at the head of `call`.
  abbrev pub lets_through : CircuitBreaker Carrier → Carrier → Bool
  unfolding state
  lets_through b now = not (is_opened (state F b now))

  module _ {A : Type 0} where
    -- Which calls the machine lets through, one after the other, and its mode at the end.
    abbrev pub admitted :
        ℕ → Carrier → List (Event Carrier A) → Mode Carrier → List Bool × Mode Carrier
    admitted threshold reset_after [] m = ([], m)
    admitted threshold reset_after (begins now ∷ es) m =
        let (through, last) = admitted threshold reset_after es m in
        (admits reset_after now m ∷ through, last)
    admitted threshold reset_after (ends r now ∷ es) m =
        admitted threshold reset_after es (after_event threshold m (ends r now))

    abbrev pub ended : CircuitBreaker Carrier → Result A → Carrier → CircuitBreaker Carrier
    unfolding finish
    ended b r now = (finish F (λ w. w) r (b, now)).1.0

    -- The same of the breaker: a call that begins changes nothing.
    unfoldable pub let_through :
        List (Event Carrier A) → CircuitBreaker Carrier → List Bool × CircuitBreaker Carrier
    unfolding ended lets_through
    let_through [] b = ([], b)
    let_through (begins now ∷ es) b =
        let (through, last) = let_through es b in (lets_through b now ∷ through, last)
    let_through (ends r now ∷ es) b = let_through es (ended b r now)
