-- ===== src/Retry/Calls.antt =====
-- `CircuitBreaker.call` of aiolab/retry.py: what a call does to the breaker, and which calls reach
-- the service.
use asyncio_tests.Base.{suc, ◌≤◌, ◌≡◌, refl, true, false, some, arith, Bool-cases, inl, inr}
use asyncio_tests.Errors.{
  try_except, Exn, Result, ok, raised, Async, is_cancelled, is_exception, retry_error,
  runtime_error,
}
use asyncio_tests.Float.{Float}
use asyncio_tests.Retry.Breaker.{CircuitBreaker, half_open, is_opened, state, finish, call}
use asyncio_tests.Retry.Tripping.{IsConsistent, success, failure, note-IsConsistent}

half_open-tripped :
    (F : Float) (b : CircuitBreaker F.Carrier) (now : F.Carrier)
    → IsConsistent b
    → state F b now ≡ half_open
    → b.threshold ≤ b.failures
unfolding state
half_open-tripped F b now c half = ground (arith, c.tripped)

module _ (F : Float) {W : Type 0} (clock : W → F.Carrier) {A : Type 0} where
  open F use {Carrier, sub, le}

  abbrev pub Keeps : Async (CircuitBreaker Carrier × W) A → Type 0
  Keeps m = (b : CircuitBreaker Carrier) (w : W) → IsConsistent b → IsConsistent (m (b, w)).1.0

  finish-IsConsistent :
      (r : Result A) (b : CircuitBreaker Carrier) (w : W)
      → IsConsistent b
      → IsConsistent (finish F clock r (b, w)).1.0
  unfolding finish
  finish-IsConsistent (ok v) b w c = note-IsConsistent b success c
  finish-IsConsistent (raised e) b w c = elim (Bool-cases (is_cancelled e)) [
    | inl stop ↦ rw stop c
    | inr go ↦ rw go (elim (Bool-cases (is_exception e)) [
      | inl fails ↦ rw fails (note-IsConsistent b (failure (clock w)) c)
      | inr base ↦ rw base c
    ])
  ]

  -- A call keeps the breaker consistent, that is, tripped exactly when it has counted `threshold`
  -- failures, if all that runs while it waits for the service does.
  pub call-IsConsistent :
      (b : CircuitBreaker Carrier) (w : W) (factory : Async (CircuitBreaker Carrier × W) A)
      → Keeps factory
      → IsConsistent b
      → IsConsistent (call F clock factory (b, w)).1.0
  unfolding call
  call-IsConsistent b w factory h c = elim (Bool-cases (is_opened (state F b (clock w)))) [
    | inl shut ↦ rw shut c
    | inr through ↦ rw through (finish-IsConsistent _ _ _ (h b w c))
  ]

  call-through :
      (b : CircuitBreaker Carrier) (w : W) (factory : Async (CircuitBreaker Carrier × W) A)
      → state F b (clock w) ≡ half_open
      → call F clock factory (b, w) ≡ try_except factory (finish F clock) (b, w)
  unfolding call
  call-through b w factory half = rw half

  call-refused :
      (b : CircuitBreaker Carrier) (v : W) (t : Carrier)
      (next : Async (CircuitBreaker Carrier × W) A)
      → b.opened_at ≡ some t
      → le b.reset_after (sub (clock v) t) ≡ false
      → call F clock next (b, v) ≡ (raised (retry_error b.failures runtime_error), (b, v))
  unfolding call
  call-refused b v t next e early = ground arith

  finish-failure :
      (b : CircuitBreaker Carrier) (w : W) (e : Exn)
      → is_cancelled e ≡ false
      → is_exception e ≡ true
      → b.threshold ≤ b.failures
      → finish F clock {A = A} (raised e) (b, w)
        ≡ (raised e, (record b { failures = suc b.failures; opened_at = some (clock w) }, w))
  unfolding finish
  finish-failure b w e live fails h = rw (live, fails) (ground arith)

  -- A half-open breaker lets a call through with the breaker unchanged. If the service fails with an
  -- `Exception` other than a cancellation, and nobody else touched the breaker meanwhile, the
  -- breaker is open from the end of the call: until `reset_after` has passed, every call raises
  -- `RetryError` without running its factory.
  failed_probe_reopens :
      (b : CircuitBreaker Carrier) (w w' v : W) (e : Exn)
      (probe next : Async (CircuitBreaker Carrier × W) A)
      → IsConsistent b
      → state F b (clock w) ≡ half_open
      → probe (b, w) ≡ (raised e, (b, w'))
      → is_cancelled e ≡ false
      → is_exception e ≡ true
      → le b.reset_after (sub (clock v) (clock w')) ≡ false
      → let (r, (b', u)) = call F clock probe (b, w) in
        (r ≡ raised e)
        × (b'.failures ≡ suc b.failures)
        × (call F clock next (b', v)
            ≡ (raised (retry_error (suc b.failures) runtime_error), (b', v)))
  failed_probe_reopens b w w' v e probe next c half ran live fails early =
      rw
        (
          call-through b w probe half,
          ran,
          finish-failure b w' e live fails (half_open-tripped F b (clock w) c half),
        )
        (refl, refl, call-refused _ v (clock w') next refl early)

  -- In the half-open state a call that starts while another is in flight reaches the service too:
  -- the first call does not mark the breaker as probing.
  pub half_open_admits_more :
      (b : CircuitBreaker Carrier) (w : W) (second : Async (CircuitBreaker Carrier × W) A)
      → state F b (clock w) ≡ half_open
      → call F clock (call F clock second) (b, w)
        ≡ try_except (try_except second (finish F clock)) (finish F clock) (b, w)
  unfolding call
  half_open_admits_more b w second half = rw half
