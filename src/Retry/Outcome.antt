-- ===== src/Retry/Outcome.antt =====
-- How `retry` of aiolab/retry.py ends, against a scripted service.
use asyncio_tests.Base.{
  ℕ, suc, ◌+◌, ◌-◌, ◌<◌, ◌≡◌, sym, Bool, none, some, List, [], ◌∷◌, ◌++◌, length, arith, ◌∙◌,
}
use asyncio_tests.Errors.{failing, Exn, Result, raised, retry_error}
use asyncio_tests.Float.{Float}
use asyncio_tests.Retry.Policy.{RetryPolicy}
use asyncio_tests.Retry.Loop.{retry_from, retry}
use asyncio_tests.Retry.Script.{
  scripted, slept_before, sleeps, reported, Retryable, Final, last_of, plus, after, plus-length,
  after-length, fresh, failed_attempts, Final-attempt, Waits,
}

module _ (F : Float) {A : Type 0} where
  open F use {Carrier}

  Final-run :
      (p : RetryPolicy Carrier) (retry_on : Exn → Bool) (r : Carrier) (es : List Exn) (a : Result A)
      (rest : List (Result A)) (left k m : ℕ)
      → Retryable retry_on es
      → Final retry_on a
      → k ≡ plus es (suc left)
      → m ≡ after es 1
      → Waits F p (1 + length es)
      → retry_from F p (scripted F retry_on r) k 1 none (fresh (failing es (a ∷ rest))) ≡ (
        a,
        record {
          outcomes = rest;
          slept = sleeps F p r 1 es ++ slept_before F p r m;
          reports = reported F p r 1 es;
        },
      )
  Final-run p retry_on r es a rest left k m h f ek em waits =
      rw (ek, em)
        (failed_attempts F p retry_on r (suc left) 1 (1 + length es) none es (a ∷ rest) [] [] h
            waits (omega arith)
          ∙ Final-attempt F p retry_on r left _ _ a rest _ _ f
              (waits (after es 1) (omega (arith, after-length es 1))))

  exhausted_run :
      (p : RetryPolicy Carrier) (retry_on : Exn → Bool) (r : Carrier) (es : List Exn) (e : Exn)
      (rest : List (Result A)) (k : ℕ)
      → Retryable retry_on es
      → k ≡ plus es 0
      → last_of none es ≡ some e
      → Waits F p (length es)
      → retry_from F p (scripted F retry_on r) k 1 none (fresh (failing es rest)) ≡ (
        raised (retry_error p.attempts e),
        record { outcomes = rest; slept = sleeps F p r 1 es; reports = reported F p r 1 es },
      )
  unfolding retry_from
  exhausted_run p retry_on r es e rest k h ek last waits = rw ek (
      failed_attempts F p retry_on r 0 1 (length es) none es rest [] [] h waits (omega arith)
      ∙ rw last)

  -- If the service fails fewer times than the policy has attempts, each time with an error that the
  -- predicate lets pass, and then returns, is cancelled, or raises an error that the predicate
  -- refuses, `retry` ends with just that outcome: it makes no further call, has slept the delay
  -- before each attempt where that is positive, and has reported each failure once, by its number. The
  -- delays before these attempts must not overflow, and each random draw is the same.
  pub retry-Final :
      (p : RetryPolicy Carrier) (retry_on : Exn → Bool) (r : Carrier) (es : List Exn) (a : Result A)
      (rest : List (Result A))
      → Retryable retry_on es
      → Final retry_on a
      → length es < p.attempts
      → Waits F p (1 + length es)
      → retry F p (scripted F retry_on r) (fresh (failing es (a ∷ rest))) ≡ (
        a,
        record {
          outcomes = rest;
          slept = sleeps F p r 1 es ++ slept_before F p r (1 + length es);
          reports = reported F p r 1 es;
        },
      )
  unfolding retry
  retry-Final p retry_on r es a rest h f few waits =
      Final-run p retry_on r es a rest (p.attempts - suc (length es)) _ _ h f
        (omega (arith, plus-length es (suc (p.attempts - suc (length es)))))
        (sym (after-length es 1)) waits

  -- If every attempt fails with an error that the predicate lets pass, `retry` calls the service
  -- `attempts` times and no more, and raises `RetryError` with that number and the last error. No
  -- delay may overflow, and each random draw is the same.
  pub retry-exhausted :
      (p : RetryPolicy Carrier) (retry_on : Exn → Bool) (r : Carrier) (es : List Exn) (e : Exn)
      (rest : List (Result A))
      → Retryable retry_on es
      → length es ≡ p.attempts
      → last_of none es ≡ some e
      → Waits F p p.attempts
      → retry F p (scripted F retry_on r) (fresh (failing es rest)) ≡ (
        raised (retry_error p.attempts e),
        record { outcomes = rest; slept = sleeps F p r 1 es; reports = reported F p r 1 es },
      )
  unfolding retry
  retry-exhausted p retry_on r es e rest h all last waits =
      exhausted_run p retry_on r es e rest _ h (omega (arith, plus-length es 0)) last
        (λ n few. waits n (omega (arith, few)))
