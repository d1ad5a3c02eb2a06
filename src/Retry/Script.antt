-- ===== src/Retry/Script.antt =====
-- `retry` of aiolab/retry.py run against a scripted service: what it answers, which calls, sleeps
-- and reports it makes.
use asyncio_tests.Base.{
  ℕ, suc, ◌+◌, ◌-◌, ◌≤◌, ◌≡◌, Bool, true, false, Option, some, List, [], ◌∷◌, ◌++◌, length, leb,
  if◌then◌else◌, arith, ◌⊎◌, ◌∙◌,
}
use mathlib.Core.List.{append-nil, append_assoc}
use asyncio_tests.Errors.{failing, Exn, Result, ok, raised, is_cancelled, cancelled}
use asyncio_tests.Float.{Float, lt}
use asyncio_tests.Retry.Policy.{RetryPolicy, raw_delay, delay_for}
use asyncio_tests.Retry.Loop.{Hooks, retry_from}

-- What the service will answer, and what the loop has done so far, oldest first.
pub record Script (R A : Type 0) : Type 0 where
  pub outcomes : List (Result A)
  pub slept : List R
  pub reports : List (ℕ × Exn × R)

-- An exhausted script cancels its caller.
abbrev pub answer : {A : Type 0} → List (Result A) → Result A × List (Result A)
answer [] = (raised cancelled, [])
answer (r ∷ rest) = (r, rest)

-- A fresh script: nothing slept or reported yet.
abbrev pub fresh : {R A : Type 0} → List (Result A) → Script R A
fresh answers = record { outcomes = answers; slept = []; reports = [] }

-- Errors that the loop retries.
abbrev pub Retryable : (Exn → Bool) → List Exn → Type 0
Retryable retry_on [] = Unit
Retryable retry_on (e ∷ es) = (is_cancelled e ≡ false) × (retry_on e ≡ true) × Retryable retry_on es

-- Outcomes that end the loop: a value, a cancellation, an error that the predicate refuses.
abbrev pub Final : {A : Type 0} → (Exn → Bool) → Result A → Type 0
Final retry_on (ok v) = Unit
Final retry_on (raised e) = (is_cancelled e ≡ true) ⊎ (retry_on e ≡ false)

abbrev pub last_of : Option Exn → List Exn → Option Exn
last_of o [] = o
last_of o (e ∷ es) = last_of (some e) es

-- `length es + n`, and `n + length es` in steps of `suc`.
abbrev pub plus : List Exn → ℕ → ℕ
plus [] n = n
plus (e ∷ es) n = suc (plus es n)

abbrev pub after : List Exn → ℕ → ℕ
after [] n = n
after (e ∷ es) n = after es (suc n)

pub plus-length : (es : List Exn) (n : ℕ) → plus es n ≡ length es + n
plus-length [] n = omega arith
plus-length (e ∷ es) n = omega (arith, plus-length es n)

pub after-length : (es : List Exn) (n : ℕ) → after es n ≡ n + length es
after-length [] n = omega arith
after-length (e ∷ es) n = omega (arith, after-length es (suc n))

module _ (F : Float) where
  open F use {Carrier, nought, mul}

  -- Up to the given attempt, no delay overflows.
  abbrev pub Waits : RetryPolicy Carrier → ℕ → Type 0
  Waits p bound = (n : ℕ) → n ≤ bound → F.overflows p.factor (n - 2) ≡ false

  -- The wait before an attempt, and what of it is slept.
  abbrev pub wait_before : RetryPolicy Carrier → Carrier → ℕ → Carrier
  wait_before p r n =
      if leb n 1 then nought else if p.jitter then mul (raw_delay F p n) r else raw_delay F p n

  abbrev pub slept_before : RetryPolicy Carrier → Carrier → ℕ → List Carrier
  slept_before p r n = if lt F nought (wait_before p r n) then wait_before p r n ∷ [] else []

  -- The sleeps and the reports of the attempts that fail with `es`, the first of them numbered `n`.
  abbrev pub sleeps : RetryPolicy Carrier → Carrier → ℕ → List Exn → List Carrier
  sleeps p r n [] = []
  sleeps p r n (e ∷ es) = slept_before p r n ++ sleeps p r (suc n) es

  abbrev pub reported : RetryPolicy Carrier → Carrier → ℕ → List Exn → List (ℕ × Exn × Carrier)
  reported p r n [] = []
  reported p r n (e ∷ es) = (n, e, wait_before p r n) ∷ reported p r (suc n) es

module _ (F : Float) {A : Type 0} where
  open F use {Carrier, nought, mul}

  -- The caller's arguments: a service that answers by the script, a predicate, and a constant
  -- random draw; sleeps and reports are written down.
  abbrev pub scripted : (Exn → Bool) → Carrier → Hooks Carrier (Script Carrier A) A
  scripted retry_on r = record {
    factory = λ s. let (a, rest) = answer s.outcomes in (a, record s { outcomes = rest });
    retry_on = retry_on;
    sleep = λ d s. (ok tt, record s { slept = s.slept ++ d ∷ [] });
    rand = λ s. (ok r, s);
    on_retry = λ n e d s. (ok tt, record s { reports = s.reports ++ (n, e, d) ∷ [] });
  }

  delay_for-scripted :
      (p : RetryPolicy Carrier) (r : Carrier) (n : ℕ) (s : Script Carrier A)
      → F.overflows p.factor (n - 2) ≡ false
      → delay_for F p n (λ s. (ok r, s)) s ≡ (ok (wait_before F p r n), s)
  unfolding delay_for
  delay_for-scripted p r n s small = ground (arith, small)

  -- One attempt that fails with an error to retry.
  failed_attempt :
      (p : RetryPolicy Carrier) (retry_on : Exn → Bool) (r : Carrier) (left n : ℕ)
      (last : Option Exn) (e : Exn) (rest : List (Result A)) (sl : List Carrier)
      (rp : List (ℕ × Exn × Carrier))
      → is_cancelled e ≡ false
      → retry_on e ≡ true
      → F.overflows p.factor (n - 2) ≡ false
      → retry_from F p
          (scripted retry_on r)
          (suc left)
          n
          last
          (record { outcomes = raised e ∷ rest; slept = sl; reports = rp })
        ≡ retry_from F p (scripted retry_on r) left (suc n) (some e) (record {
          outcomes = rest;
          slept = sl ++ slept_before F p r n;
          reports = rp ++ (n, e, wait_before F p r n) ∷ [];
        })
  unfolding retry_from
  failed_attempt p retry_on r left n last e rest sl rp c t small = ground (
    arith,
    append-nil sl,
    delay_for-scripted p r n (record { outcomes = raised e ∷ rest; slept = sl; reports = rp })
        small,
  )

  pub failed_attempts :
      (p : RetryPolicy Carrier) (retry_on : Exn → Bool) (r : Carrier) (left n bound : ℕ)
      (last : Option Exn) (es : List Exn) (rest : List (Result A)) (sl : List Carrier)
      (rp : List (ℕ × Exn × Carrier))
      → Retryable retry_on es
      → Waits F p bound
      → length es + n ≤ suc bound
      → retry_from F p
          (scripted retry_on r)
          (plus es left)
          n
          last
          (record { outcomes = failing es rest; slept = sl; reports = rp })
        ≡ retry_from F p (scripted retry_on r) left (after es n) (last_of last es) (record {
          outcomes = rest;
          slept = sl ++ sleeps F p r n es;
          reports = rp ++ reported F p r n es;
        })
  failed_attempts p retry_on r left n bound last [] rest sl rp h waits few =
      rw (append-nil sl, append-nil rp)
  failed_attempts p retry_on r left n bound last (e ∷ es) rest sl rp (c, t, h) waits few =
      failed_attempt p retry_on r (plus es left) n last e (failing es rest) sl rp c t
        (waits n (omega (arith, few)))
      ∙ failed_attempts p retry_on r left (suc n) bound (some e) es rest _ _ h waits
          (omega (arith, few))
      ∙ simp append_assoc

  -- What the last attempt of a run does, if it does not fail with an error to retry.
  pub Final-attempt :
      (p : RetryPolicy Carrier) (retry_on : Exn → Bool) (r : Carrier) (left n : ℕ)
      (last : Option Exn) (a : Result A) (rest : List (Result A)) (sl : List Carrier)
      (rp : List (ℕ × Exn × Carrier))
      → Final retry_on a
      → F.overflows p.factor (n - 2) ≡ false
      → retry_from F p
          (scripted retry_on r)
          (suc left)
          n
          last
          (record { outcomes = a ∷ rest; slept = sl; reports = rp })
        ≡ (a, record { outcomes = rest; slept = sl ++ slept_before F p r n; reports = rp })
  unfolding retry_from
  Final-attempt p retry_on r left n last (ok v) rest sl rp h small = ground (
    arith,
    append-nil sl,
    delay_for-scripted p r n (record { outcomes = ok v ∷ rest; slept = sl; reports = rp }) small,
  )
  Final-attempt p retry_on r left n last (raised e) rest sl rp h small = ground (
    arith,
    append-nil sl,
    delay_for-scripted p r n (record { outcomes = raised e ∷ rest; slept = sl; reports = rp })
        small,
  )
