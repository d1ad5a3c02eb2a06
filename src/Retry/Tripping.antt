-- ===== src/Retry/Tripping.antt =====
-- When the circuit breaker of aiolab/retry.py is closed, open or half open.
use asyncio_tests.Base.{
  ℕ, suc, ◌+◌, ◌≤◌, ◌<◌, ◌≡◌, refl, Option, none, some, List, [], ◌∷◌, ◌++◌, length, ◌∙◌, leb,
  if◌then◌else◌, arith, ◌⊎◌, inl, inr,
}
use native.Mathlib.Decide.{dec_le}
use mathlib.Core.List.{foldl, foldl-append}
use asyncio_tests.Retry.Breaker.{CircuitBreaker, record_success, record_failure}

-- The breaker has tripped exactly when it has counted `threshold` failures.
pub record IsConsistent {R : Type 0} (b : CircuitBreaker R) : Type 0 where
  pub positive : 1 ≤ b.threshold
  pub tripped :
      (b.failures < b.threshold) × (b.opened_at ≡ none)
      ⊎ (b.threshold ≤ b.failures) × ((t : R) × (b.opened_at ≡ some t))

-- What the calls that reached the service report to the breaker, oldest first.
pub data Report (R : Type 0) : Type 0 where
  success : Report R
  failure : (now : R) → Report R

abbrev pub note : {R : Type 0} → CircuitBreaker R → Report R → CircuitBreaker R
note b success = record_success b
note b (failure now) = record_failure b now

abbrev pub failures_at : {R : Type 0} → List R → List (Report R)
failures_at [] = []
failures_at (t ∷ ts) = failure t ∷ failures_at ts

abbrev pub last_or : {R : Type 0} → Option R → List R → Option R
last_or o [] = o
last_or o (t ∷ ts) = last_or (some t) ts

module _ {R : Type 0} where
  failure-IsConsistent :
      (b : CircuitBreaker R) (now : R)
      → IsConsistent b
      → Dec (b.threshold ≤ suc b.failures)
      → IsConsistent (record_failure b now)
  unfolding record_failure
  failure-IsConsistent b now v (yes h) = record {
    positive = ground arith;
    tripped = inr (ground arith, (now, ground arith));
  }
  failure-IsConsistent b now v (no h) = record {
    positive = ground arith;
    tripped = inl (ground arith, ground arith);
  }

  pub note-IsConsistent :
      (b : CircuitBreaker R) (e : Report R) → IsConsistent b → IsConsistent (note b e)
  unfolding record_success record_failure
  note-IsConsistent b success v = record {
    positive = v.positive;
    tripped = inl (omega (arith, v.positive), refl);
  }
  note-IsConsistent b (failure now) v =
      failure-IsConsistent b now v (dec_le b.threshold (suc b.failures))

  abbrev breaker : ℕ → R → ℕ → Option R → CircuitBreaker R
  breaker k r n o = record { threshold = k; reset_after = r; failures = n; opened_at = o }

  abbrev tripped_at : ℕ → ℕ → Option R → List R → Option R
  tripped_at k n o [] = o
  tripped_at k n o (t ∷ ts) = tripped_at k (suc n) (if leb k (suc n) then some t else o) ts

  foldl-failures :
      (k : ℕ) (r : R) (n : ℕ) (o : Option R) (ts : List R)
      → foldl note (breaker k r n o) (failures_at ts)
        ≡ breaker k r (n + length ts) (tripped_at k n o ts)
  unfolding record_failure
  foldl-failures k r n o [] = ground arith
  foldl-failures k r n o (t ∷ ts) =
      ground (arith, foldl-failures k r (suc n) (some t) ts, foldl-failures k r (suc n) o ts)

  tripped_at_last :
      (k n : ℕ) (o : Option R) (ts : List R) → k ≤ n → tripped_at k n o ts ≡ last_or o ts
  tripped_at_last k n o [] h = refl
  tripped_at_last k n o (t ∷ ts) h =
      ground (arith, tripped_at_last k (suc n) (some t) ts (omega arith))

  tripped_at-none :
      (k n : ℕ) (ts : List R)
      → n < k
      → tripped_at k n none ts ≡ (if leb k (n + length ts) then last_or none ts else none)
  tripped_at-none k n [] h = ground arith
  tripped_at-none k n (t ∷ []) h = ground arith
  tripped_at-none k n (t ∷ u ∷ ts) h =
      ground
        (arith, tripped_at_last k (suc n) (some t) (u ∷ ts), tripped_at-none k (suc n) (u ∷ ts))

  foldl-threshold :
      (b : CircuitBreaker R) (es : List (Report R)) → (foldl note b es).threshold ≡ b.threshold
  unfolding record_success record_failure
  foldl-threshold b [] = refl
  foldl-threshold b (success ∷ es) = foldl-threshold (note b success) es
  foldl-threshold b (failure t ∷ es) = foldl-threshold (note b (failure t)) es ∙ ground arith

  after_success :
      (b : CircuitBreaker R) (k : ℕ) (ts : List R)
      → b.threshold ≡ k
      → 1 ≤ k
      → let b' = foldl note b (success ∷ failures_at ts) in
        (b'.failures ≡ length ts)
        × (b'.opened_at ≡ (if leb k (length ts) then last_or none ts else none))
  unfolding record_success
  after_success b k ts e h =
      let q = foldl-failures b.threshold b.reset_after 0 none ts in
      ground (arith, q, tripped_at-none b.threshold 0 ts)

  -- Failures count consecutively: after any history, then a success, then failures at the times
  -- `ts`, the breaker has counted just the failures since that success; it is open from the last
  -- of them if they reach the threshold, and closed otherwise.
  pub consecutive_failures :
      (b : CircuitBreaker R) (before : List (Report R)) (ts : List R)
      → 1 ≤ b.threshold
      → let b' = foldl note b (before ++ success ∷ failures_at ts) in
        (b'.failures ≡ length ts)
        × (b'.opened_at ≡ (if leb b.threshold (length ts) then last_or none ts else none))
  consecutive_failures b before ts h =
      rw (foldl-append note b before (success ∷ failures_at ts))
        (after_success (foldl note b before) b.threshold ts (foldl-threshold b before) h)
