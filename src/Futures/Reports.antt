-- ===== src/Futures/Reports.antt =====
-- What the fan-outs of aiolab/futures.py report of their children.
use asyncio_tests.Base.{
  ℕ, ◌≡◌, ◌≢◌, ◌⊎◌, inl, inr, refl, Bool, true, false, ◌&&◌, if◌then◌else◌, List, [], ◌∷◌, ◌++◌,
  All,
}
use asyncio_tests.Errors.{
  Exn, Result, ok, raised, errors_of, is_cancelled, concurrency_error, cancelled,
}
use asyncio_tests.Tasks.Group.{Task, failures}
use asyncio_tests.Tasks.RunAll.{IsDone, returned, results-cases}
use asyncio_tests.Futures.Fanout.{Wait, handed, interrupted, aggregate, gather_with_index}

module _ {A : Type 0} where
  -- All children in the order in which they are handed over.
  abbrev pub in_order : List (Wait A) → List (ℕ × Result A)
  in_order [] = []
  in_order (handed batch ∷ waits) = batch ++ in_order waits
  in_order (interrupted ∷ waits) = in_order waits

  -- No child is cancelled, nor the caller.
  abbrev pub none_cancelled : List (ℕ × Result A) → Bool
  none_cancelled [] = true
  none_cancelled ((i, ok v) ∷ batch) = none_cancelled batch
  none_cancelled ((i, raised e) ∷ batch) =
      let rest = none_cancelled batch in if is_cancelled e then false else rest

  abbrev pub undisturbed : List (Wait A) → Bool
  undisturbed [] = true
  undisturbed (handed batch ∷ waits) = none_cancelled batch && undisturbed waits
  undisturbed (interrupted ∷ waits) = false

  -- What the loop returns or raises, with the children that it leaves.
  abbrev pub Told :
      Bool → List (ℕ × Result A) → Result (List (ℕ × Result A)) × List (Task A) → Type 0
  Told true all r = r ≡ (ok all, [])
  Told false all r = (r.0 ≡ raised cancelled) × All IsDone r.1

  aggregate-cases :
      (ts : List (Task A)) (es : List Exn)
      → failures ts ≡ es
      → All IsDone ts
      → ((vs : List A) × (ts ≡ returned vs) × (aggregate ts es ≡ ok vs))
        ⊎ (es ≢ []) × (aggregate ts es ≡ raised (concurrency_error (errors_of es)))
        ⊎ (es ≡ []) × (aggregate ts es ≡ raised cancelled)
  unfolding aggregate
  aggregate-cases ts [] f d = elim (results-cases ts d f) [
    | inl p ↦ inl p
    | inr r ↦ inr (inr (refl, r))
  ]
  aggregate-cases ts (e ∷ es) f d = inr (inl (λ n. cc, refl))

  -- With all its children ended, `gather_with_index` returns their values, in input order, if all
  -- have returned; it raises `ConcurrencyError` with every failure, in input order, if there is one;
  -- and with no failure but a cancelled child it raises `CancelledError`.
  pub gather_with_index-cases :
      (ts : List (Task A))
      → All IsDone ts
      → let r = gather_with_index ts in
        ((vs : List A) × (ts ≡ returned vs) × (r ≡ ok vs))
        ⊎ (failures ts ≢ []) × (r ≡ raised (concurrency_error (errors_of (failures ts))))
        ⊎ (failures ts ≡ []) × (r ≡ raised cancelled)
  unfolding gather_with_index
  gather_with_index-cases ts d = aggregate-cases ts (failures ts) refl d
