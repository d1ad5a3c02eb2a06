-- ===== src/Queues/Batches.antt =====
-- What `batched` of aiolab/queues.py yields, and when it ends.
use asyncio_tests.Base.{
  ℕ, zero, suc, ◌+◌, ◌≤◌, ◌<◌, ◌≡◌, refl, ap, ◌∙◌, sym, subst, ltb, leb, Bool, true, false, Option,
  none, some, List, [], ◌∷◌, ◌++◌, length, length-append, All, All-append, if_intro, arith,
}
use mathlib.Core.List.{append-nil, append_assoc}
use asyncio_tests.Errors.{Result, ok, raised}
use asyncio_tests.Queues.Batching.{
  Read, read, is_timeout, flush, arrived, round, with_more, after, batch_loop, batched,
}

module _ {T : Type 0} where
  abbrev pub concat : List (List T) → List T
  concat [] = []
  concat (b ∷ bs) = b ++ concat bs

  pub concat-append : (bs cs : List (List T)) → concat (bs ++ cs) ≡ concat bs ++ concat cs
  concat-append [] cs = refl
  concat-append (b ∷ bs) cs =
      rw (concat-append bs cs) (sym (append_assoc b (concat bs) (concat cs)))

  -- The items of a source all of whose reads return.
  abbrev pub items : List (Read T) → List T
  items [] = []
  items (read n (ok item) ∷ rs) = item ∷ items rs
  items (read n (raised e) ∷ rs) = []

  abbrev pub Returns : Read T → Type 0
  Returns (read n (ok item)) = Unit
  Returns (read n (raised e)) = ⊥

  -- Rounds that are enough: one for each timeout, each item and the end.
  abbrev pub rounds : List (Read T) → ℕ
  rounds [] = 1
  rounds (read n end ∷ rs) = suc n + rounds rs

  abbrev pub Fits : ℕ → List T → Type 0
  Fits size batch = (1 ≤ length batch) × (length batch ≤ size)

  -- The loop has ended well, and its batches, none empty and none too large, have just these items.
  abbrev pub Batches : ℕ → List T → Option (List (List T) × Result (Unit {0})) → Type 0
  Batches size all outcome =
      (bs : List (List T)) × (outcome ≡ some (bs, ok tt)) × (concat bs ≡ all) × All (Fits size) bs

  with_more-Batches :
      (size : ℕ) (ys : List (List T)) (all : List T)
      (o : Option (List (List T) × Result (Unit {0})))
      → All (Fits size) ys
      → Batches size all o
      → Batches size (concat ys ++ all) (with_more ys o)
  with_more-Batches size ys all o f (bs, e, c, g) =
      (ys ++ bs, rw e refl, rw (concat-append ys bs, c) refl, All-append (Fits size) ys bs f g)

  pub concat-flush : (batch : List T) → concat (flush batch) ≡ batch
  concat-flush [] = refl
  concat-flush (x ∷ xs) = ap (λ ys. x ∷ ys) (append-nil xs)

  flush-Fits : (size : ℕ) (batch : List T) → length batch ≤ size → All (Fits size) (flush batch)
  flush-Fits size [] h = tt
  flush-Fits size (x ∷ xs) h = ((omega arith, h), tt)

  pub rounds_positive : (rs : List (Read T)) → 1 ≤ rounds rs
  rounds_positive [] = omega arith
  rounds_positive (read n end ∷ rs) = omega arith

  flushed-Batches :
      (size : ℕ) (batch all : List T) (o : Option (List (List T) × Result (Unit {0})))
      → length batch ≤ size
      → Batches size all o
      → Batches size (batch ++ all) (with_more (flush batch) o)
  flushed-Batches size batch all o h v =
      subst (λ b. Batches size (b ++ all) (with_more (flush batch) o)) (concat-flush batch)
        (with_more-Batches size (flush batch) all o (flush-Fits size batch h) v)

  full-Batches :
      (size : ℕ) (batch all : List T) (o : Option (List (List T) × Result (Unit {0})))
      → Fits size batch
      → Batches size all o
      → Batches size (batch ++ all) (with_more (batch ∷ []) o)
  full-Batches size batch all o f v =
      subst (λ b. Batches size (b ++ all) (with_more (batch ∷ []) o)) (append-nil batch)
        (with_more-Batches size (batch ∷ []) all o (f, tt) v)

  -- The loop from a batch that is not full, with fuel enough.
  batch_loop-Batches :
      (fuel size : ℕ) (batch : List T) (rs : List (Read T))
      → rounds rs ≤ fuel
      → All Returns rs
      → length batch < size
      → Batches size
          (batch ++ items rs)
          (batch_loop fuel size (record { batch = batch; reads = rs }))
  unfolding batch_loop round
  batch_loop-Batches zero size batch rs enough h small = absurd (omega (arith, rounds_positive rs))
  batch_loop-Batches (suc fuel) size batch [] enough h small = (
    flush batch,
    refl,
    concat-flush batch ∙ sym (append-nil batch),
    flush-Fits size batch (omega arith),
  )
  batch_loop-Batches (suc fuel) size batch (read n (raised e) ∷ rs) enough h small = absurd h.0
  batch_loop-Batches (suc fuel) size batch (read (suc n) (ok item) ∷ rs) enough h small =
      flushed-Batches size batch _ _ (omega arith)
        (batch_loop-Batches fuel size [] (read n (ok item) ∷ rs) (omega arith) h (omega arith))
  batch_loop-Batches (suc fuel) size batch (read zero (ok item) ∷ rs) enough h small =
      subst
        (λ all.
          Batches size all (after (arrived size (batch ++ item ∷ []) rs) (batch_loop fuel size)))
        (append_assoc batch (item ∷ []) (items rs))
        (if_intro
          (λ r. Batches size ((batch ++ item ∷ []) ++ items rs) (after r (batch_loop fuel size)))
          (leb size (length (batch ++ item ∷ [])))
          (λ full.
            full-Batches size (batch ++ item ∷ []) (items rs) _
              (ground (arith, length-append batch (item ∷ [])))
              (batch_loop-Batches fuel size [] rs (omega arith) h.1 (omega arith)))
          (λ more. with_more-Batches size [] _ _ tt (
            batch_loop-Batches fuel size (batch ++ item ∷ []) rs (omega arith) h.1
              (ground (arith, more)))))

  abbrev pub poisoned : List (Read T) → Bool
  poisoned [] = false
  poisoned (read n (ok item) ∷ rs) = poisoned rs
  poisoned (read n (raised e) ∷ rs) = is_timeout e

  batch_loop-poisoned :
      (fuel size : ℕ) (batch : List T) (rs : List (Read T))
      → poisoned rs ≡ true
      → batch_loop fuel size (record { batch = batch; reads = rs }) ≡ none
  unfolding batch_loop round
  batch_loop-poisoned zero size batch rs h = refl
  batch_loop-poisoned (suc fuel) size batch [] h = cc
  batch_loop-poisoned (suc fuel) size batch (read (suc n) (ok item) ∷ rs) h =
      rw (batch_loop-poisoned fuel size [] (read n (ok item) ∷ rs) h) refl
  batch_loop-poisoned (suc fuel) size batch (read (suc n) (raised e) ∷ rs) h =
      rw (batch_loop-poisoned fuel size [] (read n (raised e) ∷ rs) h) refl
  batch_loop-poisoned (suc fuel) size batch (read zero (ok item) ∷ rs) h = ground (
    arith,
    batch_loop-poisoned fuel size [] rs h,
    batch_loop-poisoned fuel size (batch ++ item ∷ []) rs h,
  )
  batch_loop-poisoned (suc fuel) size batch (read zero (raised e) ∷ rs) h =
      rw h (rw (batch_loop-poisoned fuel size [] (read zero (raised e) ∷ rs) h) refl)

  -- If every read of the source returns, `batched` ends, once it may run one round for each timeout,
  -- each item and the end. Its batches, with a positive size, have all the items in their order, and
  -- none is empty or larger than the size, wherever timeouts pass.
  pub batched-Batches :
      (more size : ℕ) (rs : List (Read T))
      → 1 ≤ size
      → All Returns rs
      → Batches size (items rs) (batched (more + rounds rs) size rs)
  unfolding batched
  batched-Batches more size rs positive h =
      if_intro (Batches size (items rs)) (ltb size 1) (λ less. absurd (ground (arith, less)))
        (λ ok. batch_loop-Batches (more + rounds rs) size [] rs (omega arith) h (omega arith))

  -- If a read of the source raises `TimeoutError` and those before it return, `batched` never ends:
  -- with a positive size, no number of rounds is enough.
  pub poisoned_never_ends :
      (fuel size : ℕ) (rs : List (Read T))
      → 1 ≤ size
      → poisoned rs ≡ true
      → batched fuel size rs ≡ none
  unfolding batched
  poisoned_never_ends fuel size rs positive h =
      if_intro (λ o. o ≡ none) (ltb size 1) (λ less. absurd (ground (arith, less)))
        (λ more. batch_loop-poisoned fuel size [] rs h)
