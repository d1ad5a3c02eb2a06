-- ===== src/Queues/Partial.antt =====
-- What `batched` of aiolab/queues.py does with the items that it holds when its source raises.
use asyncio_tests.Base.{
  ℕ, zero, suc, ◌+◌, ◌≤◌, ◌<◌, ◌≡◌, refl, ap, ◌∙◌, sym, ltb, leb, false, Option, none, some, List,
  [], ◌∷◌, ◌++◌, length, All, arith, inl, inr, Bool-cases,
}
use mathlib.Core.List.{append_assoc}
use asyncio_tests.Errors.{Exn, Result, ok, raised}
use asyncio_tests.Queues.Batching.{
  Read, read, is_timeout, flush, round, with_more, batch_loop, batched,
}
use asyncio_tests.Queues.Batches.{
  concat, items, Returns, rounds, rounds_positive, Batches, concat-append, concat-flush,
  batched-Batches,
}

abbrev pub Outcome : Type 0 → Type 0
Outcome T = Option (List (List T) × Result (Unit {0}))

module _ {T : Type 0} where
  abbrev all_of : Outcome T → List T
  all_of none = []
  all_of (some (bs, end)) = concat bs

  Batches-all : (size : ℕ) (all : List T) (o : Outcome T) → Batches size all o → all_of o ≡ all
  Batches-all size all o (bs, ends, same, fits) = rw ends same

module _ {T : Type 0} (e : Exn) where
  -- The source with an error, raised before a timeout, in place of its end.
  abbrev pub fails_after : List (Read T) → List (Read T)
  fails_after [] = read zero (raised e) ∷ []
  fails_after (r ∷ rs) = r ∷ fails_after rs

  -- Of two outcomes, the one that ends well yields a last batch, not full, that the one that raises
  -- does not yield, if there is anything in it.
  abbrev pub LosesLast : ℕ → List (List T) → List T → Outcome T → Outcome T → Type 0
  LosesLast size bs lost ended failed =
      (ended ≡ some (bs ++ flush lost, ok tt))
      × (failed ≡ some (bs, raised e))
      × (length lost < size)

  abbrev Loses : ℕ → Outcome T → Outcome T → Type 0
  Loses size ended failed =
      (bs : List (List T)) × (lost : List T) × LosesLast size bs lost ended failed

  with_more-Loses :
      (size : ℕ) (ys : List (List T)) (ended failed : Outcome T)
      → Loses size ended failed
      → Loses size (with_more ys ended) (with_more ys failed)
  with_more-Loses size ys ended failed (bs, lost, (well, ill, few)) = (
    ys ++ bs,
    lost,
    (
      rw well (ap (λ cs. some (cs, ok tt)) (sym (append_assoc ys bs (flush lost)))),
      rw ill refl,
      few,
    ),
  )

  batch_loop-Loses :
      (fuel size : ℕ) (batch : List T) (rs : List (Read T))
      → is_timeout e ≡ false
      → rounds rs ≤ fuel
      → All Returns rs
      → length batch < size
      → Loses size
          (batch_loop fuel size (record { batch = batch; reads = rs }))
          (batch_loop fuel size (record { batch = batch; reads = fails_after rs }))
  unfolding batch_loop round
  batch_loop-Loses zero size batch rs other enough h small =
      absurd (omega (arith, rounds_positive rs))
  batch_loop-Loses (suc fuel) size batch [] other enough h small =
      ([], batch, (refl, rw other refl, small))
  batch_loop-Loses (suc fuel) size batch (read n (raised x) ∷ rs) other enough h small = absurd h.0
  batch_loop-Loses (suc fuel) size batch (read (suc n) (ok item) ∷ rs) other enough h small =
      with_more-Loses size (flush batch) _ _
        (batch_loop-Loses fuel size [] (read n (ok item) ∷ rs) other (omega arith) h (omega arith))
  batch_loop-Loses (suc fuel) size batch (read zero (ok item) ∷ rs) other enough h small =
      elim (Bool-cases (leb size (length (batch ++ item ∷ [])))) [
        | inl full ↦ rw full (
            with_more-Loses size ((batch ++ item ∷ []) ∷ []) _ _
              (batch_loop-Loses fuel size [] rs other (omega arith) h.1 (omega arith)))
        | inr more ↦ rw more (
            with_more-Loses size [] _ _ (
              batch_loop-Loses fuel size (batch ++ item ∷ []) rs other (omega arith) h.1
                (ground (arith, more))))
      ]

  batched-pair :
      (fuel size : ℕ) (rs : List (Read T))
      → is_timeout e ≡ false
      → 1 ≤ size
      → rounds rs ≤ fuel
      → All Returns rs
      → Loses size (batched fuel size rs) (batched fuel size (fails_after rs))
  unfolding batched
  batched-pair fuel size rs other positive enough h = elim (Bool-cases (ltb size 1)) [
    | inl less ↦ absurd (ground (arith, less))
    | inr some_room ↦ rw some_room (batch_loop-Loses fuel size [] rs other enough h (omega arith))
  ]

  yielded-items :
      (size : ℕ) (rs : List (Read T)) (ended : Outcome T) (bs : List (List T)) (lost : List T)
      → ended ≡ some (bs ++ flush lost, ok tt)
      → Batches size (items rs) ended
      → concat bs ++ lost ≡ items rs
  yielded-items size rs ended bs lost well b =
      ap (λ xs. concat bs ++ xs) (sym (concat-flush lost))
      ∙ sym (concat-append bs (flush lost))
      ∙ sym (ap all_of well)
      ∙ Batches-all size (items rs) ended b

  -- If the reads of a source all return, wherever timeouts pass, and a last one then raises, before a
  -- timeout, what is not a `TimeoutError`, `batched` with a positive size raises the same, and has yielded what it yields of
  -- a source that ends there, except for the last batch if that is not full: its items, fewer than the
  -- size, are in no batch. Fuel for a round for each timeout, each item and the end is enough.
  pub batched-Loses :
      (more size : ℕ) (rs : List (Read T))
      → is_timeout e ≡ false
      → 1 ≤ size
      → All Returns rs
      → (bs : List (List T)) × (lost : List T) × LosesLast size bs lost
          (batched (more + rounds rs) size rs)
          (batched (more + rounds rs) size (fails_after rs))
        × (concat bs ++ lost ≡ items rs)
  batched-Loses more size rs other positive h =
      let (bs, lost, p) = batched-pair (more + rounds rs) size rs other positive (omega arith) h in
      (bs, lost, p, yielded-items size rs _ bs lost p.0 (batched-Batches more size rs positive h))
