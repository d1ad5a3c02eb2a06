-- ===== src/Streams/Rounds.antt =====
-- The rounds of `amap` of aiolab/streams.py: filling, and a rule for the loop over a source that ends
-- well.
use asyncio_tests.Base.{
  ℕ, suc, ◌≤◌, ◌<◌, ◌≡◌, refl, ap, sym, ◌∙◌, subst, ◌⊎◌, inl, inr, ltb, Bool, false, List, [], ◌∷◌,
  ◌++◌, length, length-append, if_intro, arith,
}
use mathlib.Core.List.{append-nil, append_assoc}
use asyncio_tests.Errors.{Result, ok}
use asyncio_tests.Streams.Amap.{
  Amap, Batch, Filled, filled, broken, fill, fill_up, deliver, from_filled, round, Outcome, after,
  amap_loop, begin, amap,
}

module _ {A : Type 0} where
  -- What is still to be mapped.
  abbrev pub remaining : Amap A → List A
  remaining s = s.in_flight ++ s.items

  -- A state whose source ends well, and has no item left once that is known.
  pub record IsCalm (s : Amap A) : Type 0 where
    pub ends_well : s.end ≡ ok tt
    pub emptied : (s.exhausted ≡ false) ⊎ (s.items ≡ [])

  -- What filling comes to: the first of the items to read have been put in flight, behind the others;
  -- no more than `c` are in flight, and with items left there is one in flight.
  abbrev pub FillsTo : ℕ → List A → List A → Filled A → Type 0
  FillsTo c fl xs (broken e left) = ⊥
  FillsTo c fl xs (filled s) =
      IsCalm s
      × ((zs : List A) × (s.in_flight ≡ fl ++ zs) × (zs ++ s.items ≡ xs))
      × (length s.in_flight ≤ c)
      × ((1 ≤ length s.in_flight) ⊎ (remaining s ≡ []))

  busy_or_empty : (fl : List A) → (1 ≤ length fl) ⊎ (fl ++ [] ≡ [])
  busy_or_empty [] = inr refl
  busy_or_empty (x ∷ fl) = inl (omega arith)

  one_more-FillsTo :
      (c : ℕ) (fl : List A) (x : A) (xs : List A) (f : Filled A)
      → FillsTo c (fl ++ x ∷ []) xs f
      → FillsTo c fl (x ∷ xs) f
  one_more-FillsTo c fl x xs (broken e left) h = h
  one_more-FillsTo c fl x xs (filled s) (calm, (zs, e, same), few, busy) =
      (calm, (x ∷ zs, e ∙ append_assoc fl (x ∷ []) zs, ap (λ ys. x ∷ ys) same), few, busy)

  fill-FillsTo :
      (c : ℕ) (fl xs : List A) → 1 ≤ c → length fl ≤ c → FillsTo c fl xs (fill c (ok tt) fl xs)
  unfolding fill
  fill-FillsTo c fl [] pos h =
      if_intro (FillsTo c fl []) (ltb (length fl) c)
        (λ room. (
          record { ends_well = refl; emptied = inr refl },
          ([], sym (append-nil fl), refl),
          h,
          busy_or_empty fl,
        ))
        (λ full. (
          record { ends_well = refl; emptied = inl refl },
          ([], sym (append-nil fl), refl),
          h,
          inl (ground (arith, full)),
        ))
  fill-FillsTo c fl (x ∷ xs) pos h =
      if_intro (FillsTo c fl (x ∷ xs)) (ltb (length fl) c)
        (λ room.
          one_more-FillsTo c fl x xs (fill c (ok tt) (fl ++ x ∷ []) xs) (
            fill-FillsTo c (fl ++ x ∷ []) xs pos (ground (arith, length-append fl (x ∷ []), room))))
        (λ full. (
          record { ends_well = refl; emptied = inl refl },
          ([], sym (append-nil fl), refl),
          h,
          inl (ground (arith, full)),
        ))

  fill_up-FillsTo :
      (c : ℕ) (s : Amap A)
      → 1 ≤ c
      → length s.in_flight ≤ c
      → IsCalm s
      → FillsTo c s.in_flight s.items (fill_up c s)
  unfolding fill_up
  fill_up-FillsTo c s pos h v =
      if_intro (FillsTo c s.in_flight s.items) s.exhausted
        (λ done. elim v.emptied [
          | inl more ↦ cc
          | inr none_left ↦ (
            v,
            ([], sym (append-nil s.in_flight), refl),
            h,
            rw none_left (busy_or_empty s.in_flight),
          )
        ])
        (λ more. rw v.ends_well (fill-FillsTo c s.in_flight s.items pos h))

-- What is to hold of the tasks in flight, the items to read and the outcome.
module _ {A B : Type 0} (P : List A → List A → Outcome A B → Type 0) (ordered : Bool)
    (fn : A → Result B) (c : ℕ) (pos : 1 ≤ c) where
  -- What one round must show, after filling: if the rest of the run is right for each smaller choice of
  -- tasks in flight, the run is right.
  abbrev pub Delivers : Type 0
  Delivers =
      (batch : Batch) (s : Amap A) (fl : List A) (rest : Amap A → Outcome A B)
      → (1 ≤ length fl) ⊎ (fl ++ s.items ≡ [])
      → ((ys : List A)
          → suc (length ys) ≤ length fl
          → P ys s.items (rest (record s { in_flight = ys })))
      → P fl s.items (after (deliver ordered fn batch s fl) rest)

  -- It must not matter which of the items are in flight already.
  abbrev pub Starts : Type 0
  Starts = (fl zs xs : List A) (o : Outcome A B) → P (fl ++ zs) xs o → P fl (zs ++ xs) o

  from_filled_rule :
      (batch : Batch) (f : Filled A) (fl xs : List A) (rest : Amap A → Outcome A B)
      → Delivers
      → Starts
      → FillsTo c fl xs f
      → ((s : Amap A)
          → IsCalm s
          → length s.in_flight ≤ c
          → suc (length (remaining s)) ≤ length (fl ++ xs)
          → P s.in_flight s.items (rest s))
      → P fl xs (after (from_filled f (λ s. deliver ordered fn batch s s.in_flight)) rest)
  from_filled_rule batch (broken e left) fl xs rest d starts v h = absurd v
  from_filled_rule batch (filled s) fl xs rest d starts (calm, (zs, e, same), few, busy) h =
      subst (λ us. P fl us (after (deliver ordered fn batch s s.in_flight) rest)) same
        (starts fl zs s.items _ (
          subst (λ us. P us s.items (after (deliver ordered fn batch s s.in_flight) rest)) e
            (d batch s s.in_flight rest busy (λ ys fewer.
              h (record s { in_flight = ys })
                (record { ends_well = calm.ends_well; emptied = calm.emptied }) (omega arith)
                (omega (
                  arith,
                  length-append ys s.items,
                  length-append fl xs,
                  length-append fl zs,
                  length-append zs s.items,
                  ap length e,
                  ap length same,
                ))))))

  -- The rounds, from a state that holds no more tasks than it may, on a schedule that is long enough.
  amap_loop_rule :
      (batches : List Batch) (s : Amap A)
      → Delivers
      → Starts
      → length s.in_flight ≤ c
      → length (remaining s) < length batches
      → IsCalm s
      → P s.in_flight s.items (amap_loop ordered fn c batches s)
  unfolding amap_loop round
  amap_loop_rule [] s d starts h enough v = absurd (omega arith)
  amap_loop_rule (batch ∷ batches) s d starts h enough v =
      from_filled_rule batch (fill_up c s) s.in_flight s.items (amap_loop ordered fn c batches) d
        starts (fill_up-FillsTo c s pos h v)
        (λ s' calm few small. amap_loop_rule batches s' d starts few (omega arith) calm)

  pub amap_rule :
      (items : List A) (schedule : List Batch)
      → Delivers
      → Starts
      → length items < length schedule
      → P [] items (amap (record { items = items; end = ok tt }) fn c ordered schedule)
  unfolding amap
  amap_rule items schedule d starts enough =
      if_intro (P [] items) (ltb c 1) (λ small. absurd (ground (arith, small)))
        (λ more.
          amap_loop_rule schedule (begin (record { items = items; end = ok tt })) d starts
            (omega arith) enough (record { ends_well = refl; emptied = inl refl }))
