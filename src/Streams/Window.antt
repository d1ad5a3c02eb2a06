-- ===== src/Streams/Window.antt =====
-- Which tasks `amap` of aiolab/streams.py has in flight in order, over a source that ends well.
use asyncio_tests.Base.{
  ℕ, zero, suc, ◌-◌, ◌≡◌, ◌≤◌, refl, sym, subst, ap, ◌∙◌, leb, ltb, true, false, Option, some, ◌⊎◌,
  inl, inr, List, [], ◌∷◌, ◌++◌, length, map, take, drop, length-append, if_intro, arith,
}
use mathlib.Core.List.{append-nil, append_assoc}
use asyncio_tests.Errors.{Result, ok}
use asyncio_tests.Streams.Amap.{
  Amap, Batch, Filled, filled, broken, Round, goes_on, fill, fill_up, deliver, from_filled, round,
  begin,
}
use asyncio_tests.Streams.Break.{
  Broken, left_off, cut, and_before, after_round, break_loop, break_off,
}

module _ {A : Type 0} where
  -- The source has no item left once it is known to be at its end.
  abbrev pub IsTrue : Amap A → Type 0
  IsTrue s = (s.end ≡ ok tt) × ((s.exhausted ≡ false) ⊎ (s.items ≡ []))

  -- The first `c` items that remain are in flight.
  abbrev pub Holds : ℕ → List A → Filled A → Type 0
  Holds c all (broken e fl) = ⊥
  Holds c all (filled s) = IsTrue s × (s.in_flight ≡ take c all) × (s.items ≡ drop c all)

  take-short : (c : ℕ) (fl : List A) → length fl ≤ c → take c fl ≡ fl
  take-short zero [] h = refl
  take-short zero (x ∷ fl) h = absurd (omega (arith, h))
  take-short (suc c) [] h = refl
  take-short (suc c) (x ∷ fl) h = ap (λ ys. x ∷ ys) (take-short c fl (omega (arith, h)))

  drop-short : (c : ℕ) (fl : List A) → length fl ≤ c → drop c fl ≡ []
  drop-short zero [] h = refl
  drop-short zero (x ∷ fl) h = absurd (omega (arith, h))
  drop-short (suc c) [] h = refl
  drop-short (suc c) (x ∷ fl) h = drop-short c fl (omega (arith, h))

  take-append : (c : ℕ) (fl xs : List A) → length fl ≡ c → take c (fl ++ xs) ≡ fl
  take-append zero [] xs h = refl
  take-append zero (x ∷ fl) xs h = absurd (omega (arith, h))
  take-append (suc c) [] xs h = absurd (omega (arith, h))
  take-append (suc c) (x ∷ fl) xs h = ap (λ ys. x ∷ ys) (take-append c fl xs (omega (arith, h)))

  drop-append : (c : ℕ) (fl xs : List A) → length fl ≡ c → drop c (fl ++ xs) ≡ xs
  drop-append zero [] xs h = refl
  drop-append zero (x ∷ fl) xs h = absurd (omega (arith, h))
  drop-append (suc c) [] xs h = absurd (omega (arith, h))
  drop-append (suc c) (x ∷ fl) xs h = drop-append c fl xs (omega (arith, h))

  pub fill-Holds :
      (c : ℕ) (fl xs : List A) → length fl ≤ c → Holds c (fl ++ xs) (fill c (ok tt) fl xs)
  unfolding fill
  fill-Holds c fl [] h =
      if_intro (Holds c (fl ++ [])) (ltb (length fl) c)
        (λ room. (
          (refl, inr refl),
          rw (append-nil fl) (sym (take-short c fl h)),
          rw (append-nil fl) (sym (drop-short c fl h)),
        ))
        (λ full. (
          (refl, inl refl),
          rw (append-nil fl) (sym (take-short c fl h)),
          rw (append-nil fl) (sym (drop-short c fl h)),
        ))
  fill-Holds c fl (x ∷ xs) h =
      if_intro (Holds c (fl ++ x ∷ xs)) (ltb (length fl) c)
        (λ room.
          subst (λ all. Holds c all (fill c (ok tt) (fl ++ x ∷ []) xs))
            (append_assoc fl (x ∷ []) xs)
            (fill-Holds c (fl ++ x ∷ []) xs (ground (arith, length-append fl (x ∷ []), room))))
        (λ full.
          let even : length fl ≡ c = ground (arith, full, h) in
          (
            (refl, inl refl),
            sym (take-append c fl (x ∷ xs) even),
            sym (drop-append c fl (x ∷ xs) even),
          ))

  fill_up-Holds :
      (c : ℕ) (s : Amap A)
      → length s.in_flight ≤ c
      → IsTrue s
      → Holds c (s.in_flight ++ s.items) (fill_up c s)
  unfolding fill_up
  fill_up-Holds c s h (well, known) =
      if_intro (Holds c (s.in_flight ++ s.items)) s.exhausted
        (λ done. elim known [
          | inl more ↦ cc
          | inr none_left ↦ (
            (well, inr none_left),
            rw (none_left, append-nil s.in_flight) (sym (take-short c s.in_flight h)),
            rw (none_left, append-nil s.in_flight) (sym (drop-short c s.in_flight h)),
          )
        ])
        (λ more. rw well (fill-Holds c s.in_flight s.items h))

  pub take-drop : (c : ℕ) (xs : List A) → take c xs ++ drop c xs ≡ xs
  take-drop zero xs = refl
  take-drop (suc c) [] = refl
  take-drop (suc c) (x ∷ xs) = ap (λ ys. x ∷ ys) (take-drop c xs)

  pub length-take-le : (n : ℕ) (xs : List A) → length (take n xs) ≤ n
  length-take-le zero xs = omega arith
  length-take-le (suc n) [] = omega arith
  length-take-le (suc n) (x ∷ xs) = omega (arith, length-take-le n xs)

module _ {A B : Type 0} (g : A → B) where
  abbrev pub answers : A → Result B
  answers x = ok (g x)

  -- A round yields the result of the oldest task.
  abbrev Oldest : ℕ → A → List A → Round A B → Type 0
  Oldest c x rest r =
      (s : Amap A) × (r ≡ goes_on (g x ∷ []) s)
      × IsTrue s
      × (s.in_flight ≡ take c rest)
      × (s.items ≡ drop c rest)

  deliver-Oldest :
      (c : ℕ) (batch : Batch) (x : A) (rest : List A) (f : Filled A)
      → Holds (suc c) (x ∷ rest) f
      → Oldest c x rest (from_filled f (λ s. deliver true answers batch s s.in_flight))
  unfolding deliver
  deliver-Oldest c batch x rest (broken e fl) h = absurd h
  deliver-Oldest c batch x rest (filled s) (calm, held, left) =
      (record s { in_flight = take c rest }, rw held refl, calm, refl, left)

  after_more :
      (n : ℕ) (v : B) (s : Amap A) (rest : ℕ → Amap A → Option (Broken A B))
      → after_round (suc (suc n)) (goes_on (v ∷ []) s) rest ≡ and_before (v ∷ []) (rest (suc n) s)
  after_more n v s rest =
      let one_less : suc (suc n) - 1 ≡ suc n = omega arith in
      let more : leb (suc (suc n)) 1 ≡ false = ground arith in rw (more, one_less) refl

  break_loop-window :
      (c : ℕ) (batches : List Batch) (n : ℕ) (all : List A) (s : Amap A)
      → s.in_flight ++ s.items ≡ all
      → length s.in_flight ≤ suc c
      → IsTrue s
      → suc n ≤ length batches
      → suc n ≤ length all
      → break_loop true answers (suc c) batches (suc n) s
        ≡ some (
            left_off
              (map g (take (suc n) all))
              (take c (drop (suc n) all))
              (drop c (drop (suc n) all)))
  unfolding break_loop round
  break_loop-window c [] n all s e h calm enough more = absurd (omega (arith, enough))
  break_loop-window c (batch ∷ batches) n [] s e h calm enough more = absurd (omega (arith, more))
  break_loop-window c (batch ∷ batches) zero (x ∷ rest) s e h calm enough more =
      let holds =
        subst (λ all. Holds (suc c) all (fill_up (suc c) s)) e (fill_up-Holds (suc c) s h calm) in
      let (s', r, calm', fl, left) =
        deliver-Oldest c (cut 1 batch) x rest (fill_up (suc c) s) holds in
      rw r (rw (fl, left) refl)
  break_loop-window c (batch ∷ batches) (suc n) (x ∷ rest) s e h calm enough more =
      let holds =
        subst (λ all. Holds (suc c) all (fill_up (suc c) s)) e (fill_up-Holds (suc c) s h calm) in
      let (s', r, calm', fl, left) =
        deliver-Oldest c (cut (suc (suc n)) batch) x rest (fill_up (suc c) s) holds in
      let same : s'.in_flight ++ s'.items ≡ rest = rw (fl, left) (take-drop c rest) in
      let few : length s'.in_flight ≤ suc c = rw fl (omega (arith, length-take-le c rest)) in
      rw r (
        after_more n (g x) s' (break_loop true answers (suc c) batches)
        ∙ ap (and_before (g x ∷ [])) (
            break_loop-window c batches n rest s' same few calm' (omega (arith, enough))
              (omega (arith, more))))

  -- In order, a consumer that takes `n` items, of a source that has as many and ends well, gets the
  -- results of the first `n`; the tasks then in flight are those of the next items, one fewer than
  -- `concurrency`; and what comes after them has not been read.
  pub break_off-window :
      (c : ℕ) (items : List A) (schedule : List Batch) (n : ℕ)
      → 1 ≤ c
      → 1 ≤ n
      → n ≤ length schedule
      → n ≤ length items
      → break_off (record { items = items; end = ok tt }) answers c true schedule n
        ≡ some (
            left_off
              (map g (take n items))
              (take (c - 1) (drop n items))
              (drop (c - 1) (drop n items)))
  unfolding break_off
  break_off-window zero items schedule n some_task some_item enough more =
      absurd (omega (arith, some_task))
  break_off-window (suc c) items schedule zero some_task some_item enough more =
      absurd (omega (arith, some_item))
  break_off-window (suc c) items schedule (suc n) some_task some_item enough more =
      let some_tasks : ltb (suc c) 1 ≡ false = ground arith in
      let less : suc c - 1 ≡ c = omega arith in
      rw (some_tasks, less)
        (break_loop-window c schedule n items (begin (record { items = items; end = ok tt })) refl
          (omega arith) (refl, inl refl) enough more)
