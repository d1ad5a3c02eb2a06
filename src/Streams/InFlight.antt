-- ===== src/Streams/InFlight.antt =====
-- How many tasks `amap` of aiolab/streams.py has in flight, and that no item gets lost, in any state
-- that a consumer can bring about.
use asyncio_tests.Base.{
  zero, suc, ap, subst, ℕ, ◌+◌, ◌≤◌, ◌≡◌, refl, ltb, Bool, true, false, List, [], ◌∷◌, ◌++◌, length,
  length-append, if_intro, arith,
}
use asyncio_tests.Errors.{Result, ok, raised}
use asyncio_tests.Streams.Source.{Feed}
use asyncio_tests.Streams.Amap.{
  Amap, Batch, Filled, filled, broken, Round, ends, goes_on, fill, fill_up, pick, finish, hand_over,
  close_round, deliver, from_filled, round, begin,
}

-- The states between two rounds.
module _ {A B : Type 0} (ordered : Bool) (fn : A → Result B) (c : ℕ) (source : Feed A) where
  pub data Reach : Amap A → ℕ → Type 0 where
    start : Reach (begin source) 0
    next :
        {s s' : Amap A} {n : ℕ} {vs : List B} (batch : Batch)
        → Reach s n
        → round ordered fn c batch s ≡ goes_on vs s'
        → Reach s' (n + length vs)

module _ {A : Type 0} where
  -- Tasks in flight and items to read.
  abbrev pub load : Amap A → ℕ
  load s = length s.in_flight + length s.items

  -- Filling keeps to the bound and moves items only.
  abbrev Fills : ℕ → ℕ → Filled A → Type 0
  Fills c n (broken e fl) = length fl ≤ c
  Fills c n (filled s) = (length s.in_flight ≤ c) × (load s ≡ n)

  fill-Fills :
      (c : ℕ) (end : Result (Unit {0})) (fl xs : List A)
      → length fl ≤ c
      → Fills c (length fl + length xs) (fill c end fl xs)
  unfolding fill
  fill-Fills c (ok _) fl [] h =
      if_intro (Fills c _) (ltb (length fl) c) (λ room. (h, refl)) (λ full. (h, refl))
  fill-Fills c (raised e) fl [] h =
      if_intro (Fills c _) (ltb (length fl) c) (λ room. h) (λ full. (h, refl))
  fill-Fills c end fl (x ∷ xs) h =
      if_intro (Fills c (length fl + length (x ∷ xs))) (ltb (length fl) c)
        (λ room.
          let more : length (fl ++ x ∷ []) + length xs ≡ length fl + length (x ∷ xs) =
            omega (arith, length-append fl (x ∷ [])) in
          subst (λ n. Fills c n (fill c end (fl ++ x ∷ []) xs)) more
            (fill-Fills c end (fl ++ x ∷ []) xs (ground (arith, length-append fl (x ∷ []), room))))
        (λ full. (h, refl))

  fill_up-Fills : (c : ℕ) (s : Amap A) → length s.in_flight ≤ c → Fills c (load s) (fill_up c s)
  unfolding fill_up
  fill_up-Fills c s h =
      if_intro (Fills c (load s)) s.exhausted (λ done. (h, refl))
        (λ more. fill-Fills c s.end s.in_flight s.items h)

  pub length-pick : (n : ℕ) (x : A) (fl : List A) → length (pick n x fl).1 ≡ length fl
  unfolding pick
  length-pick zero x fl = refl
  length-pick (suc n) x [] = refl
  length-pick (suc n) x (y ∷ fl) = ap suc (length-pick n y fl)

module _ {A B : Type 0} (fn : A → Result B) where
  -- What a batch yields has left the tasks in flight.
  length-hand_over :
      (ps : List ℕ) (fl : List A)
      → (hand_over fn ps fl).1 ≡ ok tt
      → length (hand_over fn ps fl).0 + length (hand_over fn ps fl).2 ≡ length fl
  unfolding hand_over
  length-hand_over [] fl e = omega arith
  length-hand_over (p ∷ ps) [] e = omega arith
  length-hand_over (p ∷ ps) (x ∷ fl) e =
      ground (arith, length-pick p x fl, length-hand_over ps (pick p x fl).1)

  -- A round that goes on keeps to the bound and turns load into results.
  abbrev Moves : ℕ → ℕ → Round A B → Type 0
  Moves c n (ends vs end left) = Unit
  Moves c n (goes_on vs s) = (length s.in_flight ≤ c) × (length vs + load s ≡ n)

  close_round-Moves :
      (c : ℕ) (s : Amap A) (r : List B × Result (Unit {0}) × List A)
      → length s.in_flight ≤ c
      → (r.1 ≡ ok tt → length r.0 + length r.2 ≡ length s.in_flight)
      → Moves c (load s) (close_round s r)
  close_round-Moves c s (vs, raised e, left) h moved = tt
  close_round-Moves c s (vs, ok _, left) h moved =
      (omega (arith, moved refl), omega (arith, moved refl))

  length-finish :
      (r : Result B) (fl : List A)
      → let out = finish r fl (λ left. ([], ok tt, left)) in
        out.1 ≡ ok tt → length out.0 + length out.2 ≡ suc (length fl)
  length-finish (ok v) fl e = omega arith
  length-finish (raised exc) fl e = cc

  deliver-Moves :
      (ordered : Bool) (c : ℕ) (batch : Batch) (s : Amap A) (fl : List A)
      → s.in_flight ≡ fl
      → length s.in_flight ≤ c
      → Moves c (load s) (deliver ordered fn batch s fl)
  unfolding deliver
  deliver-Moves ordered c batch s [] same h = tt
  deliver-Moves true c batch s (x ∷ fl) same h =
      close_round-Moves c s _ h (λ e. omega (arith, ap length same, length-finish (fn x) fl e))
  deliver-Moves false c (p, ps) s (x ∷ fl) same h =
      close_round-Moves c s _ h (λ e. rw same (length-hand_over (p ∷ ps) (x ∷ fl) e))

  round-Moves :
      (ordered : Bool) (c : ℕ) (batch : Batch) (n : ℕ) (f : Filled A)
      → Fills c n f
      → Moves c n (from_filled f (λ s. deliver ordered fn batch s s.in_flight))
  round-Moves ordered c batch n (broken e fl) h = tt
  round-Moves ordered c batch n (filled s) (h, same) =
      subst (λ n. Moves c n (deliver ordered fn batch s s.in_flight)) same
        (deliver-Moves ordered c batch s s.in_flight refl h)

-- The tasks in flight once the source has been read as far as it may be.
abbrev pub tasks_of : {A : Type 0} → Filled A → List A
tasks_of (filled s) = s.in_flight
tasks_of (broken e fl) = fl

Fills-bound : {A : Type 0} (c n : ℕ) (f : Filled A) → Fills c n f → length (tasks_of f) ≤ c
Fills-bound c n (filled s) h = h.0
Fills-bound c n (broken e fl) h = h

module _ {A B : Type 0} (ordered : Bool) (fn : A → Result B) (c : ℕ) (source : Feed A) where
  pub moved :
      {s : Amap A} {n : ℕ}
      → Reach ordered fn c source s n
      → (length s.in_flight ≤ c) × (n + load s ≡ length source.items)
  unfolding round
  moved start = (omega arith, omega arith)
  moved (next {s} {s'} {n} {vs} batch r e) =
      let (few, all) = moved r in
      let m =
        subst (Moves fn c (load s)) e
          (round-Moves fn ordered c batch (load s) (fill_up c s) (fill_up-Fills c s few)) in
      (m.0, omega (arith, m.1, all))

  -- In every state that `amap` reaches, in order or not and whatever its source and its tasks do, no
  -- more tasks than `concurrency` are in flight once the source has been read on, and the results
  -- yielded, the tasks in flight and the items to read are as many as the source's items.
  pub Reach-bound :
      (s : Amap A) (n : ℕ)
      → Reach ordered fn c source s n
      → (length (tasks_of (fill_up c s)) ≤ c) × (n + load s ≡ length source.items)
  Reach-bound s n r =
      let (few, all) = moved r in
      (Fills-bound c (load s) (fill_up c s) (fill_up-Fills c s few), all)
