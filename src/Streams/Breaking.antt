-- ===== src/Streams/Breaking.antt =====
-- What `amap` of aiolab/streams.py leaves behind when its consumer breaks off.
use asyncio_tests.Base.{
  ℕ, zero, suc, ◌+◌, ◌-◌, ◌≡◌, ◌≤◌, refl, leb, ltb, Bool, true, false, Option, none, some, List, [],
  ◌∷◌, length, take, length-append, if_intro, arith,
}
use asyncio_tests.Errors.{Result, ok, raised}
use asyncio_tests.Streams.Source.{Feed}
use asyncio_tests.Streams.Amap.{
  Amap, Batch, Filled, filled, broken, Round, ends, goes_on, round, begin, hand_over, finish,
  close_round, deliver, from_filled, fill_up, pick,
}
use asyncio_tests.Streams.InFlight.{Reach, start, next, moved}
use asyncio_tests.Streams.Break.{
  Broken, over, left_off, cut, and_before, after_round, break_loop, break_off,
}

module _ {A B : Type 0} (ordered : Bool) (fn : A → Result B) (c : ℕ) (source : Feed A) where
  -- Of `n` items more, after `m`: what is dropped was in flight, and nothing is lost.
  abbrev pub LeavesOff : ℕ → ℕ → Option (Broken A B) → Type 0
  LeavesOff m n none = ⊥
  LeavesOff m n (some (over vs end left)) = length vs ≤ n
  LeavesOff m n (some (left_off vs dropped unread)) =
      (length vs ≡ n)
      × (length dropped ≤ c)
      × (m + n + length dropped + length unread ≡ length source.items)

  -- A round with `n` more to take yields no more than those, and one at least if it goes on.
  abbrev Yields : ℕ → Round A B → Type 0
  Yields n (ends vs end left) = length vs ≤ n
  Yields n (goes_on vs s) = (1 ≤ length vs) × (length vs ≤ n)

  length-hand_over-le : (ps : List ℕ) (fl : List A) → length (hand_over fn ps fl).0 ≤ length ps
  unfolding hand_over
  length-hand_over-le [] fl = omega arith
  length-hand_over-le (p ∷ ps) [] = omega arith
  length-hand_over-le (p ∷ ps) (x ∷ fl) = ground (arith, length-hand_over-le ps (pick p x fl).1)

  close_round-Yields :
      (n : ℕ) (s : Amap A) (r : List B × Result (Unit {0}) × List A)
      → length r.0 ≤ n
      → (r.1 ≡ ok tt → 1 ≤ length r.0)
      → Yields n (close_round s r)
  close_round-Yields n s (vs, ok _, left) h some_one = (some_one refl, h)
  close_round-Yields n s (vs, raised e, left) h some_one = h

  finish-one :
      (r : Result B) (left : List A) (rest : List A → List B × Result (Unit {0}) × List A)
      → (finish r left rest).1 ≡ ok tt
      → 1 ≤ length (finish r left rest).0
  finish-one (ok v) left rest e = omega arith
  finish-one (raised exc) left rest e = cc

  length-take-le : {X : Type 0} (n : ℕ) (xs : List X) → length (take n xs) ≤ n
  length-take-le zero xs = omega arith
  length-take-le (suc n) [] = omega arith
  length-take-le (suc n) (x ∷ xs) = omega (arith, length-take-le n xs)

  length-finish-le :
      (r : Result B) (left : List A) → length (finish r left (λ l. ([], ok tt, l))).0 ≤ 1
  length-finish-le (ok v) left = omega arith
  length-finish-le (raised e) left = omega arith

  deliver-Yields :
      (n : ℕ) (batch : Batch) (s : Amap A) (fl : List A)
      → 1 ≤ n
      → Yields n (deliver ordered fn (cut n batch) s fl)
  unfolding deliver
  deliver-Yields n batch s [] h = omega arith
  deliver-Yields n (p, ps) s (x ∷ fl) h =
      let tasks = p ∷ take (n - 1) ps in
      elim ordered as (λ o. Yields n (deliver o fn (cut n (p, ps)) s (x ∷ fl))) [
        | true ↦
            close_round-Yields n s _ (omega (arith, h, length-finish-le (fn x) fl))
              (finish-one (fn x) fl _)
        | false ↦
            close_round-Yields n s _
              (omega (arith, h, length-hand_over-le tasks (x ∷ fl), length-take-le (n - 1) ps))
              (finish-one (fn (pick p x fl).0) (pick p x fl).1 (hand_over fn (take (n - 1) ps)))
      ]

  filled-Yields :
      (n : ℕ) (batch : Batch) (f : Filled A)
      → 1 ≤ n
      → Yields n (from_filled f (λ s. deliver ordered fn (cut n batch) s s.in_flight))
  filled-Yields n batch (filled s) h = deliver-Yields n batch s s.in_flight h
  filled-Yields n batch (broken e fl) h = omega arith

  round-Yields :
      (n : ℕ) (batch : Batch) (s : Amap A) → 1 ≤ n → Yields n (round ordered fn c (cut n batch) s)
  unfolding round
  round-Yields n batch s h = filled-Yields n batch (fill_up c s) h

  and_before-LeavesOff :
      (m n : ℕ) (vs : List B) (o : Option (Broken A B))
      → length vs ≤ n
      → LeavesOff (m + length vs) (n - length vs) o
      → LeavesOff m n (and_before vs o)
  and_before-LeavesOff m n vs none few h = absurd h
  and_before-LeavesOff m n vs (some (over later end left)) few h =
      omega (arith, few, h, length-append vs later)
  and_before-LeavesOff m n vs (some (left_off later dropped unread)) few (took, bound, all) =
      (omega (arith, few, took, length-append vs later), bound, omega (arith, few, all))

  after_round-LeavesOff :
      (m n : ℕ) (batch : Batch) (s : Amap A) (r : Round A B)
      (rest : ℕ → Amap A → Option (Broken A B))
      → Reach ordered fn c source s m
      → round ordered fn c batch s ≡ r
      → Yields n r
      → ((vs : List B) (s' : Amap A)
          → Reach ordered fn c source s' (m + length vs)
          → 1 ≤ length vs
          → 1 ≤ n - length vs
          → LeavesOff (m + length vs) (n - length vs) (rest (n - length vs) s'))
      → LeavesOff m n (after_round n r rest)
  after_round-LeavesOff m n batch s (ends vs end left) rest reach e few h = few
  after_round-LeavesOff m n batch s (goes_on vs s') rest reach e (one, few) h =
      let there : Reach ordered fn c source s' (m + length vs) = next batch reach e in
      let (bound, all) = moved ordered fn c source there in
      if_intro (LeavesOff m n) (leb n (length vs))
        (λ enough. (ground (arith, few, enough), bound, ground (arith, few, enough, all)))
        (λ more.
          and_before-LeavesOff m n vs (rest (n - length vs) s') few
            (h vs s' there one (ground (arith, more))))

  break_loop-LeavesOff :
      (batches : List Batch) (m n : ℕ) (s : Amap A)
      → Reach ordered fn c source s m
      → 1 ≤ n
      → n ≤ length batches
      → LeavesOff m n (break_loop ordered fn c batches n s)
  unfolding break_loop
  break_loop-LeavesOff [] m n s reach h enough = absurd (omega (arith, h, enough))
  break_loop-LeavesOff (batch ∷ batches) m n s reach h enough =
      after_round-LeavesOff m n (cut n batch) s (round ordered fn c (cut n batch) s)
        (break_loop ordered fn c batches) reach refl (round-Yields n batch s h)
        (λ vs s' there one more.
          break_loop-LeavesOff batches (m + length vs) (n - length vs) s' there more
            (omega (arith, one, enough)))

  -- A consumer that takes `n` items, one at least, gets these, unless `amap` ends before that; when it
  -- then closes the generator, no more tasks than `concurrency` are in flight, and the items that it
  -- got, those in flight and those not read are as many as the source's. A schedule of `n` rounds is
  -- enough.
  pub break_off-LeavesOff :
      (schedule : List Batch) (n : ℕ)
      → 1 ≤ c
      → 1 ≤ n
      → n ≤ length schedule
      → LeavesOff 0 n (break_off source fn c ordered schedule n)
  unfolding break_off
  break_off-LeavesOff schedule n some_tasks some_items enough =
      if_intro (LeavesOff 0 n) (ltb c 1) (λ less. absurd (ground (arith, less, some_tasks)))
        (λ more. break_loop-LeavesOff schedule 0 n (begin source) start some_items enough)
