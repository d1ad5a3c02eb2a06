-- ===== src/Pipeline/Fetching.antt =====
-- What the requests of examples/pipeline_demo.py get, and how many they are.
use asyncio_tests.Base.{
  ℕ, suc, ◌-◌, ◌≡◌, ◌≤◌, refl, ap, subst, ◌∙◌, true, Option, none, some, List, ◌∷◌, if◌then◌else◌,
  Bool-cases, inl, inr, arith,
}
use asyncio_tests.Errors.{
  Exn, Result, ok, Async, pure, try_except, ◌>>◌, >>=-eq, is_cancelled, is_exception,
}
use asyncio_tests.Float.{Float, lt}
use asyncio_tests.Retry.Policy.{RetryPolicy, delay_for, default_retryable}
use asyncio_tests.Retry.Loop.{retry, retry_from, caught}
use asyncio_tests.Retry.Script.{wait_before}
use asyncio_tests.Sync.Bucket.{TokenBucket}
use asyncio_tests.Sync.Acquire.{Sleeps, MakesUp}
use asyncio_tests.Sync.Keeping.{IsKept, SameShape, SameShape-IsKept, acquire-keeps}
use asyncio_tests.Tasks.Registry.{contains}
use asyncio_tests.Pipeline.{connection_error, FlakyServer, World, get, hooks, fetch, after_grant}

-- The server after a request that is retried until it is answered.
abbrev pub answered : ℕ → FlakyServer → FlakyServer
answered path server =
    if contains path server.seen then record server { requests = suc server.requests } else record {
      seen = path ∷ server.seen;
      requests = suc (suc server.requests);
      failures = suc server.failures;
    }

module _ (F : Float) {L V : Type 0} (pages : ℕ → Option (List L)) (trip : V → V)
    (clock : FlakyServer × V → F.Carrier)
    (sleep : F.Carrier → Async (World F pages trip) (Unit {0})) (r : F.Carrier)
    (p : RetryPolicy F.Carrier) where
  open F use {Carrier, one, nought, le}

  -- Every random draw is the same.
  abbrev draw : Async (World F pages trip) Carrier
  draw s = (ok r, s)

  -- Nobody else asks the server during a sleep.
  abbrev pub Quiet : Type 0
  Quiet = (d : Carrier) (s : World F pages trip) → (sleep d s).1.1.0 ≡ s.1.0

  pause :
      (d : Carrier) (b : TokenBucket Carrier) (server : FlakyServer) (v : V)
      → Sleeps F clock sleep
      → Quiet
      → (v' : V) × ((if lt F nought d then sleep d else pure tt) (b, (server, v))
          ≡ (ok tt, (b, (server, v'))))
  pause d b server v s q =
      let ((server', v'), slept, _, _) = s d b (server, v) in
      let same : server' ≡ server =
        subst (λ (o : Result (Unit {0}) × World F pages trip). o.1.1.0 ≡ server) slept
          (q d (b, (server, v))) in
      elim (Bool-cases (lt F nought d)) [
        | inl long ↦ (v', rw long (slept ∙ rw same refl))
        | inr short ↦ (v, rw short refl)
      ]

  delay_for-draw :
      (n : ℕ) (s : World F pages trip)
      → n ≤ 2
      → delay_for F p n draw s ≡ (ok (wait_before F p r n), s)
  unfolding delay_for
  delay_for-draw n s early =
      let first : n - 2 ≡ 0 = omega (arith, early) in
      rw (first, F.overflows-zero p.factor) (ground arith)

  -- A round of the retry loop, up to its request.
  retry_round :
      (path left n : ℕ) (last : Option Exn) (b : TokenBucket Carrier) (server : FlakyServer) (v : V)
      → Sleeps F clock sleep
      → Quiet
      → n ≤ 2
      → let h = hooks F pages trip clock sleep draw p path in
        let d = wait_before F p r n in
        (v' : V) × (retry_from F p h (suc left) n last (b, (server, v))
          ≡ try_except h.factory (caught F h n d (retry_from F p h left (suc n))) (b, (server, v')))
  unfolding retry_from
  retry_round path left n last b server v s q early =
      let h = hooks F pages trip clock sleep draw p path in
      let (v', slept) = pause (wait_before F p r n) b server v s q in
      let request : Carrier → Async (World F pages trip) (List L) =
        λ d. try_except h.factory (caught F h n d (retry_from F p h left (suc n))) in
      let rest : Carrier → Async (World F pages trip) (List L) =
        λ d. (if lt F nought d then sleep d else pure tt) >> request d in
      (
        v',
        >>=-eq rest (delay_for F p n draw) (delay_for-draw n (b, (server, v)) early)
            ∙ >>=-eq (λ _. request (wait_before F p r n))
                (if lt F nought (wait_before F p r n) then sleep (wait_before F p r n) else pure tt)
                slept,
      )

  retry_from-gets :
      (path left : ℕ) (body : List L) (b : TokenBucket Carrier) (server : FlakyServer) (v : V)
      → Sleeps F clock sleep
      → Quiet
      → pages path ≡ some body
      → (v' : V) × (retry_from F p
            (hooks F pages trip clock sleep draw p path)
            (suc (suc left))
            1
            none
            (b, (server, v))
          ≡ (ok body, (b, (answered path server, v'))))
  unfolding get caught is_cancelled default_retryable is_exception
  retry_from-gets path left body b server v s q there =
      let (v1, first) = retry_round path (suc left) 1 none b server v s q (omega arith) in
      let asked : FlakyServer = record {
        seen = path ∷ server.seen;
        requests = suc server.requests;
        failures = suc server.failures;
      } in
      let (v2, second) =
        retry_round path left 2 (some connection_error) b asked (trip v1) s q (omega arith) in
      elim (Bool-cases (contains path server.seen)) [
        | inl known ↦ (trip v1, first ∙ ground (arith, known, there))
        | inr new ↦ (trip v2, first ∙ ground (arith, new, there, second))
      ]

  retry-gets :
      (path : ℕ) (body : List L) (b : TokenBucket Carrier) (server : FlakyServer) (v : V)
      → Sleeps F clock sleep
      → Quiet
      → 2 ≤ p.attempts
      → pages path ≡ some body
      → (v' : V) × (retry F p (hooks F pages trip clock sleep draw p path) (b, (server, v))
          ≡ (ok body, (b, (answered path server, v'))))
  unfolding retry
  retry-gets path body b server v s q more there =
      let left = p.attempts - 2 in
      let split : suc (suc left) ≡ p.attempts = omega (arith, more) in
      let (v', e) = retry_from-gets path left body b server v s q there in
      (
        v',
        subst
            (λ n.
              retry_from F p (hooks F pages trip clock sleep draw p path) n 1 none (b, (server, v))
              ≡ (ok body, (b, (answered path server, v'))))
            split e,
      )

  -- What a wait for a token leaves: the bucket's rate and capacity, and the server.
  abbrev Waits : TokenBucket Carrier → FlakyServer → World F pages trip → Type 0
  Waits b server s = SameShape b s × (s.1.0 ≡ server)

  Waits-IsKept :
      (b : TokenBucket Carrier) (server : FlakyServer)
      → Sleeps F clock sleep
      → Quiet
      → IsKept F clock sleep (Waits b server)
  Waits-IsKept b server s q =
      let k = SameShape-IsKept F clock sleep b s in
      record {
        at_refill = λ b' w (same, still). (k.at_refill b' w same, still);
        at_take = λ b' w tokens kept. kept;
        at_sleep = λ d u (same, still). (k.at_sleep d u same, q d u ∙ still);
      }

  -- The page, and the state that is left.
  abbrev pub Gets :
      {A : Type 0}
      → A
      → FlakyServer
      → TokenBucket Carrier
      → Option (Result A × World F pages trip)
      → Type 0
  Gets a server b o =
      (s : World F pages trip) × (o ≡ some (ok a, s)) × (s.1.0 ≡ server) × SameShape b s

  pub fetch-Gets :
      (fuel path : ℕ) (body : List L) (b : TokenBucket Carrier) (server : FlakyServer) (v : V)
      → MakesUp F clock sleep b.rate
      → Sleeps F clock sleep
      → Quiet
      → le one b.capacity ≡ true
      → 2 ≤ p.attempts
      → pages path ≡ some body
      → Gets body
          (answered path server)
          b
          (fetch F pages trip clock sleep draw p (suc (suc fuel)) path (b, (server, v)))
  unfolding fetch
  fetch-Gets fuel path body b server v m s q room more there =
      let (waited, (b', (server', v')), granted, (shape, still)) =
        acquire-keeps F clock sleep (Waits b server) fuel one b (server, v) m s room
          (Waits-IsKept b server s q) ((refl, refl), refl) in
      let (v2, e) = retry-gets path body b' server' v' s q more there in
      (
        (b', (answered path server', v2)),
        rw (granted, after_grant) (rw e refl),
        ap (answered path) still,
        shape,
      )
