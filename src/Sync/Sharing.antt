-- ===== src/Sync/Sharing.antt =====
-- A call of `acquire` of aiolab/sync.py that waits, while others take tokens without waiting: each of its
-- rounds is a request as theirs are, and all together keep to the rate.
use asyncio_tests.Base.{
  ℕ, suc, ◌≡◌, refl, sym, ap, ◌∙◌, Bool, true, false, Option, some, List, [], ◌∷◌, ◌++◌, length,
  if◌then◌else◌, arith, Bool-cases, inl, inr,
}
use asyncio_tests.Errors.{Result, ok, raised, Async, cancelled}
use asyncio_tests.Float.{Float, lt}
use asyncio_tests.Sync.Bucket.{
  TokenBucket, refill, take, try_acquire, after_sleep, acquire_loop, acquire,
}
use asyncio_tests.Sync.Refill.{IsValid}
use asyncio_tests.Sync.Rate.{IsExact, serve, Forward, serve-le-rate}

module _ (F : Float) where
  open F use {Carrier, nought, add, sub, mul, div, le}

  -- What happens in each sleep of the call: requests of others, at their times, and the time at which it
  -- wakes. A sleep past the last of these is cancelled.
  abbrev pub Plan : Type 0
  Plan = List (List (Carrier × Carrier) × Carrier)

  abbrev pub World : Type 0
  World = Carrier × Plan

  abbrev pub now_of : World → Carrier
  now_of (now, plan) = now

  abbrev pub sleep_through : Carrier → Async (TokenBucket Carrier × World) (Unit {0})
  unfolding serve
  sleep_through pause (b, (now, [])) = (raised cancelled, (b, (now, [])))
  sleep_through pause (b, (now, (requests, wake) ∷ plan)) =
      (ok tt, ((serve F b requests).1, (wake, plan)))

  -- The requests that reach the bucket up to the end of the call, its own rounds among them.
  abbrev pub reaching : Carrier → TokenBucket Carrier → Carrier → Plan → List (Carrier × Carrier)
  unfolding serve try_acquire
  reaching amount b now [] = (now, amount) ∷ []
  reaching amount b now ((requests, wake) ∷ plan) =
      let (got, b') = try_acquire F b now amount in
      let rest = reaching amount (serve F b' requests).1 wake plan in
      (now, amount) ∷ (if got then [] else requests ++ rest)

  -- Whether the last round of the call finds its tokens; with no sleep left, it is cancelled else.
  abbrev pub is_granted : Carrier → TokenBucket Carrier → Carrier → Plan → Bool
  unfolding serve try_acquire
  is_granted amount b now [] = (try_acquire F b now amount).0
  is_granted amount b now ((requests, wake) ∷ plan) =
      let (got, b') = try_acquire F b now amount in
      let rest = is_granted amount (serve F b' requests).1 wake plan in if got then true else rest

  -- The call returns how long it waited, or is cancelled.
  abbrev pub Settles : Bool → Result Carrier → Type 0
  Settles true r = (waited : Carrier) × (r ≡ ok waited)
  Settles false r = r ≡ raised cancelled

  serve-append :
      (b : TokenBucket Carrier) (xs ys : List (Carrier × Carrier))
      → (serve F b (xs ++ ys)).1 ≡ (serve F (serve F b xs).1 ys).1
  unfolding serve
  serve-append b [] ys = refl
  serve-append b ((now, amount) ∷ xs) ys = serve-append (try_acquire F b now amount).1 xs ys

  -- The loop ends with the bucket that these requests leave.
  abbrev EndsAt :
      Bool → TokenBucket Carrier → Option (Result Carrier × (TokenBucket Carrier × World)) → Type 0
  EndsAt granted b o =
      (r : Result Carrier) × (w : World) × (o ≡ some (r, (b, w))) × Settles granted r

  granted_round :
      (fuel : ℕ) (amount waited : Carrier) (b : TokenBucket Carrier) (w : World)
      → (try_acquire F b (now_of w) amount).0 ≡ true
      → acquire_loop F now_of sleep_through (suc fuel) amount waited (b, w)
        ≡ some (ok waited, ((try_acquire F b (now_of w) amount).1, w))
  unfolding acquire_loop try_acquire take
  granted_round fuel amount waited b w got = ground (arith, got)

  refused_round :
      (fuel : ℕ) (amount waited : Carrier) (b : TokenBucket Carrier) (w : World)
      → (try_acquire F b (now_of w) amount).0 ≡ false
      → let b' = (try_acquire F b (now_of w) amount).1 in
        let pause = div (sub amount b'.tokens) b'.rate in
        acquire_loop F now_of sleep_through (suc fuel) amount waited (b, w)
        ≡ after_sleep
            (sleep_through pause (b', w))
            (acquire_loop F now_of sleep_through fuel amount (add waited pause))
  unfolding acquire_loop try_acquire take
  refused_round fuel amount waited b w got =
      let short : le amount (refill F b (now_of w)).tokens ≡ false = ground (arith, got) in
      rw short refl

  loop-EndsAt :
      (plan : Plan) (amount waited : Carrier) (b : TokenBucket Carrier) (now : Carrier)
      → EndsAt
          (is_granted amount b now plan)
          (serve F b (reaching amount b now plan)).1
          (acquire_loop F now_of sleep_through (suc (length plan)) amount waited (b, (now, plan)))
  unfolding serve reaching try_acquire
  loop-EndsAt [] amount waited b now = elim (Bool-cases (try_acquire F b now amount).0) [
    | inl got ↦
        rw got (ok waited, (now, []), granted_round 0 amount waited b (now, []) got, (waited, refl))
    | inr short ↦
        rw short
          (raised cancelled, (now, []), refused_round 0 amount waited b (now, []) short, refl)
  ]
  loop-EndsAt ((requests, wake) ∷ plan) amount waited b now =
      let b' = (try_acquire F b now amount).1 in
      let more = (requests, wake) ∷ plan in
      elim (Bool-cases (try_acquire F b now amount).0) [
        | inl got ↦ rw got (
          ok waited,
          (now, more),
          granted_round (suc (length plan)) amount waited b (now, more) got,
          (waited, refl),
        )
        | inr short ↦ rw short (
            let pause = div (sub amount b'.tokens) b'.rate in
            let (r, w, e, settled) =
              loop-EndsAt plan amount (add waited pause) (serve F b' requests).1 wake in
            (
              r,
              w,
              refused_round (suc (length plan)) amount waited b (now, more) short
                  ∙ e
                  ∙ ap (λ x. some (r, (x, w)))
                      (sym (
                        serve-append b' requests
                          (reaching amount (serve F b' requests).1 wake plan))),
              settled,
            ))
      ]

  -- In exact arithmetic, while the clock does not step back and no amount is negative: a call of `acquire`
  -- for an amount that fits the bucket ends after one round for each sleep and one more: it returns a time
  -- if a round finds its tokens, and is cancelled in a sleep if none does; its rounds and the requests of others that it sleeps through leave the bucket as requests that
  -- do not wait would; and all of them together, the call included, are granted no more tokens than the
  -- capacity and the rate times the time passed.
  pub acquire-le-rate :
      (x : IsExact F) (amount : Carrier) (b : TokenBucket Carrier) (now : Carrier) (plan : Plan)
      → IsValid F b
      → lt F b.capacity amount ≡ false
      → Forward F b.updated (reaching amount b now plan)
      → let (granted, left) = serve F b (reaching amount b now plan) in
        (r : Result Carrier) × (w : World) × (acquire F now_of sleep_through
            (suc (length plan))
            amount
            (b, (now, plan))
          ≡ some (r, (left, w)))
        × Settles (is_granted amount b now plan) r
        × (le granted (add b.capacity (mul (sub left.updated b.updated) b.rate)) ≡ true)
  unfolding acquire
  acquire-le-rate x amount b now plan v fits on =
      let (r, w, e, settled) = loop-EndsAt plan amount nought b now in
      (r, w, rw fits e, settled, serve-le-rate F x b (reaching amount b now plan) v on)
