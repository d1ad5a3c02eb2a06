-- ===== src/Retry/Refines.antt =====
-- `CircuitBreaker` of aiolab/retry.py against the machine that it implements.
use asyncio_tests.Base.{
  ℕ, ◌≡◌, refl, ap, ◌∙◌, Bool, Option, none, some, List, [], ◌∷◌, arith, inl, inr, Bool-cases,
}
use asyncio_tests.Errors.{Result, ok, raised, is_cancelled, is_exception}
use asyncio_tests.Float.{Float}
use asyncio_tests.Retry.Breaker.{
  CircuitBreaker, init, state, finish, record_success, record_failure,
}
use asyncio_tests.Retry.Tripping.{IsConsistent, success, failure, note-IsConsistent}
use asyncio_tests.Retry.Machine.{
  Mode, counting, Event, begins, ends, fail, after_event, mode_at, mode_of, admits, admitted,
  lets_through, ended, let_through,
}

module _ {R : Type 0} where
  -- The fields stand for the same mode after a failure.
  record_failure-fail :
      (b : CircuitBreaker R) (now : R) (o : Option R)
      → b.opened_at ≡ o
      → IsConsistent b
      → mode_of (record_failure b now) ≡ fail b.threshold now (mode_at b.failures o)
  unfolding record_failure
  record_failure-fail b now none e v = ground (arith, e, v.tripped)
  record_failure-fail b now (some t) e v = ground (arith, e, v.tripped)

  init-IsConsistent :
      (threshold : ℕ) (reset_after : R) (b : CircuitBreaker R)
      → init threshold reset_after ≡ ok b
      → IsConsistent b
        × (b.threshold ≡ threshold)
        × (b.reset_after ≡ reset_after)
        × (mode_of b ≡ counting 0)
  unfolding init
  init-IsConsistent threshold reset_after b e =
      (ground arith, ground arith, ground arith, ground arith)

  -- What the end of a call comes to.
  record Follows (b b' : CircuitBreaker R) (m : Mode R) : Type 0 where
    consistent : IsConsistent b'
    threshold : b'.threshold ≡ b.threshold
    reset_after : b'.reset_after ≡ b.reset_after
    mode : mode_of b' ≡ m

  failure-Follows :
      (b : CircuitBreaker R) (now : R)
      → IsConsistent b
      → Follows b (record_failure b now) (fail b.threshold now (mode_of b))
  unfolding record_failure
  failure-Follows b now c = record {
    consistent = note-IsConsistent b (failure now) c;
    threshold = ground arith;
    reset_after = ground arith;
    mode = record_failure-fail b now b.opened_at refl c;
  }

  same-Follows : (b : CircuitBreaker R) → IsConsistent b → Follows b b (mode_of b)
  same-Follows b c = record { consistent = c; threshold = refl; reset_after = refl; mode = refl }

module _ (F : Float) where
  open F use {Carrier, sub, le}

  lets_through-admits :
      (b : CircuitBreaker Carrier) (now : Carrier) (o : Option Carrier)
      → b.opened_at ≡ o
      → lets_through F b now ≡ admits F b.reset_after now (mode_at b.failures o)
  unfolding state
  lets_through-admits b now none e = ground (arith, e)
  lets_through-admits b now (some t) e = ground (arith, e)

  -- The same calls are let through, and the breaker ends in the machine's mode.
  abbrev Matches : List Bool × CircuitBreaker Carrier → List Bool × Mode Carrier → Type 0
  Matches (through, b) (through', m) = (through ≡ through') × (mode_of b ≡ m)

  module _ {A : Type 0} where
    ended-Follows :
        (b : CircuitBreaker Carrier) (r : Result A) (now : Carrier)
        → IsConsistent b
        → Follows b (ended F b r now) (after_event b.threshold (mode_of b) (ends r now))
    unfolding finish record_success
    ended-Follows b (ok v) now c = record {
      consistent = note-IsConsistent b success c;
      threshold = refl;
      reset_after = refl;
      mode = refl;
    }
    ended-Follows b (raised e) now c = elim (Bool-cases (is_cancelled e)) [
      | inl stop ↦ rw (stop, ended, finish) (same-Follows b c)
      | inr go ↦ elim (Bool-cases (is_exception e)) [
        | inl fails ↦ rw (go, fails, ended, finish) (failure-Follows b now c)
        | inr base ↦ rw (go, base, ended, finish) (same-Follows b c)
      ]
    ]

    let_through-Matches :
        (es : List (Event Carrier A)) (b : CircuitBreaker Carrier) (k : ℕ) (r : Carrier)
        (m : Mode Carrier)
        → IsConsistent b
        → b.threshold ≡ k
        → b.reset_after ≡ r
        → mode_of b ≡ m
        → Matches (let_through F es b) (admitted F k r es m)
    unfolding let_through
    let_through-Matches [] b k r m c ek er em = (refl, em)
    let_through-Matches (begins now ∷ es) b k r m c ek er em =
        let (through, last) = let_through-Matches es b k r m c ek er em in
        let first : lets_through F b now ≡ admits F r now m =
          lets_through-admits b now b.opened_at refl
          ∙ ap (λ x. admits F x now (mode_of b)) er
          ∙ ap (admits F r now) em in
        (rw (first, through) refl, last)
    let_through-Matches (ends out now ∷ es) b k r m c ek er em =
        let f = ended-Follows b out now c in
        let_through-Matches es (ended F b out now) k r (after_event k m (ends out now)) f.consistent
          (f.threshold ∙ ek) (f.reset_after ∙ er)
          (f.mode
            ∙ ap (λ n. after_event n (mode_of b) (ends out now)) ek
            ∙ ap (λ x. after_event k x (ends out now)) em)

    -- However calls of a new breaker interleave, with each other and with the ends of those that were let
    -- through, it lets through just those that the machine does, which counts the failures since the last
    -- success and refuses calls until `reset_after` after the failure that made them `threshold` and
    -- after each further one; and it ends in the same mode.
    pub let_through-Refines :
        (threshold : ℕ) (reset_after : Carrier) (b : CircuitBreaker Carrier)
        (es : List (Event Carrier A))
        → init threshold reset_after ≡ ok b
        → ((let_through F es b).0 ≡ (admitted F threshold reset_after es (counting 0)).0)
          × (mode_of (let_through F es b).1 ≡ (admitted F threshold reset_after es (counting 0)).1)
    let_through-Refines threshold reset_after b es made =
        let (c, ek, er, em) = init-IsConsistent threshold reset_after b made in
        let_through-Matches es b threshold reset_after (counting 0) c ek er em
