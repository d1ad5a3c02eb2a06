-- ===== src/Pipeline/Submitting.antt =====
-- The loop in `main` of examples/pipeline_demo.py that submits the batches, and the writers beside it.
use asyncio_tests.Base.{
  ℕ, ◌+◌, ◌≡◌, refl, ◌∙◌, true, Option, none, some, List, [], ◌∷◌, All, total, if_intro, arith,
}
use asyncio_tests.Queues.Pool.{WorkerPool}
use asyncio_tests.Queues.Events.{Event, submits, step}
use asyncio_tests.Queues.Joining.{step-IsExact}
use asyncio_tests.Queues.Holding.{accepted}
use asyncio_tests.Tasks.Scope.{is_empty}
use asyncio_tests.Pipeline.Writing.{Writer, advance, advance_all, submit_all}
use asyncio_tests.Pipeline.Written.{
  IsWorkers, AreWorkers, worker-IsMains, mains-IsOrderly, worker-accepted, worker-kept, IsOpen,
  tally, advance-tally,
}

module _ {B : Type 0} (weight : B → ℕ) where
  pub advance-worker :
      (w : Writer B) (e : Event B (Unit {0}))
      → IsWorkers e
      → tally weight (advance w e) ≡ tally weight w
  advance-worker w e h =
      let none_accepted : total weight (accepted w.pool e) ≡ 0 =
        rw (worker-accepted w.pool e h) refl in
      omega (arith, advance-tally weight w e (worker-IsMains e h), none_accepted)

  pub workers-tally :
      (w : Writer B) (es : List (Event B (Unit {0})))
      → AreWorkers es
      → tally weight (advance_all w es) ≡ tally weight w
  unfolding advance_all
  workers-tally w [] h = refl
  workers-tally w (e ∷ es) h = workers-tally (advance w e) es h.1 ∙ advance-worker w e h.0

  pub workers-IsOpen :
      (w : Writer B) (es : List (Event B (Unit {0})))
      → AreWorkers es
      → IsOpen w.pool
      → IsOpen (advance_all w es).pool
  unfolding advance_all advance
  workers-IsOpen w [] h v = v
  workers-IsOpen w (e ∷ es) h v = workers-IsOpen (advance w e) es h.1 (
    (worker-kept w.pool e h.0).0 ∙ v.0,
    step-IsExact w.pool e (mains-IsOrderly e (worker-IsMains e h.0)) v.1,
  )

  pub workers-putters :
      (w : Writer B) (es : List (Event B (Unit {0})))
      → AreWorkers es
      → w.pool.putters ≡ []
      → (advance_all w es).pool.putters ≡ []
  unfolding advance_all advance
  workers-putters w [] h v = v
  workers-putters w (e ∷ es) h v =
      workers-putters (advance w e) es h.1 ((worker-kept w.pool e h.0).1 v)

  submit-IsOpen : (p : WorkerPool B (Unit {0})) (b : B) → IsOpen p → IsOpen (step p (submits b))
  unfolding step
  submit-IsOpen p b v = (ground (arith, v.0), step-IsExact p (submits b) tt v.1)

  submit_one :
      (w : Writer B) (b : B) (turn : List (Event B (Unit {0})))
      → AreWorkers turn
      → IsOpen w.pool
      → IsOpen (advance_all w (submits b ∷ turn)).pool
        × (tally weight (advance_all w (submits b ∷ turn)) ≡ tally weight w + weight b)
  unfolding advance_all advance
  submit_one w b turn h v =
      let taken : total weight (accepted w.pool (submits b)) ≡ weight b = rw v.0 (omega arith) in
      (
        workers-IsOpen (advance w (submits b)) turn h (submit-IsOpen w.pool b v),
        omega (
          arith,
          workers-tally (advance w (submits b)) turn h,
          advance-tally weight w (submits b) tt,
          taken,
        ),
      )

  is_empty-nil : {A : Type 0} (xs : List A) → is_empty xs ≡ true → xs ≡ []
  is_empty-nil [] e = refl
  is_empty-nil (x ∷ xs) e = cc

  -- What the loop of `main` has come to, if it has ended.
  abbrev pub Submitted : Writer B → List B → Option (Writer B) → Type 0
  Submitted w bs none = Unit
  Submitted w bs (some w') =
      IsOpen w'.pool × (w'.pool.putters ≡ []) × (tally weight w' ≡ tally weight w + total weight bs)

  after_one :
      (w w' : Writer B) (b : B) (bs : List B) (o : Option (Writer B))
      → tally weight w' ≡ tally weight w + weight b
      → Submitted w' bs o
      → Submitted w (b ∷ bs) o
  after_one w w' b bs none t v = tt
  after_one w w' b bs (some x) t (o, n, e) = (o, n, omega (arith, t, e))

  pub submit_all-Submitted :
      (turns : List (List (Event B (Unit {0})))) (bs : List B) (w : Writer B)
      → All AreWorkers turns
      → IsOpen w.pool
      → w.pool.putters ≡ []
      → Submitted w bs (submit_all turns bs w)
  unfolding submit_all
  submit_all-Submitted turns [] w h v n = (v, n, omega arith)
  submit_all-Submitted [] (b ∷ bs) w h v n = tt
  submit_all-Submitted (turn ∷ turns) (b ∷ bs) w h v n =
      let w' = advance_all w (submits b ∷ turn) in
      let (ready, more) = submit_one w b turn h.0 v in
      if_intro (Submitted w (b ∷ bs)) (is_empty w'.pool.putters)
        (λ none_waiting.
          after_one w w' b bs (submit_all turns bs w') more (
            submit_all-Submitted turns bs w' h.1 ready (is_empty-nil w'.pool.putters none_waiting)))
        (λ waits. tt)
