-- ===== src/Futures/Settling.antt =====
-- Which callback settles the bridge of aiolab/futures.py.
use asyncio_tests.Base.{
  ◌≡◌, refl, ap, ◌⊎◌, inl, inr, ◌∙◌, Bool, true, Option, none, some, List, [], ◌∷◌, ◌++◌, if_intro,
}
use asyncio_tests.Errors.{Exn, ok, raised}
use asyncio_tests.Tasks.Group.{Task, pending, done}
use asyncio_tests.Futures.Bridge.{
  settle, CallbackBridge, Signal, resolves, rejects, ticks, bridge, dispatch, resolve, reject,
  settle_all, tick, signal, signals,
}

module _ {A : Type 0} where
  -- What the first of the signals that is a callback settles the future with.
  abbrev pub first_of : List (Signal A) → Task (Option A)
  first_of [] = pending
  first_of (resolves v ∷ ss) = done (ok (some v))
  first_of (rejects e ∷ ss) = done (raised e)
  first_of (ticks ∷ ss) = first_of ss

  abbrev or_else : Task (Option A) → Task (Option A) → Task (Option A)
  or_else (done r) later = done r
  or_else pending later = later

  settle_all-append :
      (f : Task (Option A)) (calls : List (Option A × Option Exn)) (r : Option A) (e : Option Exn)
      → settle_all f (calls ++ (r, e) ∷ []) ≡ (settle (settle_all f calls) r e).1
  unfolding settle_all
  settle_all-append f [] r e = refl
  settle_all-append f ((r', e') ∷ calls) r e = settle_all-append (settle f r' e').1 calls r e

  -- What the future will be settled with once the scheduled calls have run.
  abbrev due : CallbackBridge A → Task (Option A)
  due b = settle_all b.future b.scheduled

  -- Only a bridge that is called from threads has calls scheduled.
  abbrev Direct : CallbackBridge A → Type 0
  Direct b = (b.from_thread ≡ true) ⊎ (b.scheduled ≡ [])

  settle-or_else :
      (f : Task (Option A)) (r : Option A) (e : Option Exn)
      → (settle f r e).1 ≡ or_else f (settle pending r e).1
  unfolding settle
  settle-or_else (done v) r e = refl
  settle-or_else pending r e = refl

  dispatch-due :
      (b : CallbackBridge A) (r : Option A) (e : Option Exn)
      → Direct b
      → (due (dispatch b r e) ≡ or_else (due b) (settle pending r e).1) × Direct (dispatch b r e)
  unfolding dispatch settle_all
  dispatch-due b r e d =
      if_intro (λ b'. (due b' ≡ or_else (due b) (settle pending r e).1) × Direct b') b.from_thread
        (λ threaded. (
          settle_all-append b.future b.scheduled r e
              ∙ settle-or_else (settle_all b.future b.scheduled) r e,
          inl threaded,
        ))
        (λ direct. elim d [
          | inl threaded ↦ cc
          | inr s ↦ (rw s (settle-or_else b.future r e), inr s)
        ])

  or_else_pending : (f : Task (Option A)) → f ≡ or_else f pending
  or_else_pending (done r) = refl
  or_else_pending pending = refl

  signal-due :
      (b : CallbackBridge A) (s : Signal A)
      → Direct b
      → (due (signal b s) ≡ or_else (due b) (first_of (s ∷ []))) × Direct (signal b s)
  unfolding signal settle_all settle resolve reject tick
  signal-due b (resolves v) d = dispatch-due b (some v) none d
  signal-due b (rejects e) d = dispatch-due b none (some e) d
  signal-due b ticks d = (or_else_pending (due b), inr refl)

  or_else_assoc : (f g h : Task (Option A)) → or_else (or_else f g) h ≡ or_else f (or_else g h)
  or_else_assoc (done r) g h = refl
  or_else_assoc pending g h = refl

  first_of_cons :
      (s : Signal A) (ss : List (Signal A))
      → or_else (first_of (s ∷ [])) (first_of ss) ≡ first_of (s ∷ ss)
  first_of_cons (resolves v) ss = refl
  first_of_cons (rejects e) ss = refl
  first_of_cons ticks ss = refl

  signals-due :
      (b : CallbackBridge A) (ss : List (Signal A))
      → Direct b
      → due (signals b ss) ≡ or_else (due b) (first_of ss)
  unfolding signals
  signals-due b [] d = or_else_pending (due b)
  signals-due b (s ∷ ss) d =
      let (e, d') = signal-due b s d in
      signals-due (signal b s) ss d'
      ∙ ap (λ f. or_else f (first_of ss)) e
      ∙ or_else_assoc (due b) (first_of (s ∷ [])) (first_of ss)
      ∙ ap (or_else (due b)) (first_of_cons s ss)

  -- Once what is scheduled has run, the future of a new bridge is settled by the first of the
  -- callbacks, whether they come from threads or not, and by no later one; with none it is pending.
  first_callback_wins :
      (from_thread : Bool) (ss : List (Signal A))
      → (tick (signals (bridge from_thread) ss)).future ≡ first_of ss
  unfolding tick bridge settle_all
  first_callback_wins from_thread ss = signals-due (bridge from_thread) ss (inr refl)
