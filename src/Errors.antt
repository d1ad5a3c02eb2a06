-- ===== src/Errors.antt =====
-- aiolab/errors.py, and Python's exceptions as values: what a coroutine returns or raises.
pub mod Message
use asyncio_tests.Base.{ℕ, ◌≡◌, ◌∙◌, ap, ◌⊎◌, inl, inr, refl, Bool, true, false, List, [], ◌∷◌}

-- An exception by its class. `system_exit` stands for the `BaseException`s that are no `Exception`,
-- no cancellation and no `KeyboardInterrupt`, `value_error` and the like for their subclasses too, and
-- `other` for every other `Exception`, by a number that tells instances apart.
mutual
  pub data Exn : Type 0 where
    cancelled keyboard_interrupt system_exit : Exn
    type_error value_error key_error attribute_error timeout_error : Exn
    overflow_error runtime_error assertion_error invalid_state_error : Exn
    other : ℕ → Exn
    concurrency_error : Errors → Exn
    pool_closed_error : Exn
    retry_error : ℕ → Exn → Exn

  pub data Errors : Type 0 where
    nil : Errors
    cons : Exn → Errors → Errors

abbrev pub errors_of : List Exn → Errors
errors_of [] = nil
errors_of (e ∷ es) = cons e (errors_of es)

-- `isinstance(exc, Exception)`
unfoldable pub is_exception : Exn → Bool
is_exception cancelled = false
is_exception keyboard_interrupt = false
is_exception system_exit = false
is_exception _ = true

-- `isinstance(exc, asyncio.CancelledError)`
unfoldable pub is_cancelled : Exn → Bool
is_cancelled cancelled = true
is_cancelled _ = false

pub data Result {ℓ} (A : Type ℓ) : Type ℓ where
  ok : A → Result A
  raised : Exn → Result A

-- To split on how a computed call ends.
pub Result-cases {ℓ} :
    {A : Type ℓ} (r : Result A) → ((a : A) × (r ≡ ok a)) ⊎ ((e : Exn) × (r ≡ raised e))
Result-cases (ok a) = inl (a, refl)
Result-cases (raised e) = inr (e, refl)

-- Outcomes that fail with `es`, and what follows them.
abbrev pub failing : {A : Type 0} → List Exn → List (Result A) → List (Result A)
failing [] rest = rest
failing (e ∷ es) rest = raised e ∷ failing es rest

-- A coroutine over the state `W` of all that it can change. An exception keeps the state.
abbrev pub Async : Type 0 → Type 0 → Type 0
Async W A = W → Result A × W

module _ {W A : Type 0} where
  abbrev pub pure : A → Async W A
  pure a w = (ok a, w)

  abbrev pub raise : Exn → Async W A
  raise e w = (raised e, w)

  -- `try: result = await body`, and what follows by how it ended.
  abbrev pub try_except : {B : Type 0} → Async W A → (Result A → Async W B) → Async W B
  try_except body handler w = let (r, w') = body w in handler r w'

infixl 5 ◌>>=◌ ◌>>◌
abbrev pub ◌>>=◌ : {W A B : Type 0} → Async W A → (A → Async W B) → Async W B
◌>>=◌ m f w = let (r, w') = m w in elim r [ ok a ↦ f a w' | raised e ↦ (raised e, w') ]

abbrev pub ◌>>◌ : {W A B : Type 0} → Async W A → Async W B → Async W B
m >> k = m >>= λ _. k

module _ {W A B : Type 0} (f : A → Async W B) where
  -- What follows the first part of a bind, by how that ends.
  abbrev pub after_bind : Result A × W → Result B × W
  after_bind (ok a, w) = f a w
  after_bind (raised e, w) = (raised e, w)

  bind_pair :
      (p : Result A × W) → elim p.0 [ ok a ↦ f a p.1 | raised e ↦ (raised e, p.1) ] ≡ after_bind p
  bind_pair (ok a, w) = refl
  bind_pair (raised e, w) = refl

  pub >>=-eq : (m : Async W A) {w : W} {p : Result A × W} → m w ≡ p → (m >>= f) w ≡ after_bind p
  >>=-eq m {w} e = bind_pair (m w) ∙ ap after_bind e
