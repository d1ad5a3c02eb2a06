-- ===== src/Errors/Message.antt =====
-- What `ConcurrencyError.__init__` of aiolab/errors.py puts in its message: how many errors there are, the
-- names of their classes in alphabetical order, each once, and the first error. A name is a number, its
-- place in that order.
use asyncio_tests.Base.{
  ℕ, ◌≡◌, ◌<◌, refl, ap, ◌∙◌, Bool, false, ◌||◌, ◌==◌, ltb, Option, none, some, List, [], ◌∷◌,
  length, map, if◌then◌else◌, arith, All, Bool-cases, inl, inr,
}
use asyncio_tests.Errors.{Exn}

-- `sorted({...})`
unfoldable pub insert : ℕ → List ℕ → List ℕ
insert n [] = n ∷ []
insert n (m ∷ ms) =
    let rest = insert n ms in if n == m then m ∷ ms else if ltb n m then n ∷ m ∷ ms else m ∷ rest

unfoldable pub sorted_set : List ℕ → List ℕ
unfolding insert
sorted_set [] = []
sorted_set (n ∷ ns) = insert n (sorted_set ns)

pub record Summary : Type 0 where
  pub count : ℕ
  pub classes : List ℕ
  pub first : Option Exn

abbrev pub head : List Exn → Option Exn
head [] = none
head (e ∷ es) = some e

module _ (class_name : Exn → ℕ) where
  unfoldable pub message : List Exn → Summary
  unfolding sorted_set
  message errors = record {
    count = length errors;
    classes = sorted_set (map class_name errors);
    first = head errors;
  }

-- Each name comes after those before it.
abbrev pub IsAbove : ℕ → List ℕ → Type 0
IsAbove n ms = All (λ m. n < m) ms

abbrev pub Ascends : List ℕ → Type 0
Ascends [] = Unit
Ascends (n ∷ ns) = IsAbove n ns × Ascends ns

abbrev pub has : ℕ → List ℕ → Bool
has n [] = false
has n (m ∷ ms) = n == m || has n ms

IsAbove-trans : (n m : ℕ) (ms : List ℕ) → n < m → IsAbove m ms → IsAbove n ms
IsAbove-trans n m [] h a = tt
IsAbove-trans n m (k ∷ ms) h a = (omega (arith, h, a.0), IsAbove-trans n m ms h a.1)

insert-IsAbove : (k n : ℕ) (ms : List ℕ) → k < n → IsAbove k ms → IsAbove k (insert n ms)
unfolding insert
insert-IsAbove k n [] h a = (h, tt)
insert-IsAbove k n (m ∷ ms) h a = elim (Bool-cases (n == m)) [
  | inl same ↦ rw same a
  | inr other ↦ rw other (elim (Bool-cases (ltb n m)) [
    | inl less ↦ rw less (h, a)
    | inr more ↦ rw more (a.0, insert-IsAbove k n ms h a.1)
  ])
]

insert-Ascends : (n : ℕ) (ms : List ℕ) → Ascends ms → Ascends (insert n ms)
unfolding insert
insert-Ascends n [] a = (tt, tt)
insert-Ascends n (m ∷ ms) a = elim (Bool-cases (n == m)) [
  | inl same ↦ rw same a
  | inr other ↦ rw other (elim (Bool-cases (ltb n m)) [
    | inl less ↦
        rw less (let h : n < m = ground (arith, less) in ((h, IsAbove-trans n m ms h a.0), a))
    | inr more ↦
        rw more (insert-IsAbove m n ms (ground (arith, other, more)) a.0, insert-Ascends n ms a.1)
  ])
]

has-insert : (k n : ℕ) (ms : List ℕ) → has k (insert n ms) ≡ (k == n || has k ms)
unfolding insert
has-insert k n [] = refl
has-insert k n (m ∷ ms) = ground (arith, has-insert k n ms)

sorted_set-Ascends : (ns : List ℕ) → Ascends (sorted_set ns)
unfolding sorted_set
sorted_set-Ascends [] = tt
sorted_set-Ascends (n ∷ ns) = insert-Ascends n (sorted_set ns) (sorted_set-Ascends ns)

has-sorted_set : (k : ℕ) (ns : List ℕ) → has k (sorted_set ns) ≡ has k ns
unfolding sorted_set
has-sorted_set k [] = refl
has-sorted_set k (n ∷ ns) =
    has-insert k n (sorted_set ns) ∙ ap (λ b. k == n || b) (has-sorted_set k ns)

-- The message names each class of which there is an error, and no other, in ascending order, each once.
pub message-names :
    (class_name : Exn → ℕ) (errors : List Exn) (name : ℕ)
    → Ascends (message class_name errors).classes
      × (has name (message class_name errors).classes ≡ has name (map class_name errors))
unfolding message
message-names class_name errors name =
    (sorted_set-Ascends (map class_name errors), has-sorted_set name (map class_name errors))
