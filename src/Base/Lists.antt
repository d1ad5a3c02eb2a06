-- ===== src/Base/Lists.antt =====
-- Lists measured and indexed by native numbers, under the library's names.
use Prim.Native.Nat.{ℕ, zero, suc, ◌+◌, ◌≤◌}
use mathlib.Core.Path.{◌≡◌, refl, ap}
use mathlib.Core.List.{List, [], ◌∷◌, ◌++◌, map}
use mathlib.Core.Option.{Option, none, some}
use native.Mathlib.Omega.{arith}

module _ {ℓ} {A : Type ℓ} where
  abbrev pub length : List A → ℕ
  length [] = 0
  length (x ∷ xs) = suc (length xs)

  abbrev pub get_elem? : List A → ℕ → Option A
  get_elem? [] i = none
  get_elem? (x ∷ xs) zero = some x
  get_elem? (x ∷ xs) (suc i) = get_elem? xs i

  -- A write out of bounds changes nothing.
  abbrev pub set : List A → ℕ → A → List A
  set [] i v = []
  set (x ∷ xs) zero v = v ∷ xs
  set (x ∷ xs) (suc i) v = x ∷ set xs i v

  abbrev pub replicate : ℕ → A → List A
  replicate zero a = []
  replicate (suc n) a = a ∷ replicate n a

  abbrev pub take : ℕ → List A → List A
  take zero xs = []
  take (suc n) [] = []
  take (suc n) (x ∷ xs) = x ∷ take n xs

  abbrev pub drop : ℕ → List A → List A
  drop zero xs = xs
  drop (suc n) [] = []
  drop (suc n) (x ∷ xs) = drop n xs

  pub length-append : (xs ys : List A) → length (xs ++ ys) ≡ length xs + length ys
  length-append [] ys = omega arith
  length-append (x ∷ xs) ys = omega (arith, length-append xs ys)

  abbrev pub remove_at : List A → ℕ → List A
  remove_at [] i = []
  remove_at (x ∷ xs) zero = xs
  remove_at (x ∷ xs) (suc i) = x ∷ remove_at xs i

  pub length-remove_at :
      (xs : List A) (i : ℕ) (x : A)
      → get_elem? xs i ≡ some x
      → suc (length (remove_at xs i)) ≡ length xs
  length-remove_at [] i x e = cc
  length-remove_at (y ∷ xs) zero x e = refl
  length-remove_at (y ∷ xs) (suc i) x e = ap suc (length-remove_at xs i x e)

  pub length-set : (xs : List A) (i : ℕ) (v : A) → length (set xs i v) ≡ length xs
  length-set [] i v = refl
  length-set (x ∷ xs) zero v = refl
  length-set (x ∷ xs) (suc i) v = ap suc (length-set xs i v)

  pub length-remove_at-le : (xs : List A) (i : ℕ) → length (remove_at xs i) ≤ length xs
  length-remove_at-le [] i = omega arith
  length-remove_at-le (y ∷ xs) zero = omega arith
  length-remove_at-le (y ∷ xs) (suc i) = omega (arith, length-remove_at-le xs i)

-- A predicate on every entry.
module _ {ℓ κ} {A : Type ℓ} where
  abbrev pub All : (A → Type κ) → List A → Type κ
  All P [] = Unit
  All P (x ∷ xs) = P x × All P xs

  pub All-append : (P : A → Type κ) (xs ys : List A) → All P xs → All P ys → All P (xs ++ ys)
  All-append P [] ys hx hy = hy
  All-append P (x ∷ xs) ys hx hy = (hx.0, All-append P xs ys hx.1 hy)

  pub All-remove_at : (P : A → Type κ) (xs : List A) (i : ℕ) → All P xs → All P (remove_at xs i)
  All-remove_at P [] i h = h
  All-remove_at P (x ∷ xs) zero h = h.1
  All-remove_at P (x ∷ xs) (suc i) h = (h.0, All-remove_at P xs i h.1)

  pub All-set : (P : A → Type κ) (xs : List A) (i : ℕ) (a : A) → P a → All P xs → All P (set xs i a)
  All-set P [] i a p h = h
  All-set P (x ∷ xs) zero a p h = (p, h.1)
  All-set P (x ∷ xs) (suc i) a p h = (h.0, All-set P xs i a p h.1)

  pub All-mono : (P Q : A → Type κ) → ((a : A) → P a → Q a) → (xs : List A) → All P xs → All Q xs
  All-mono P Q f [] h = h
  All-mono P Q f (x ∷ xs) h = (f x h.0, All-mono P Q f xs h.1)

-- The sum of a weight over a list.
module _ {ℓ} {A : Type ℓ} (w : A → ℕ) where
  abbrev pub total : List A → ℕ
  total [] = 0
  total (x ∷ xs) = w x + total xs

  pub total-append : (xs ys : List A) → total (xs ++ ys) ≡ total xs + total ys
  total-append [] ys = omega arith
  total-append (x ∷ xs) ys = omega (arith, total-append xs ys)

  -- A write at an index replaces the old entry's weight by the new one's.
  pub total-set :
      (xs : List A) (i : ℕ) (a b : A)
      → get_elem? xs i ≡ some a
      → total (set xs i b) + w a ≡ total xs + w b
  total-set [] i a b e = cc
  total-set (x ∷ xs) zero a b e = ground arith
  total-set (x ∷ xs) (suc i) a b e = omega (arith, total-set xs i a b e)

  pub total-replicate_zero : (n : ℕ) (a : A) → w a ≡ 0 → total (replicate n a) ≡ 0
  total-replicate_zero zero a h = refl
  total-replicate_zero (suc n) a h = omega (arith, h, total-replicate_zero n a h)

  pub total-remove_at :
      (xs : List A) (i : ℕ) (a : A)
      → get_elem? xs i ≡ some a
      → total (remove_at xs i) + w a ≡ total xs
  total-remove_at [] i a e = cc
  total-remove_at (x ∷ xs) zero a e = ground arith
  total-remove_at (x ∷ xs) (suc i) a e = omega (arith, total-remove_at xs i a e)

  pub total-map :
      (f : A → A) → ((a : A) → w (f a) ≡ w a) → (xs : List A) → total (map f xs) ≡ total xs
  total-map f h [] = refl
  total-map f h (x ∷ xs) = omega (arith, h x, total-map f h xs)
