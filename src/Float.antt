-- ===== src/Float.antt =====
-- Python's floats, which the program computes with and does not implement: an interface. Each law
-- is one that IEEE doubles keep on values that are not NaN: rounding keeps the order.
use asyncio_tests.Base.{ℕ, suc, Bool, true, false, not, ◌≡◌, ◌⊎◌, if◌then◌else◌, arith}

pub record Float : Type 1 where
  pub Carrier : Type 0
  pub nought : Carrier
  pub one : Carrier
  pub add : Carrier → Carrier → Carrier
  pub sub : Carrier → Carrier → Carrier
  pub mul : Carrier → Carrier → Carrier
  pub div : Carrier → Carrier → Carrier
  -- `x ** n` at an integer `n`, and whether it raises `OverflowError` in place of that
  pub pow : Carrier → ℕ → Carrier
  pub overflows : Carrier → ℕ → Bool
  -- `x <= y`
  pub le : Carrier → Carrier → Bool
  pub le_refl : (a : Carrier) → le a a ≡ true
  pub le_trans : (a b c : Carrier) → le a b ≡ true → le b c ≡ true → le a c ≡ true
  pub le_total : (a b : Carrier) → (le a b ≡ true) ⊎ (le b a ≡ true)
  pub nought-le-one : le nought one ≡ true
  pub le-add : (a b : Carrier) → le nought b ≡ true → le a (add a b) ≡ true
  pub sub-nonneg : (a b : Carrier) → le a b ≡ true → le nought (sub b a) ≡ true
  pub sub-nonpos : (a b : Carrier) → le a b ≡ true → le (sub a b) nought ≡ true
  pub sub-le : (a b : Carrier) → le nought b ≡ true → le (sub a b) a ≡ true
  pub mul-nonneg :
      (a b : Carrier) → le nought a ≡ true → le nought b ≡ true → le nought (mul a b) ≡ true
  pub mul-le : (a r : Carrier) → le nought a ≡ true → le r one ≡ true → le (mul a r) a ≡ true
  pub mul-mono :
      (a b c : Carrier) → le nought a ≡ true → le b c ≡ true → le (mul a b) (mul a c) ≡ true
  -- `x ** 0` is 1, and `x ** 1` is `x`
  pub overflows-zero : (x : Carrier) → overflows x 0 ≡ false
  pub overflows-one : (x : Carrier) → overflows x 1 ≡ false
  pub pow-nonneg : (x : Carrier) (n : ℕ) → le nought x ≡ true → le nought (pow x n) ≡ true
  pub pow-mono : (x : Carrier) (n : ℕ) → le one x ≡ true → le (pow x n) (pow x (suc n)) ≡ true

module _ (F : Float) where
  open F use {Carrier, nought, le}

  -- `x < y`
  abbrev pub lt : Carrier → Carrier → Bool
  lt a b = not (le b a)

  -- Python's `min(a, b)` and `max(a, b)`: the first, unless the second is past it.
  abbrev pub min_of : Carrier → Carrier → Carrier
  min_of a b = if lt b a then b else a

  pub le-of_not_le : (a b : Carrier) → le b a ≡ false → le a b ≡ true
  le-of_not_le a b h = ground (arith, F.le_total a b)

  pub min_of-le_left : (a b : Carrier) → le (min_of a b) a ≡ true
  min_of-le_left a b = ground (arith, F.le_refl a, F.le_total a b)

  pub min_of-le_right : (a b : Carrier) → le (min_of a b) b ≡ true
  min_of-le_right a b = ground (arith, F.le_refl b, F.le_total a b)

  pub le-min_of : (a b c : Carrier) → le c a ≡ true → le c b ≡ true → le c (min_of a b) ≡ true
  le-min_of a b c p q = ground arith
