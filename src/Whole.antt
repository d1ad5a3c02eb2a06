-- ===== src/Whole.antt =====
-- Whole numbers meet what is asked of floats, and of arithmetic without rounding: the instance at
-- which the theorems are run.
use Prim.Native.Nat.{◌^◌}
use native.Mathlib.Nat.{pow-suc}
use asyncio_tests.Base.{
  false, refl, ℕ, suc, ◌+◌, ◌-◌, ◌*◌, ◌/◌, ◌≤◌, ◌≡◌, ap, ◌⊎◌, true, leb, arith,
}
use asyncio_tests.Float.{Float}
use asyncio_tests.Sync.Rate.{IsExact}

leb-le : (a b : ℕ) → leb a b ≡ true → a ≤ b
leb-le a b h = ground arith

le-leb : (a b : ℕ) → a ≤ b → leb a b ≡ true
le-leb a b h = ground arith

pub refl_law : (a : ℕ) → leb a a ≡ true
refl_law a = ground arith

pub trans_law : (a b c : ℕ) → leb a b ≡ true → leb b c ≡ true → leb a c ≡ true
trans_law a b c p q = ground arith

pub total_law : (a b : ℕ) → (leb a b ≡ true) ⊎ (leb b a ≡ true)
total_law a b = ground arith

pub le-add_law : (a b : ℕ) → leb 0 b ≡ true → leb a (a + b) ≡ true
le-add_law a b h = ground arith

pub sub-nonneg_law : (a b : ℕ) → leb a b ≡ true → leb 0 (b - a) ≡ true
sub-nonneg_law a b h = ground arith

pub sub-nonpos_law : (a b : ℕ) → leb a b ≡ true → leb (a - b) 0 ≡ true
sub-nonpos_law a b h = ground arith

pub sub-le_law : (a b : ℕ) → leb 0 b ≡ true → leb (a - b) a ≡ true
sub-le_law a b h = ground arith

pub nonneg_law : (a : ℕ) → leb 0 a ≡ true
nonneg_law a = ground arith

pub mul-le_law : (a r : ℕ) → leb 0 a ≡ true → leb r 1 ≡ true → leb (a * r) a ≡ true
mul-le_law a r p h = le-leb _ _ (grind (arith, leb-le r 1 h))

pub mul-mono_law : (a b c : ℕ) → leb 0 a ≡ true → leb b c ≡ true → leb (a * b) (a * c) ≡ true
mul-mono_law a b c p h = le-leb _ _ (grind (arith, leb-le b c h))

pub pow-mono_law : (x n : ℕ) → leb 1 x ≡ true → leb (x ^ n) (x ^ suc n) ≡ true
pow-mono_law x n h = le-leb _ _ (rw pow-suc (grind (arith, leb-le 1 x h)))

abbrev pub whole : Float
whole = record {
  Carrier = ℕ;
  nought = 0;
  one = 1;
  add = ◌+◌;
  sub = ◌-◌;
  mul = ◌*◌;
  div = ◌/◌;
  pow = ◌^◌;
  overflows = λ x n. false;
  le = leb;
  le_refl = refl_law;
  le_trans = trans_law;
  le_total = total_law;
  nought-le-one = nonneg_law 1;
  le-add = le-add_law;
  sub-nonneg = sub-nonneg_law;
  sub-nonpos = sub-nonpos_law;
  sub-le = sub-le_law;
  mul-nonneg = λ a b _ _. nonneg_law (a * b);
  mul-le = mul-le_law;
  mul-mono = mul-mono_law;
  overflows-zero = λ x. refl;
  overflows-one = λ x. refl;
  pow-nonneg = λ x n _. nonneg_law (x ^ n);
  pow-mono = pow-mono_law;
}

pub add_comm_law : (a b : ℕ) → a + b ≡ b + a
add_comm_law a b = omega arith

pub add_assoc_law : (a b c : ℕ) → a + b + c ≡ a + (b + c)
add_assoc_law a b c = omega arith

pub add-mono_law : (a b c : ℕ) → leb b c ≡ true → leb (a + b) (a + c) ≡ true
add-mono_law a b c h = ground arith

pub add-sub_law : (a b : ℕ) → leb b a ≡ true → b + (a - b) ≡ a
add-sub_law a b h = ground arith

pub mul-sub_law :
    (a b c r : ℕ) → leb a b ≡ true → leb b c ≡ true → (b - a) * r + (c - b) * r ≡ (c - a) * r
mul-sub_law a b c r p q = omega (arith, ap (λ (t : ℕ). t * r) split)
  where
    split : (b - a) + (c - b) ≡ c - a
    split = omega (arith, leb-le a b p, leb-le b c q)

pub whole-IsExact : IsExact whole
whole-IsExact = record {
  add_comm = add_comm_law;
  add_assoc = add_assoc_law;
  nought-add = λ a. omega arith;
  add-mono = add-mono_law;
  add-sub = add-sub_law;
  mul-sub = mul-sub_law;
}
