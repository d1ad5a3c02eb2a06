-- ===== src/Sync/Lending.antt =====
-- Where the resources of `ResourcePool` of aiolab/sync.py are, and whom `Once` gives what.
use asyncio_tests.Base.{
  ℕ, suc, ◌+◌, ◌≤◌, ◌≡◌, refl, true, false, Option, none, some, List, [], ◌∷◌, map, length,
  length-append, length-remove_at, get_elem?, arith, total, total-append, total-remove_at,
}
use asyncio_tests.Errors.{Exn, Result, ok, raised, failing}
use asyncio_tests.Sync.Resources.{
  ResourcePool, Lent, Borrowing, enters, leaves, stacked, pool_of, lend, release, give_back, borrow,
  borrow_all, Once, fresh, run_once, run_each,
}

-- However its entries are weighed, free and lent resources are those that the pool was made with.
pub record IsWhole {T : Type 0} (all : List T) (l : Lent T) : Type 0 where
  pub kept : (w : T → ℕ) → total w l.pool.free + total w l.held ≡ total w all
  pub counted : l.pool.in_use ≡ length l.held
  pub peaked : l.pool.in_use ≤ l.pool.peak_in_use
  pub sized : l.pool.size ≡ length all
  pub bounded : l.pool.peak_in_use ≤ l.pool.size
  pub shared : length l.pool.free + l.pool.in_use ≡ l.pool.size

module _ {T : Type 0} where
  total-stacked :
      (w : T → ℕ) (free rs : List T) → total w (stacked free rs) ≡ total w free + total w rs
  total-stacked w free [] = omega arith
  total-stacked w free (r ∷ rs) = omega (arith, total-stacked w (r ∷ free) rs)

  length-stacked : (free rs : List T) → length (stacked free rs) ≡ length free + length rs
  length-stacked free [] = omega arith
  length-stacked free (r ∷ rs) = omega (arith, length-stacked (r ∷ free) rs)

  lend-IsWhole :
      (all : List T) (l : Lent T) (free : List T)
      → l.pool.free ≡ free
      → IsWhole all l
      → IsWhole all (lend l free)
  unfolding lend
  lend-IsWhole all l [] e v = v
  lend-IsWhole all l (r ∷ free) e v = record {
    kept = λ w. ground (arith, v.kept w, total-append w l.held (r ∷ []));
    counted = ground (arith, v.counted, length-append l.held (r ∷ []));
    peaked = ground arith;
    sized = v.sized;
    bounded = ground (arith, v.bounded, v.shared);
    shared = ground (arith, v.shared);
  }

  give_back-IsWhole :
      (all : List T) (l : Lent T) (i : ℕ) (o : Option T)
      → get_elem? l.held i ≡ o
      → IsWhole all l
      → IsWhole all (give_back l i o)
  unfolding give_back release
  give_back-IsWhole all l i none e v = v
  give_back-IsWhole all l i (some r) e v =
      let fewer = length-remove_at l.held i r e in
      record {
        kept = λ w. omega (arith, v.kept w, total-remove_at w l.held i r e);
        counted = omega (arith, v.counted, fewer);
        peaked = omega (arith, v.peaked);
        sized = v.sized;
        bounded = v.bounded;
        shared = omega (arith, v.shared, v.counted, fewer);
      }

  borrow-IsWhole :
      (all : List T) (l : Lent T) (b : Borrowing) → IsWhole all l → IsWhole all (borrow l b)
  unfolding borrow
  borrow-IsWhole all l enters v = lend-IsWhole all l l.pool.free refl v
  borrow-IsWhole all l (leaves i) v = give_back-IsWhole all l i (get_elem? l.held i) refl v

  borrow_all-IsWhole :
      (all : List T) (l : Lent T) (bs : List Borrowing)
      → IsWhole all l
      → IsWhole all (borrow_all l bs)
  unfolding borrow_all
  borrow_all-IsWhole all l [] v = v
  borrow_all-IsWhole all l (b ∷ bs) v =
      borrow_all-IsWhole all (borrow l b) bs (borrow-IsWhole all l b v)

  pub pool_of-IsWhole :
      (all : List T) (p : ResourcePool T)
      → pool_of all ≡ ok p
      → IsWhole all (record { pool = p; held = [] })
  unfolding pool_of
  pool_of-IsWhole [] p e = cc
  pool_of-IsWhole (r ∷ rs) p e = record {
    kept = λ w. ground (arith, total-stacked w [] (r ∷ rs));
    counted = ground arith;
    peaked = ground arith;
    sized = ground arith;
    bounded = ground arith;
    shared = ground (arith, length-stacked [] (r ∷ rs));
  }

  -- Whoever borrows from a new pool and gives back, each of its resources is free or lent, as often as
  -- the pool was given it; those lent are counted, and never more than the peak, nor that than the
  -- pool's size.
  pub borrow_all-pool_of-IsWhole :
      (all : List T) (p : ResourcePool T) (bs : List Borrowing)
      → pool_of all ≡ ok p
      → IsWhole all (borrow_all (record { pool = p; held = [] }) bs)
  borrow_all-pool_of-IsWhole all p bs e = borrow_all-IsWhole all _ bs (pool_of-IsWhole all p e)

  abbrev pub filled : T → ℕ → Once T
  filled v n = record { done = true; result = some v; calls = n }

  -- Once the flag is set the factory of no caller runs.
  run_each-filled :
      (v : T) (n : ℕ) (rs : List (Result T))
      → run_each (filled v n) rs ≡ (map (λ _. ok (some v)) rs, filled v n)
  unfolding run_each run_once
  run_each-filled v n [] = refl
  run_each-filled v n (ok u ∷ rs) = rw (run_each-filled v n rs)
  run_each-filled v n (raised e ∷ rs) = rw (run_each-filled v n rs)

  run_each-failing :
      (n : ℕ) (es : List Exn) (v : T) (rest : List (Result T))
      → run_each (record { done = false; result = none; calls = n }) (failing es (ok v ∷ rest))
        ≡ (failing es (map (λ _. ok (some v)) (ok v ∷ rest)), filled v (suc (n + length es)))
  unfolding run_each run_once
  run_each-failing n [] v rest = ground (arith, run_each-filled v (suc n) rest)
  run_each-failing n (e ∷ es) v rest = ground (arith, run_each-failing (suc n) es v rest)

  -- Callers whose factories fail get just their own errors, each from its own run; the first whose
  -- factory returns gives its value to all that follow, and no factory runs after it.
  pub run_each-fresh :
      (es : List Exn) (v : T) (rest : List (Result T))
      → run_each fresh (failing es (ok v ∷ rest))
        ≡ (failing es (map (λ _. ok (some v)) (ok v ∷ rest)), filled v (suc (length es)))
  unfolding fresh
  run_each-fresh es v rest = ground (arith, run_each-failing 0 es v rest)
