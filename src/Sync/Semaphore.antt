-- ===== src/Sync/Semaphore.antt =====
-- `ResourcePool` of aiolab/sync.py seen as a semaphore, which says whether one may go on and not with
-- which resource: an abstract specification, and that the pool keeps to it.
use asyncio_tests.Base.{
  ℕ, zero, suc, ◌-◌, ◌≡◌, refl, ltb, true, false, Option, none, some, List, [], ◌∷◌, length,
  length-append, length-remove_at, get_elem?, if◌then◌else◌, arith, ◌∙◌, ap,
}
use asyncio_tests.Errors.{ok}
use asyncio_tests.Sync.Resources.{
  ResourcePool, Lent, Borrowing, enters, leaves, pool_of, lend, release, give_back, borrow,
  borrow_all,
}
use asyncio_tests.Sync.Lending.{borrow_all-pool_of-IsWhole, pool_of-IsWhole}

-- Permits that are free, and permits that are taken.
pub record Semaphore : Type 0 where
  pub free : ℕ
  pub taken : ℕ

-- A permit is taken if one is free, and one that is taken is given back.
abbrev pub use_permit : Semaphore → Borrowing → Semaphore
use_permit s enters = if ltb 0 s.free then record { free = s.free - 1; taken = suc s.taken } else s
use_permit s (leaves i) =
    if ltb i s.taken then record { free = suc s.free; taken = s.taken - 1 } else s

abbrev pub use_permits : Semaphore → List Borrowing → Semaphore
use_permits s [] = s
use_permits s (b ∷ bs) = use_permits (use_permit s b) bs

module _ {T : Type 0} where
  -- How many resources are free and lent, whichever they are.
  abbrev pub permits : Lent T → Semaphore
  permits l = record { free = length l.pool.free; taken = length l.held }

  permits-lend :
      (l : Lent T) (free : List T)
      → l.pool.free ≡ free
      → permits (lend l free) ≡ use_permit (permits l) enters
  unfolding lend
  permits-lend l [] e = ground (arith, ap length e)
  permits-lend l (r ∷ free) e = ground (arith, ap length e, length-append l.held (r ∷ []))

  get_elem?-lt :
      (xs : List T) (i : ℕ)
      → ltb i (length xs) ≡ (elim (get_elem? xs i) [ none ↦ false | some x ↦ true ])
  get_elem?-lt [] i = ground arith
  get_elem?-lt (x ∷ xs) zero = ground arith
  get_elem?-lt (x ∷ xs) (suc i) = ground (arith, get_elem?-lt xs i)

  permits-give_back :
      (l : Lent T) (i : ℕ) (o : Option T)
      → get_elem? l.held i ≡ o
      → permits (give_back l i o) ≡ use_permit (permits l) (leaves i)
  unfolding give_back release
  permits-give_back l i none e = ground (arith, get_elem?-lt l.held i)
  permits-give_back l i (some r) e =
      ground (arith, get_elem?-lt l.held i, length-remove_at l.held i r)

  permits-borrow : (l : Lent T) (b : Borrowing) → permits (borrow l b) ≡ use_permit (permits l) b
  unfolding borrow
  permits-borrow l enters = permits-lend l l.pool.free refl
  permits-borrow l (leaves i) = permits-give_back l i (get_elem? l.held i) refl

  permits-borrow_all :
      (l : Lent T) (bs : List Borrowing) → permits (borrow_all l bs) ≡ use_permits (permits l) bs
  unfolding borrow_all
  permits-borrow_all l [] = refl
  permits-borrow_all l (b ∷ bs) =
      permits-borrow_all (borrow l b) bs ∙ ap (λ s. use_permits s bs) (permits-borrow l b)

  permits-pool_of :
      (all : List T) (p : ResourcePool T)
      → pool_of all ≡ ok p
      → permits (record { pool = p; held = [] }) ≡ record { free = length all; taken = 0 }
  permits-pool_of all p e =
      let v = pool_of-IsWhole all p e in ground (arith, v.shared, v.counted, v.sized)

  -- A new pool of resources behaves as a semaphore with as many permits: whatever is borrowed and
  -- given back, as many resources are free and lent as permits are free and taken, and the pool's own
  -- count of those in use is that of the permits taken.
  pub pool_of-refines :
      (all : List T) (p : ResourcePool T) (bs : List Borrowing)
      → pool_of all ≡ ok p
      → let l = borrow_all (record { pool = p; held = [] }) bs in
        let s = use_permits (record { free = length all; taken = 0 }) bs in
        (permits l ≡ s) × (l.pool.in_use ≡ s.taken)
  pool_of-refines all p bs e =
      let new : Lent T = record { pool = p; held = [] } in
      let same = permits-borrow_all new bs ∙ ap (λ s. use_permits s bs) (permits-pool_of all p e) in
      (same, (borrow_all-pool_of-IsWhole all p bs e).counted ∙ ap (λ (s : Semaphore). s.taken) same)
