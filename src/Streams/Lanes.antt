-- ===== src/Streams/Lanes.antt =====
-- What `merge` of aiolab/streams.py yields of each source.
use asyncio_tests.Base.{
  ℕ, zero, suc, ◌≤◌, ◌<◌, ◌≡◌, refl, ◌∙◌, sym, true, false, Option, none, some, List, [], ◌∷◌, map,
  get_elem?, set, ◌==◌, total, total-set, All, All-set, if◌then◌else◌, if_intro, length, arith,
}
use asyncio_tests.Errors.{Result, ok, raised}
use asyncio_tests.Streams.Source.{Feed}
use asyncio_tests.Streams.Merge.{
  any_pending, land_item, land, Merged, after_landing, merge_loop, merge,
}

module _ {A : Type 0} where
  -- What source `p` has still to give.
  abbrev pub left_in : Option (Option (Feed A)) → List A
  left_in (some (some source)) = source.items
  left_in _ = []

  -- The items of source `p`, in the order in which they are yielded.
  abbrev pub of_source : ℕ → List (ℕ × A) → List A
  of_source p [] = []
  of_source p ((q, x) ∷ out) = if q == p then x ∷ of_source p out else of_source p out

  -- The event loop's choice is a source with a read pending, while there is one.
  abbrev pub Chooses : (List (Option (Feed A)) → ℕ) → Type 0
  Chooses choose =
      (lanes : List (Option (Feed A)))
      → any_pending lanes ≡ true
      → (source : Feed A) × (get_elem? lanes (choose lanes) ≡ some (some source))

  abbrev EndsWell : Option (Feed A) → Type 0
  EndsWell none = Unit
  EndsWell (some source) = source.end ≡ ok tt

  -- Reads that are still to end.
  abbrev reads : Option (Feed A) → ℕ
  reads none = 0
  reads (some source) = suc (length source.items)

  -- The run ends well, and yields of each source what it has to give.
  abbrev pub MergesAll : List (Option (Feed A)) → Merged A → Type 0
  MergesAll lanes o =
      (out : List (ℕ × A)) × (o ≡ some (out, ok tt))
      × ((p : ℕ) → of_source p out ≡ left_in (get_elem? lanes p))

  get_elem?-set :
      (lanes : List (Option (Feed A))) (p q : ℕ) (lane lane' : Option (Feed A))
      → get_elem? lanes p ≡ some lane
      → get_elem? (set lanes p lane') q ≡ (if p == q then some lane' else get_elem? lanes q)
  get_elem?-set [] p q lane lane' h = cc
  get_elem?-set (l ∷ lanes) zero zero lane lane' h = refl
  get_elem?-set (l ∷ lanes) zero (suc q) lane lane' h = ground arith
  get_elem?-set (l ∷ lanes) (suc p) zero lane lane' h = ground arith
  get_elem?-set (l ∷ lanes) (suc p) (suc q) lane lane' h =
      ground (arith, get_elem?-set lanes p q lane lane' h)

  nothing_left :
      (lanes : List (Option (Feed A))) (p : ℕ)
      → any_pending lanes ≡ false
      → left_in (get_elem? lanes p) ≡ []
  nothing_left [] p h = refl
  nothing_left (none ∷ lanes) zero h = refl
  nothing_left (none ∷ lanes) (suc p) h = nothing_left lanes p h
  nothing_left (some source ∷ lanes) p h = cc

  get-EndsWell :
      (lanes : List (Option (Feed A))) (p : ℕ) (source : Feed A)
      → All EndsWell lanes
      → get_elem? lanes p ≡ some (some source)
      → source.end ≡ ok tt
  get-EndsWell [] p source h e = cc
  get-EndsWell (some s ∷ lanes) zero source h e = ground (arith, h.0)
  get-EndsWell (none ∷ lanes) zero source h e = cc
  get-EndsWell (l ∷ lanes) (suc p) source h e = get-EndsWell lanes p source h.1 e

  landed-MergesAll :
      (lanes : List (Option (Feed A))) (p : ℕ) (end : Result (Unit {0})) (xs : List A)
      (rest : List (Option (Feed A)) → Merged A)
      → All EndsWell lanes
      → end ≡ ok tt
      → get_elem? lanes p ≡ some (some (record { items = xs; end = end }))
      → ((lanes' : List (Option (Feed A)))
          → All EndsWell lanes'
          → suc (total reads lanes') ≤ total reads lanes
          → MergesAll lanes' (rest lanes'))
      → MergesAll lanes (after_landing (land_item lanes p end xs) rest)
  landed-MergesAll lanes p (raised e) [] rest v well at h = cc
  landed-MergesAll lanes p (ok _) [] rest v well at h =
      let (out, e, each) =
        h (set lanes p none) (All-set EndsWell lanes p none tt v)
          (omega (arith, total-set reads lanes p _ none at)) in
      (out, e, λ q. each q ∙ ground (arith, get_elem?-set lanes p q _ none at))
  landed-MergesAll lanes p end (x ∷ xs) rest v well at h =
      let lane = some (record { items = xs; end = end }) in
      let (out, e, each) =
        h (set lanes p lane) (All-set EndsWell lanes p lane well v)
          (omega (arith, total-set reads lanes p _ lane at)) in
      ((p, x) ∷ out, rw e refl, λ q. ground (arith, each q, get_elem?-set lanes p q _ lane at))

  merge_loop-MergesAll :
      (choose : List (Option (Feed A)) → ℕ) (fuel : ℕ) (lanes : List (Option (Feed A)))
      → Chooses choose
      → All EndsWell lanes
      → total reads lanes < fuel
      → MergesAll lanes (merge_loop choose fuel lanes)
  unfolding merge_loop land
  merge_loop-MergesAll choose zero lanes c v enough = absurd (omega arith)
  merge_loop-MergesAll choose (suc fuel) lanes c v enough =
      if_intro (MergesAll lanes) (any_pending lanes)
        (λ more.
          let (source, at) = c lanes more in
          rw at (
            landed-MergesAll lanes (choose lanes) source.end source.items (merge_loop choose fuel) v
              (get-EndsWell lanes (choose lanes) source v at) at
              (λ lanes' v' fewer. merge_loop-MergesAll choose fuel lanes' c v' (omega arith))))
        (λ ended. ([], refl, λ p. sym (nothing_left lanes p ended)))

  All-some :
      (sources : List (Feed A)) → All (λ s. s.end ≡ ok tt) sources → All EndsWell (map some sources)
  All-some [] h = tt
  All-some (s ∷ sources) h = (h.0, All-some sources h.1)

  reads-some :
      (sources : List (Feed A))
      → total reads (map some sources) ≡ total (λ s. suc (length s.items)) sources
  reads-some [] = refl
  reads-some (s ∷ sources) = omega (arith, reads-some sources)

  -- If every source ends well, and the event loop always lets a pending read end, `merge` ends well,
  -- and what it yields of each source is just that source's items, in their order, however the reads
  -- of the sources interleave. Fuel for one round more than there are items and sources is enough.
  pub merge-MergesAll :
      (choose : List (Option (Feed A)) → ℕ) (fuel : ℕ) (sources : List (Feed A))
      → Chooses choose
      → All (λ s. s.end ≡ ok tt) sources
      → total (λ s. suc (length s.items)) sources < fuel
      → MergesAll (map some sources) (merge choose fuel sources)
  unfolding merge
  merge-MergesAll choose fuel sources c v enough =
      merge_loop-MergesAll choose fuel (map some sources) c (All-some sources v)
        (omega (arith, reads-some sources))
