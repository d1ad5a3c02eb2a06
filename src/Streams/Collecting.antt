-- ===== src/Streams/Collecting.antt =====
-- What `collect` of aiolab/streams.py returns, and what it leaves in its source.
use asyncio_tests.Base.{
  ◌≤◌, ◌<◌, ◌⊎◌, ◌||◌, inl, inr, Bool-cases, ℕ, zero, suc, ◌+◌, ◌-◌, ◌≡◌, refl, ◌∙◌, leb, none,
  some, List, [], ◌∷◌, ◌++◌, length, length-append, take, drop, if◌then◌else◌, arith,
}
use mathlib.Core.List.{append-nil, append_assoc}
use asyncio_tests.Errors.{Result, ok, raised}
use asyncio_tests.Streams.Source.{Source, ended_with, collect_loop, close, collect}

module _ {A : Type 0} where
  collect_all :
      (end : Result (Unit {0})) (out xs : List A)
      → collect_loop none end out xs ≡ (ended_with end (out ++ xs), [])
  unfolding collect_loop
  collect_all end out [] = rw (append-nil out) refl
  collect_all end out (x ∷ xs) =
      collect_all end (out ++ x ∷ []) xs ∙ rw (append_assoc out (x ∷ []) xs)

  -- With `left` items to go before the limit.
  collect_up_to :
      (end : Result (Unit {0})) (limit left : ℕ) (out xs : List A)
      → length out + suc left ≡ limit
      → collect_loop (some limit) end out xs ≡ (
          if leb (suc left) (length xs)
          then (ok (out ++ take (suc left) xs), drop (suc left) xs)
          else (ended_with end (out ++ xs), []))
  unfolding collect_loop
  collect_up_to end limit left out [] h = rw (append-nil out) (ground arith)
  collect_up_to end limit zero out (x ∷ xs) h = ground (arith, length-append out (x ∷ []))
  collect_up_to end limit (suc left) out (x ∷ xs) h = ground (
    arith,
    length-append out (x ∷ []),
    collect_up_to end limit left (out ++ x ∷ []) xs,
    append_assoc out (x ∷ []) (take (suc left) xs),
    append_assoc out (x ∷ []) xs,
  )

  -- A limit of 0 works as 1 does.
  collect_loop_limited :
      (end : Result (Unit {0})) (limit : ℕ) (xs : List A)
      → let n = suc (limit - 1) in
        collect_loop (some limit) end [] xs
        ≡ (if leb n (length xs) then (ok (take n xs), drop n xs) else (ended_with end xs, []))
  unfolding collect_loop
  collect_loop_limited end zero [] = ground arith
  collect_loop_limited end zero (x ∷ xs) = ground arith
  collect_loop_limited end (suc k) xs = ground (arith, collect_up_to end (suc k) k [] xs)

  -- All items, or what the source raised after them.
  abbrev pub Gives : Result (Unit {0}) → List A → Result (List A) → Type 0
  Gives (ok _) xs r = r ≡ ok xs
  Gives (raised e) xs r = r ≡ raised e

  ended_with-Gives : (end : Result (Unit {0})) (xs : List A) → Gives end xs (ended_with end xs)
  ended_with-Gives (ok _) xs = refl
  ended_with-Gives (raised e) xs = refl

  -- The source with just these items left, and closed if it can be.
  abbrev pub Closes : Source A → List A → Source A → Type 0
  Closes s left t =
      (t.feed.items ≡ left) × (t.feed.end ≡ s.feed.end) × (t.closed ≡ s.has_aclose || s.closed)

  close-Closes : (s : Source A) (left : List A) → Closes s left (close s left)
  close-Closes s left = ground arith

  -- `collect` with a limit returns that many items from the front of the source, one for a limit of
  -- 0, and leaves the others in it, if the source has as many; else, and without a limit, it returns
  -- all items if the source ends well and raises what the source raises. A source that can be closed
  -- is closed in each case.
  pub collect_lem :
      (s : Source A) (limit : ℕ)
      → let n = suc (limit - 1) in
        let xs = s.feed.items in
        let (all, after) = collect s none in
        let (some_items, after_limit) = collect s (some limit) in
        (Gives s.feed.end xs all × Closes s [] after)
        × ((n ≤ length xs) × (some_items ≡ ok (take n xs)) × Closes s (drop n xs) after_limit
            ⊎ (length xs < n) × Gives s.feed.end xs some_items × Closes s [] after_limit)
  unfolding collect
  collect_lem s limit = (
    rw (collect_all s.feed.end [] s.feed.items)
        (ended_with-Gives s.feed.end s.feed.items, close-Closes s []),
    rw (collect_loop_limited s.feed.end limit s.feed.items)
        (elim (Bool-cases (leb (suc (limit - 1)) (length s.feed.items))) [
          | inl enough ↦ rw enough (
              inl (
                ground (arith, enough),
                refl,
                close-Closes s (drop (suc (limit - 1)) s.feed.items),
              ))
          | inr few ↦ rw few (
              inr
                (ground (arith, few), ended_with-Gives s.feed.end s.feed.items, close-Closes s []))
        ]),
  )
