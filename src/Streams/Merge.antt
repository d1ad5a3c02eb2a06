-- ===== src/Streams/Merge.antt =====
-- `merge` of aiolab/streams.py, consumed to its end. The sources are numbered; each that has not ended
-- has a read pending. The tasks in `done` are handled one by one, and what is read anew is in none of
-- them, so a run is a sequence of reads that end, one of a pending source each time.
use asyncio_tests.Base.{
  ℕ, zero, suc, Bool, true, false, Option, none, some, List, [], ◌∷◌, map, get_elem?, set,
  if◌then◌else◌,
}
use asyncio_tests.Errors.{Result, ok, raised}
use asyncio_tests.Streams.Source.{Feed}

module _ {A : Type 0} where
  -- `while pending` tests this.
  abbrev pub any_pending : List (Option (Feed A)) → Bool
  any_pending [] = false
  any_pending (none ∷ lanes) = any_pending lanes
  any_pending (some source ∷ lanes) = true

-- What has been yielded, each item with the number of its source, and how it ended.
abbrev pub Merged : Type 0 → Type 0
Merged A = Option (List (ℕ × A) × Result (Unit {0}))

-- What the end of one read comes to: an item with the number of its source, the end of a source, or
-- an exception.
pub data Landed (A : Type 0) : Type 0 where
  yields : ℕ → A → List (Option (Feed A)) → Landed A
  passes : List (Option (Feed A)) → Landed A
  fails : Result (Unit {0}) → Landed A

module _ {A : Type 0} where
  -- A source gives its next item, or its end.
  abbrev pub land_item : List (Option (Feed A)) → ℕ → Result (Unit {0}) → List A → Landed A
  land_item lanes p end (x ∷ xs) =
      yields p x (set lanes p (some (record { items = xs; end = end })))
  land_item lanes p (ok _) [] = passes (set lanes p none)
  land_item lanes p (raised e) [] = fails (raised e)

  -- The read of source `p` ends; of a source that has none pending, nothing can.
  unfoldable pub land : List (Option (Feed A)) → ℕ → Option (Option (Feed A)) → Landed A
  land lanes p (some (some source)) = land_item lanes p source.end source.items
  land lanes p _ = passes lanes

  abbrev pub with_item : ℕ → A → Merged A → Merged A
  with_item p x none = none
  with_item p x (some (later, end)) = some ((p, x) ∷ later, end)

  abbrev pub after_landing : Landed A → (List (Option (Feed A)) → Merged A) → Merged A
  after_landing (yields p x lanes) rest = with_item p x (rest lanes)
  after_landing (passes lanes) rest = rest lanes
  after_landing (fails end) rest = some ([], end)

  -- The loop on fuel; `choose` is the event loop's choice of the read that ends next.
  unfoldable pub merge_loop : (List (Option (Feed A)) → ℕ) → ℕ → List (Option (Feed A)) → Merged A
  unfolding land
  merge_loop choose zero lanes = none
  merge_loop choose (suc fuel) lanes =
      let rest =
        after_landing (land lanes (choose lanes) (get_elem? lanes (choose lanes)))
          (merge_loop choose fuel) in
      if any_pending lanes then rest else some ([], ok tt)

  unfoldable pub merge : (List (Option (Feed A)) → ℕ) → ℕ → List (Feed A) → Merged A
  unfolding merge_loop
  merge choose fuel sources = merge_loop choose fuel (map some sources)
