-- ===== src/Streams/AnyOrder.antt =====
-- `amap` of aiolab/streams.py over tasks that all return.
use asyncio_tests.Base.{
  ℕ, ◌≤◌, ◌<◌, ◌≡◌, refl, ap, sym, subst, ◌∙◌, Bool, some, List, [], ◌∷◌, length, map,
}
use mathlib.Core.List.{Perm}
use mathlib.Core.List.Perm
use asyncio_tests.Errors.{Result, ok, raised}
use asyncio_tests.Streams.Amap.{Batch, Outcome, amap}
use asyncio_tests.Streams.EachOnce.{Ends, amap-EachOnce}

module _ {A B : Type 0} (f : A → B) where
  -- Tasks that all return.
  abbrev returns : A → Result B
  returns x = ok (f x)

  abbrev values : List (Result B) → List B
  values [] = []
  values (ok v ∷ rs) = v ∷ values rs
  values (raised e ∷ rs) = values rs

  values-ok : (vs : List B) → values (map ok vs) ≡ vs
  values-ok [] = refl
  values-ok (v ∷ vs) = ap (λ us. v ∷ us) (values-ok vs)

  values-returns : (xs : List A) → values (map returns xs) ≡ map f xs
  values-returns [] = refl
  values-returns (x ∷ xs) = ap (λ us. f x ∷ us) (values-returns xs)

  -- The run ends well, has cancelled nothing, and has yielded the value of each item.
  abbrev YieldsAll : List A → Outcome A B → Type 0
  YieldsAll all o = (vs : List B) × (o ≡ some (vs, ok tt, [])) × Perm vs (map f all)

  all_returned :
      (vs : List B) (end : Result (Unit {0})) (cancelled ran all : List A) (o : Outcome A B)
      → o ≡ some (vs, end, cancelled)
      → map returns ran ≡ map ok vs
      → Ends returns end ran cancelled [] all
      → YieldsAll all o
  all_returned vs (raised exc) cancelled ran all o e same (x, started, unread, fails, split, p) = cc
  all_returned vs (ok _) cancelled ran all o e same (p, none_left) = (
    vs,
    rw (e, none_left) refl,
    subst (λ us. Perm us (map f all)) (sym (values-returns ran) ∙ ap values same ∙ values-ok vs)
        (Perm.map f p),
  )

  -- As they come or in order, and over a source that ends well, with tasks that all return, `amap`
  -- yields the value of each item once, whatever its concurrency, at least 1, and whichever tasks are
  -- done first; it ends well and cancels nothing. One round more than there are items is enough.
  amap-YieldsAll :
      (ordered : Bool) (items : List A) (c : ℕ) (schedule : List Batch)
      → 1 ≤ c
      → length items < length schedule
      → YieldsAll items (amap (record { items = items; end = ok tt }) returns c ordered schedule)
  amap-YieldsAll ordered items c schedule pos enough =
      let (vs, end, cancelled, ran, e, same, p) =
        amap-EachOnce returns ordered items c schedule pos enough in
      all_returned vs end cancelled ran items _ e same p
