-- ===== src/Streams/InOrder.antt =====
-- `amap` of aiolab/streams.py in order, against a plain loop that maps one item after the other.
use asyncio_tests.Base.{
  ℕ, suc, ◌≤◌, ◌<◌, ◌≡◌, refl, subst, ◌⊎◌, inl, inr, true, some, List, [], ◌∷◌, ◌++◌, length, arith,
}
use mathlib.Core.List.{append_assoc}
use asyncio_tests.Errors.{Result, ok, raised, Result-cases}
use asyncio_tests.Streams.Amap.{Amap, Batch, deliver, Outcome, after, amap}
use asyncio_tests.Streams.Rounds.{amap_rule}

module _ {A B : Type 0} where
  -- The plain loop: one item after the other, up to the first failure.
  abbrev pub serial : (A → Result B) → List A → List B × Result (Unit {0})
  serial fn [] = ([], ok tt)
  serial fn (x ∷ xs) = elim (fn x) [
    | ok v ↦ (let (vs, end) = serial fn xs in (v ∷ vs, end))
    | raised e ↦ ([], raised e)
  ]

  -- The outcome is the plain loop's, whatever is cancelled.
  abbrev pub SameAs : List B × Result (Unit {0}) → Outcome A B → Type 0
  SameAs (vs, end) o = (left : List A) × (o ≡ some (vs, end, left))

  -- One round, after filling.
  deliver-SameAs :
      (fn : A → Result B) (batch : Batch) (s : Amap A) (fl : List A) (rest : Amap A → Outcome A B)
      → (1 ≤ length fl) ⊎ (fl ++ s.items ≡ [])
      → ((ys : List A)
          → suc (length ys) ≤ length fl
          → SameAs (serial fn (ys ++ s.items)) (rest (record s { in_flight = ys })))
      → SameAs (serial fn (fl ++ s.items)) (after (deliver true fn batch s fl) rest)
  unfolding deliver
  deliver-SameAs fn batch s [] rest busy h = elim busy [
    | inl one ↦ absurd (omega arith)
    | inr none_left ↦ ([], rw none_left refl)
  ]
  deliver-SameAs fn batch s (x ∷ fl) rest busy h = elim (Result-cases (fn x)) [
    | inl (v, e) ↦ (let (left, q) = h fl (omega arith) in (left, rw (e, q) refl))
    | inr (exc, e) ↦ (fl, rw e refl)
  ]

  -- In order, and over a source that ends well, `amap` yields and ends as the plain loop does that
  -- maps one item after the other, whatever its concurrency, at least 1; one round more than there
  -- are items is enough.
  pub amap-SameAs-serial :
      (fn : A → Result B) (items : List A) (c : ℕ) (schedule : List Batch)
      → 1 ≤ c
      → length items < length schedule
      → SameAs (serial fn items) (amap (record { items = items; end = ok tt }) fn c true schedule)
  amap-SameAs-serial fn items c schedule pos enough =
      amap_rule (λ fl xs. SameAs (serial fn (fl ++ xs))) true fn c pos items schedule
        (deliver-SameAs fn)
        (λ fl zs xs o same. subst (λ us. SameAs (serial fn us) o) (append_assoc fl zs xs) same)
        enough
