-- ===== src/Streams/EachOnce.antt =====
-- `amap` of aiolab/streams.py, whatever its tasks do: what becomes of each item of the source.
use asyncio_tests.Base.{
  ℕ, zero, suc, ◌≤◌, ◌<◌, ◌≡◌, refl, ◌∙◌, ap, sym, subst, ◌⊎◌, inl, inr, Bool, true, false, some,
  List, [], ◌∷◌, ◌++◌, length, map, arith,
}
use mathlib.Core.List.{map-append, append_assoc, append-nil}
use mathlib.Core.List.{Perm}
use mathlib.Core.List.Perm
use asyncio_tests.Errors.{Result, ok, raised, Result-cases}
use asyncio_tests.Streams.Amap.{
  Amap, Batch, close_round, deliver, finish, Outcome, after, amap, pick, hand_over,
}
use asyncio_tests.Streams.InFlight.{length-pick}
use asyncio_tests.Streams.Rounds.{amap_rule}

module _ {A : Type 0} where
  pick-Perm : (n : ℕ) (x : A) (fl : List A) → Perm ((pick n x fl).0 ∷ (pick n x fl).1) (x ∷ fl)
  unfolding pick
  pick-Perm zero x fl = Perm.rfl
  pick-Perm (suc n) x [] = Perm.rfl
  pick-Perm (suc n) x (y ∷ fl) = Perm.trans (Perm.swap x _ _) (Perm.cons x (pick-Perm n y fl))

  -- The items of one round, and then those of what follows.
  Perm-later :
      (ran left fl items later : List A)
      → Perm (ran ++ left) fl
      → Perm later (left ++ items)
      → Perm (ran ++ later) (fl ++ items)
  Perm-later ran left fl items later p q = Perm.trans (Perm.append_left ran q) (
      subst (λ xs. Perm xs (fl ++ items)) (append_assoc ran left items) (Perm.append_right items p))

module _ {A B : Type 0} (fn : A → Result B) where
  -- The items that ran, and that of a task that raised, and the others are all there are.
  abbrev Splits : Result (Unit {0}) → List A → List A → List A → Type 0
  Splits (ok _) ran others all = Perm (ran ++ others) all
  Splits (raised e) ran others all = (x : A) × (fn x ≡ raised e) × Perm (ran ++ x ∷ others) all

  cons-Splits :
      (end : Result (Unit {0})) (z : A) (ran others rest all : List A)
      → Perm (z ∷ rest) all
      → Splits end ran others rest
      → Splits end (z ∷ ran) others all
  cons-Splits (ok _) z ran others rest all p q = Perm.trans (Perm.cons z q) p
  cons-Splits (raised e) z ran others rest all p (x, fails, q) =
      (x, fails, Perm.trans (Perm.cons z q) p)

  -- What a batch hands over.
  abbrev Takes : List A → List B × Result (Unit {0}) × List A → Type 0
  Takes fl (vs, end, left) = (ran : List A) × (map fn ran ≡ map ok vs) × Splits end ran left fl

  finish-Takes :
      (z : A) (rest fl : List A) (more : List A → List B × Result (Unit {0}) × List A)
      → Perm (z ∷ rest) fl
      → Takes rest (more rest)
      → Takes fl (finish (fn z) rest more)
  finish-Takes z rest fl more p (ran, same, q) = elim (Result-cases (fn z)) [
    | inl (v, e) ↦
        rw e (z ∷ ran, rw (e, same) refl, cons-Splits (more rest).1 z ran (more rest).2 rest fl p q)
    | inr (exc, e) ↦ rw e ([], refl, (z, e, p))
  ]

  hand_over-Takes : (ps : List ℕ) (fl : List A) → Takes fl (hand_over fn ps fl)
  unfolding hand_over
  hand_over-Takes [] fl = ([], refl, Perm.rfl)
  hand_over-Takes (p ∷ ps) [] = ([], refl, Perm.rfl)
  hand_over-Takes (p ∷ ps) (x ∷ fl) =
      finish-Takes (pick p x fl).0 (pick p x fl).1 (x ∷ fl) (hand_over fn ps) (pick-Perm p x fl)
        (hand_over-Takes ps (pick p x fl).1)

  finish-le :
      (r : Result B) (left : List A) (more : List A → List B × Result (Unit {0}) × List A)
      → length (more left).2 ≤ length left
      → length (finish r left more).2 ≤ length left
  finish-le (ok v) left more h = h
  finish-le (raised e) left more h = omega arith

  hand_over-le : (ps : List ℕ) (fl : List A) → length (hand_over fn ps fl).2 ≤ length fl
  unfolding hand_over
  hand_over-le [] fl = omega arith
  hand_over-le (p ∷ ps) [] = omega arith
  hand_over-le (p ∷ ps) (x ∷ fl) =
      let h =
        finish-le (fn (pick p x fl).0) (pick p x fl).1 (hand_over fn ps)
          (hand_over-le ps (pick p x fl).1) in
      omega (arith, h, length-pick p x fl)

  -- How a run ends from given tasks in flight and items to read. If it ends well, all of them have run,
  -- and no task is cancelled. Else a task has raised; those whose items have neither run nor raised are
  -- cancelled, of all that were in flight or have been started, and the last items were not read.
  abbrev pub Ends : Result (Unit {0}) → List A → List A → List A → List A → Type 0
  Ends (ok _) ran cancelled fl xs = Perm ran (fl ++ xs) × (cancelled ≡ [])
  Ends (raised e) ran cancelled fl xs =
      (x : A) × (started : List A) × (unread : List A) × (fn x ≡ raised e)
      × (started ++ unread ≡ xs)
      × Perm (ran ++ x ∷ cancelled) (fl ++ started)

  -- What `amap` yields are the values of the items that ran.
  abbrev pub EachOnce : List A → List A → Outcome A B → Type 0
  EachOnce fl xs o =
      (vs : List B) × (end : Result (Unit {0})) × (cancelled : List A) × (ran : List A) × (o
        ≡ some (vs, end, cancelled))
      × (map fn ran ≡ map ok vs)
      × Ends end ran cancelled fl xs

  starts-Ends :
      (end : Result (Unit {0})) (ran cancelled fl zs xs : List A)
      → Ends end ran cancelled (fl ++ zs) xs
      → Ends end ran cancelled fl (zs ++ xs)
  starts-Ends (ok _) ran cancelled fl zs xs (p, none_left) =
      (subst (Perm ran) (append_assoc fl zs xs) p, none_left)
  starts-Ends (raised e) ran cancelled fl zs xs (x, started, unread, fails, same, p) = (
    x,
    zs ++ started,
    unread,
    fails,
    append_assoc zs started unread ∙ ap (λ ys. zs ++ ys) same,
    subst (Perm (ran ++ x ∷ cancelled)) (append_assoc fl zs started) p,
  )

  starts-EachOnce :
      (fl zs xs : List A) (o : Outcome A B) → EachOnce (fl ++ zs) xs o → EachOnce fl (zs ++ xs) o
  starts-EachOnce fl zs xs o (vs, end, cancelled, ran, e, same, p) =
      (vs, end, cancelled, ran, e, same, starts-Ends end ran cancelled fl zs xs p)

  append-Ends :
      (end : Result (Unit {0})) (ran left fl items later cancelled : List A)
      → Perm (ran ++ left) fl
      → Ends end later cancelled left items
      → Ends end (ran ++ later) cancelled fl items
  append-Ends (ok _) ran left fl items later cancelled p (q, none_left) =
      (Perm-later ran left fl items later p q, none_left)
  append-Ends (raised e) ran left fl items later cancelled p (x, started, unread, fails, same, q) =
      (
        x,
        started,
        unread,
        fails,
        same,
        subst (λ us. Perm us (fl ++ started)) (sym (append_assoc ran later (x ∷ cancelled)))
            (Perm-later ran left fl started (later ++ x ∷ cancelled) p q),
      )

  close_round-EachOnce :
      (s : Amap A) (fl : List A) (r : List B × Result (Unit {0}) × List A)
      (rest : Amap A → Outcome A B)
      → Takes fl r
      → EachOnce r.2 s.items (rest (record s { in_flight = r.2 }))
      → EachOnce fl s.items (after (close_round s r) rest)
  close_round-EachOnce s fl (vs, ok _, left) rest (ran, same, p) later_on =
      let (ws, end, gone, later, e, eq, q) = later_on in
      (
        vs ++ ws,
        end,
        gone,
        ran ++ later,
        rw e refl,
        rw (map-append fn ran later, map-append ok vs ws, same, eq) refl,
        append-Ends end ran left fl s.items later gone p q,
      )
  close_round-EachOnce s fl (vs, raised exc, left) rest (ran, same, (x, fails, p)) later_on = (
    vs,
    raised exc,
    left,
    ran,
    refl,
    same,
    (x, [], s.items, fails, refl, subst (Perm (ran ++ x ∷ left)) (sym (append-nil fl)) p),
  )

  finish-EachOnce :
      (s : Amap A) (z : A) (left fl : List A) (more : List A → List B × Result (Unit {0}) × List A)
      (rest : Amap A → Outcome A B)
      → Perm (z ∷ left) fl
      → length left < length fl
      → Takes left (more left)
      → length (more left).2 ≤ length left
      → ((ys : List A)
          → suc (length ys) ≤ length fl
          → EachOnce ys s.items (rest (record s { in_flight = ys })))
      → EachOnce fl s.items (after (close_round s (finish (fn z) left more)) rest)
  finish-EachOnce s z left fl more rest p one t fewer h =
      close_round-EachOnce s fl (finish (fn z) left more) rest (finish-Takes z left fl more p t)
        (h (finish (fn z) left more).2 (omega (arith, finish-le (fn z) left more fewer, one)))

  deliver-EachOnce :
      (ordered : Bool) (batch : Batch) (s : Amap A) (fl : List A) (rest : Amap A → Outcome A B)
      → (1 ≤ length fl) ⊎ (fl ++ s.items ≡ [])
      → ((ys : List A)
          → suc (length ys) ≤ length fl
          → EachOnce ys s.items (rest (record s { in_flight = ys })))
      → EachOnce fl s.items (after (deliver ordered fn batch s fl) rest)
  unfolding deliver hand_over
  deliver-EachOnce ordered batch s [] rest busy h = elim busy [
    | inl one ↦ absurd (omega arith)
    | inr none_left ↦ ([], ok tt, [], [], refl, refl, (rw none_left Perm.rfl, refl))
  ]
  deliver-EachOnce true batch s (x ∷ fl) rest busy h =
      finish-EachOnce s x fl (x ∷ fl) (λ left. ([], ok tt, left)) rest Perm.rfl (omega arith)
        ([], refl, Perm.rfl) (omega arith) h
  deliver-EachOnce false (p, ps) s (x ∷ fl) rest busy h =
      finish-EachOnce s (pick p x fl).0 (pick p x fl).1 (x ∷ fl) (hand_over fn ps) rest
        (pick-Perm p x fl) (omega (arith, length-pick p x fl)) (hand_over-Takes ps (pick p x fl).1)
        (hand_over-le ps (pick p x fl).1) h

  -- Over a source that ends well, in order or not, and whatever its tasks do, `amap` ends, with a
  -- concurrency of at least 1. It has yielded the values of some items, of each just once. If it ends
  -- well these are all, and it cancels nothing; else it raises what the task of another item raised, and
  -- cancels the tasks of just those items of the ones that it has read, the first of the source, that
  -- have done neither. One round more than there are items is enough.
  pub amap-EachOnce :
      (ordered : Bool) (items : List A) (c : ℕ) (schedule : List Batch)
      → 1 ≤ c
      → length items < length schedule
      → EachOnce [] items (amap (record { items = items; end = ok tt }) fn c ordered schedule)
  amap-EachOnce ordered items c schedule pos enough =
      amap_rule EachOnce ordered fn c pos items schedule (deliver-EachOnce ordered) starts-EachOnce
        enough
