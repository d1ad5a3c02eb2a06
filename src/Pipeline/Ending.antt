-- ===== src/Pipeline/Ending.antt =====
-- How `main` of examples/pipeline_demo.py ends.
use asyncio_tests.Base.{
  ℕ, ◌+◌, ◌*◌, ◌≡◌, ◌≤◌, ◌<◌, refl, sym, ap, subst, ◌∙◌, true, Option, none, some, List, [], ◌∷◌,
  length, map, length-append, All, total, arith,
}
use asyncio_tests.Errors.{Result, ok}
use asyncio_tests.Queues.Pool.{init, start}
use asyncio_tests.Queues.Events.{step}
use asyncio_tests.Queues.Batches.{Fits, concat}
use asyncio_tests.Streams.Amap.{Batch}
use asyncio_tests.Streams.Until.{Stop}
use asyncio_tests.Pipeline.{FlakyServer}
use asyncio_tests.Pipeline.Batching.{batch_size, title_batches}
use asyncio_tests.Pipeline.Prefix.{passed, title_batches-Batches}
use asyncio_tests.Pipeline.Writing.{
  Writer, Turns, advance, submit_all, with_writer, figures, report_on, main,
}
use asyncio_tests.Pipeline.Report.{AreTurns, started, WroteAll, written-all}

module _ {L : Type 0} where
  total_lengths : (bs : List (List L)) → total length bs ≡ length (concat bs)
  total_lengths [] = refl
  total_lengths (b ∷ bs) = omega (arith, total_lengths bs, length-append b (concat bs))

  counting : (bs : List (List L)) → total (λ b. 1) bs ≡ length bs
  counting [] = refl
  counting (b ∷ bs) = omega (arith, counting bs)

  fitting :
      (bs : List (List L)) → All (Fits batch_size) bs → total length bs ≤ batch_size * length bs
  fitting [] h = omega arith
  fitting (b ∷ bs) h = omega (arith, h.0.1, fitting bs h.1)

  abbrev batches_in : Option (List (List L) × Result (Unit {0})) → List (List L)
  batches_in none = []
  batches_in (some (bs, end)) = bs

  three :
      (written bs : List (List L)) (all : List L)
      → total (λ b. 1) written ≡ total (λ b. 1) bs
      → concat bs ≡ all
      → All (Fits batch_size) bs
      → 8 < length all
      → 3 ≤ length written
  three written bs all same c f many =
      let long : length (concat bs) ≡ length all = ap length c in
      omega (arith, counting written, counting bs, same, total_lengths bs, fitting bs f, long, many)

  reports :
      (server : FlakyServer) (w : Writer (List L)) (written : List (List L))
      → w.written ≡ written
      → 0 < server.failures
      → 3 ≤ length w.written
      → report_on server (ok tt) (some w) ≡ some (ok 0, some (figures server w.written))
  reports server w [] e h m = absurd (omega (arith, m, ap length e))
  reports server w (b ∷ bs) e h m = rw e (ground (arith, h, m, ap length e))

  -- If every page is parsed to its title, more than eight titles are passed on before the stop signal,
  -- `write` ends well, a request has failed, and the block of the writers is left, `main` returns 0.
  -- The batches have, one after the other, just the titles that were passed on, and each batch is
  -- written as often as it was submitted, by any weight; it is all these titles that `main` counts; and
  -- it says that it has stopped early, even if it has not.
  pub main_writes_all :
      (title : ℕ → L) (paths : List ℕ) (schedule : List Batch) (stop : Stop) (waits : List ℕ)
      (fuel : ℕ) (t : Turns (List L)) (server : FlakyServer) (bs : List (List L))
      (w : Writer (List L)) (weight : List L → ℕ)
      → length paths < length schedule
      → length paths + total (λ n. n) waits < fuel
      → 8 < length (passed stop (map title paths))
      → 0 < server.failures
      → AreTurns t
      → title_batches (λ n. ok (title n)) paths schedule stop waits fuel ≡ some (bs, ok tt)
      → with_writer t (ok tt) (submit_all t.after_submit bs started) ≡ some w
      → (main t server (title_batches (λ n. ok (title n)) paths schedule stop waits fuel)
          ≡ some (ok 0, some (figures server w.written)))
        × (concat bs ≡ passed stop (map title paths))
        × (total weight w.written ≡ total weight bs)
        × ((figures server w.written).titles ≡ length (passed stop (map title paths)))
        × ((figures server w.written).stopped ≡ true)
  unfolding main init step start advance
  main_writes_all title paths schedule stop waits fuel t server bs w weight rounds_enough
        fuel_enough many failed turns streamed left =
      let (bs', e, c, f) =
        title_batches-Batches title paths schedule stop waits fuel rounds_enough fuel_enough in
      let same : bs' ≡ bs = ap batches_in (sym e ∙ streamed) in
      let all = passed stop (map title paths) in
      let c' : concat bs ≡ all = subst (λ (x : List (List L)). concat x ≡ all) same c in
      let f' : All (Fits batch_size) bs =
        subst (λ (x : List (List L)). All (Fits batch_size) x) same f in
      let wrote = λ (v : List L → ℕ). subst (WroteAll v bs) left (written-all v t bs turns) in
      let enough : 3 ≤ length w.written = three w.written bs all (wrote (λ b. 1)) c' f' many in
      (
        rw streamed (rw left (reports server w w.written refl failed enough)),
        c',
        wrote weight,
        wrote length ∙ total_lengths bs ∙ ap length c',
        ground (arith, enough),
      )

  waits_for_watchdog :
      (server : FlakyServer) (bs : List (List L)) (o : Option (Writer (List L)))
      → length bs < 3
      → WroteAll (λ b. 1) bs o
      → report_on server (ok tt) o ≡ none
  waits_for_watchdog server bs none few h = refl
  waits_for_watchdog server bs (some w) few h =
      ground (arith, few, h, counting w.written, counting bs)

  -- If the stream has ended well with fewer than three batches, `main` never ends, whatever the order in
  -- which the writers run, as the watchdog waits for a third.
  pub main_hangs :
      (t : Turns (List L)) (server : FlakyServer) (bs : List (List L))
      → AreTurns t
      → length bs < 3
      → main t server (some (bs, ok tt)) ≡ none
  unfolding main init step start advance
  main_hangs t server bs turns few =
      waits_for_watchdog server bs (with_writer t (ok tt) (submit_all t.after_submit bs started))
        few (written-all (λ b. 1) t bs turns)
