-- ===== src/Pipeline/Prefix.antt =====
-- What the streams in `main` of examples/pipeline_demo.py pass on to the writer.
use asyncio_tests.Base.{
  ℕ, zero, suc, ◌+◌, ◌-◌, ◌≡◌, ◌≤◌, ◌<◌, refl, sym, subst, ap, List, [], ◌∷◌, length, map, take,
  All, total, arith,
}
use asyncio_tests.Errors.{ok}
use asyncio_tests.Streams.Amap.{Batch}
use asyncio_tests.Streams.InOrder.{serial, amap-SameAs-serial}
use asyncio_tests.Streams.Until.{
  Stop, never, before_read, during_read, Taken, until_loop, take_until,
}
use asyncio_tests.Queues.Batching.{batched}
use asyncio_tests.Queues.Batches.{items, Returns, rounds, Batches, batched-Batches}
use asyncio_tests.Pipeline.Batching.{reads_of, width, batch_size, batches_of, title_batches}

module _ {L : Type 0} where
  -- What comes before the stop signal.
  abbrev pub passed : Stop → List L → List L
  passed never ls = ls
  passed (before_read n) ls = take n ls
  passed (during_read n) ls = take n ls

  -- A run that yields just these items and ends well.
  abbrev Yields : List L → Taken L → Type 0
  Yields ls t = (t.yielded ≡ ls) × (t.end ≡ ok tt)

  until_loop-passed :
      (stop : Stop) (ls : List L) → Yields (passed stop ls) (until_loop stop (ok tt) ls)
  unfolding until_loop
  until_loop-passed never [] = (refl, refl)
  until_loop-passed never (l ∷ ls) =
      let (y, e) = until_loop-passed never ls in (ap (λ xs. l ∷ xs) y, e)
  until_loop-passed (before_read zero) [] = (refl, refl)
  until_loop-passed (before_read zero) (l ∷ ls) = (refl, refl)
  until_loop-passed (before_read (suc n)) [] = (refl, refl)
  until_loop-passed (before_read (suc n)) (l ∷ ls) =
      let (y, e) = until_loop-passed (before_read n) ls in (ap (λ xs. l ∷ xs) y, e)
  until_loop-passed (during_read zero) [] = (refl, refl)
  until_loop-passed (during_read zero) (l ∷ ls) = (refl, refl)
  until_loop-passed (during_read (suc n)) [] = (refl, refl)
  until_loop-passed (during_read (suc n)) (l ∷ ls) =
      let (y, e) = until_loop-passed (during_read n) ls in (ap (λ xs. l ∷ xs) y, e)

  serial-map :
      (title : ℕ → L) (paths : List ℕ) → serial (λ n. ok (title n)) paths ≡ (map title paths, ok tt)
  serial-map title [] = refl
  serial-map title (path ∷ paths) = rw (serial-map title paths) refl

  length-passed :
      (stop : Stop) (title : ℕ → L) (paths : List ℕ)
      → length (passed stop (map title paths)) ≤ length paths
  length-passed never title [] = omega arith
  length-passed never title (path ∷ paths) = omega (arith, length-passed never title paths)
  length-passed (before_read zero) title paths = omega arith
  length-passed (before_read (suc n)) title [] = omega arith
  length-passed (before_read (suc n)) title (path ∷ paths) =
      omega (arith, length-passed (before_read n) title paths)
  length-passed (during_read zero) title paths = omega arith
  length-passed (during_read (suc n)) title [] = omega arith
  length-passed (during_read (suc n)) title (path ∷ paths) =
      omega (arith, length-passed (during_read n) title paths)

  items-reads_of : (waits : List ℕ) (ls : List L) → items (reads_of waits ls (ok tt)) ≡ ls
  items-reads_of waits [] = refl
  items-reads_of [] (l ∷ ls) = ap (λ xs. l ∷ xs) (items-reads_of [] ls)
  items-reads_of (n ∷ waits) (l ∷ ls) = ap (λ xs. l ∷ xs) (items-reads_of waits ls)

  reads_of-Returns : (waits : List ℕ) (ls : List L) → All Returns (reads_of waits ls (ok tt))
  reads_of-Returns waits [] = tt
  reads_of-Returns [] (l ∷ ls) = (tt, reads_of-Returns [] ls)
  reads_of-Returns (n ∷ waits) (l ∷ ls) = (tt, reads_of-Returns waits ls)

  rounds-reads_of :
      (waits : List ℕ) (ls : List L)
      → rounds (reads_of waits ls (ok tt)) ≤ 1 + (length ls + total (λ n. n) waits)
  rounds-reads_of waits [] = omega arith
  rounds-reads_of [] (l ∷ ls) = omega (arith, rounds-reads_of [] ls)
  rounds-reads_of (n ∷ waits) (l ∷ ls) = omega (arith, rounds-reads_of waits ls)

  batched-reads_of :
      (waits : List ℕ) (ls : List L) (fuel : ℕ)
      → length ls + total (λ n. n) waits < fuel
      → Batches batch_size ls (batched fuel batch_size (reads_of waits ls (ok tt)))
  batched-reads_of waits ls fuel enough =
      let reads = reads_of waits ls (ok tt) in
      let split : (fuel - rounds reads) + rounds reads ≡ fuel =
        omega (arith, rounds-reads_of waits ls) in
      rw (sym split) (
        subst
          (λ all.
            Batches batch_size all
              (batched ((fuel - rounds reads) + rounds reads) batch_size reads))
          (items-reads_of waits ls)
          (batched-Batches (fuel - rounds reads) batch_size reads (omega arith)
            (reads_of-Returns waits ls)))

  -- If every page is parsed to its title, the batches that come to the writer have, one after the
  -- other, the titles of all paths in their order, or those of the first `n` paths if the stop signal
  -- comes when `n` titles have been passed on; none is empty or has more than four, and the stream
  -- ends well, whatever `asyncio.wait` hands over and wherever timeouts pass. One round more of each
  -- loop than there are paths, and of `batched` one for each timeout, is enough.
  pub title_batches-Batches :
      (title : ℕ → L) (paths : List ℕ) (schedule : List Batch) (stop : Stop) (waits : List ℕ)
      (fuel : ℕ)
      → length paths < length schedule
      → length paths + total (λ n. n) waits < fuel
      → Batches batch_size
          (passed stop (map title paths))
          (title_batches (λ n. ok (title n)) paths schedule stop waits fuel)
  unfolding title_batches take_until
  title_batches-Batches title paths schedule stop waits fuel rounds_enough fuel_enough =
      let (left, e) =
        amap-SameAs-serial (λ n. ok (title n)) paths width schedule (omega arith) rounds_enough in
      let (y, well) = until_loop-passed stop (map title paths) in
      rw (e, serial-map title paths, batches_of)
        (rw (y, well)
          (batched-reads_of waits (passed stop (map title paths)) fuel
            (omega (arith, fuel_enough, length-passed stop title paths))))
