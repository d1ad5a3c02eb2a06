-- ===== src/Pipeline/Counting.antt =====
-- What `FlakyServer` of examples/pipeline_demo.py counts, with requests side by side.
use asyncio_tests.Base.{
  ℕ, suc, ◌+◌, ◌≡◌, refl, Option, none, some, List, [], ◌∷◌, length, length-append, get_elem?,
  remove_at, length-remove_at, Bool-cases, inl, inr, arith,
}
use asyncio_tests.Float.{Float}
use asyncio_tests.Sync.Bucket.{TokenBucket}
use asyncio_tests.Tasks.Registry.{contains}
use asyncio_tests.Tasks.Numbering.{Distinct}
use asyncio_tests.Pipeline.{FlakyServer, get}
use asyncio_tests.Pipeline.Traffic.{
  Traffic, Event, asks, wakes, cancels, arrive, wake, cut_short, step, start, run,
}

pub record IsCounted (t : Traffic) : Type 0 where
  pub all_requests :
      t.answered + t.server.failures + length t.asleep + t.cut_off ≡ t.server.requests
  pub one_failure_each : length t.server.seen ≡ t.server.failures
  pub distinct : Distinct t.server.seen

arrive-IsCounted :
    (t : Traffic) (path : ℕ)
    → suc (t.answered + t.server.failures + length t.asleep + t.cut_off) ≡ t.server.requests
    → length t.server.seen ≡ t.server.failures
    → Distinct t.server.seen
    → IsCounted (arrive t path)
unfolding arrive
arrive-IsCounted t path all each d = elim (Bool-cases (contains path t.server.seen)) [
  | inl known ↦
      rw known (record { all_requests = omega (arith, all); one_failure_each = each; distinct = d })
  | inr new ↦ rw new (record {
    all_requests = omega (arith, all);
    one_failure_each = omega (arith, each);
    distinct = (new, d);
  })
]

wake-IsCounted :
    (t : Traffic) (i : ℕ) (o : Option ℕ)
    → get_elem? t.asleep i ≡ o
    → IsCounted t
    → IsCounted (wake t i o)
wake-IsCounted t i none e v = v
wake-IsCounted t i (some path) e v =
    arrive-IsCounted (record t { asleep = remove_at t.asleep i }) path
      (omega (arith, v.all_requests, length-remove_at t.asleep i path e)) v.one_failure_each
      v.distinct

cut_short-IsCounted :
    (t : Traffic) (i : ℕ) (o : Option ℕ)
    → get_elem? t.asleep i ≡ o
    → IsCounted t
    → IsCounted (cut_short t i o)
cut_short-IsCounted t i none e v = v
cut_short-IsCounted t i (some path) e v = record {
  all_requests = omega (arith, v.all_requests, length-remove_at t.asleep i path e);
  one_failure_each = v.one_failure_each;
  distinct = v.distinct;
}

step-IsCounted : (t : Traffic) (e : Event) → IsCounted t → IsCounted (step t e)
unfolding step
step-IsCounted t (asks path) v = record {
  all_requests = omega (arith, v.all_requests, length-append t.asleep (path ∷ []));
  one_failure_each = v.one_failure_each;
  distinct = v.distinct;
}
step-IsCounted t (wakes i) v = wake-IsCounted t i (get_elem? t.asleep i) refl v
step-IsCounted t (cancels i) v = cut_short-IsCounted t i (get_elem? t.asleep i) refl v

run-IsCounted : (t : Traffic) (es : List Event) → IsCounted t → IsCounted (run t es)
unfolding run
run-IsCounted t [] v = v
run-IsCounted t (e ∷ es) v = run-IsCounted (step t e) es (step-IsCounted t e v)

-- However requests to a new server interleave, and whichever are cancelled in their sleep, each has
-- failed, has gone through, is asleep or was so cancelled; and just one request has failed for each path
-- that has been seen, however many there were for it.
pub run-start-IsCounted : (es : List Event) → IsCounted (run start es)
unfolding start
run-start-IsCounted es =
    run-IsCounted start es (record { all_requests = refl; one_failure_each = refl; distinct = tt })

-- A request that runs alone leaves the server as its two stretches do, one after the other.
pub get-run :
    (F : Float) {L V : Type 0} (pages : ℕ → Option (List L)) (trip : V → V) (path n : ℕ)
    (b : TokenBucket F.Carrier) (server : FlakyServer) (v : V)
    → let t : Traffic = record { server = server; asleep = []; answered = n; cut_off = 0 } in
      (get F pages trip path (b, (server, v))).1.1.0 ≡ (run t (asks path ∷ wakes 0 ∷ [])).server
unfolding get run step arrive
get-run F pages trip path n b server v = ground arith
