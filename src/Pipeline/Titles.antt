-- ===== src/Pipeline/Titles.antt =====
-- What `parse` of examples/pipeline_demo.py gives for many pages, and what the server has counted.
use asyncio_tests.Base.{
  ℕ, suc, ◌+◌, ◌≡◌, ◌≤◌, ◌∙◌, ap, refl, sym, subst, false, true, Option, none, some, List, [], ◌∷◌,
  length, map, arith,
}
use asyncio_tests.Errors.{Result, ok, raised, Async}
use asyncio_tests.Float.{Float}
use asyncio_tests.Retry.Policy.{RetryPolicy}
use asyncio_tests.Sync.Bucket.{TokenBucket}
use asyncio_tests.Sync.Acquire.{Sleeps, MakesUp}
use asyncio_tests.Tasks.Registry.{contains}
use asyncio_tests.Pipeline.{FlakyServer, World, parse, and_parse}
use asyncio_tests.Pipeline.Fetching.{answered, Quiet, Gets, fetch-Gets}

-- Distinct paths, none of which has been seen.
abbrev pub AllNew : List ℕ → List ℕ → Type 0
AllNew [] seen = Unit
AllNew (path ∷ paths) seen = (contains path seen ≡ false) × AllNew paths (path ∷ seen)

abbrev pub HasTitles : {L : Type 0} → (ℕ → Option (List L)) → (ℕ → L) → List ℕ → Type 0
HasTitles pages title [] = Unit
HasTitles {L} pages title (path ∷ paths) =
    ((text : List L) × (pages path ≡ some (title path ∷ text))) × HasTitles pages title paths

-- The server after requests for new paths, each of which is retried once.
abbrev pub visited : List ℕ → FlakyServer → FlakyServer
visited [] server = server
visited (path ∷ paths) server = visited paths (record {
  seen = path ∷ server.seen;
  requests = suc (suc server.requests);
  failures = suc server.failures;
})

pub requests-visited :
    (paths : List ℕ) (server : FlakyServer)
    → (visited paths server).requests ≡ length paths + (length paths + server.requests)
requests-visited [] server = omega arith
requests-visited (path ∷ paths) server = omega (arith, requests-visited paths _)

pub failures-visited :
    (paths : List ℕ) (server : FlakyServer)
    → (visited paths server).failures ≡ length paths + server.failures
failures-visited [] server = omega arith
failures-visited (path ∷ paths) server = omega (arith, failures-visited paths _)

module _ (F : Float) {L V : Type 0} (pages : ℕ → Option (List L)) (trip : V → V)
    (clock : FlakyServer × V → F.Carrier)
    (sleep : F.Carrier → Async (World F pages trip) (Unit {0})) (r : F.Carrier)
    (p : RetryPolicy F.Carrier) where
  open F use {Carrier, one, le}

  abbrev parsed : ℕ → ℕ → World F pages trip → Option (Result L × World F pages trip)
  parsed fuel path s = parse F pages trip clock sleep (λ u. (ok r, u)) p fuel path s

  -- `parse` for one path after the other, up to the first that raises.
  abbrev collected : {W : Type 0} → L → Option (Result (List L) × W) → Option (Result (List L) × W)
  collected l none = none
  collected l (some (raised e, s)) = some (raised e, s)
  collected l (some (ok ls, s)) = some (ok (l ∷ ls), s)

  abbrev after_title :
      {W : Type 0}
      → Option (Result L × W)
      → (W → Option (Result (List L) × W))
      → Option (Result (List L) × W)
  after_title none rest = none
  after_title (some (raised e, s)) rest = some (raised e, s)
  after_title (some (ok l, s)) rest = collected l (rest s)

  abbrev pub parse_all :
      ℕ → List ℕ → World F pages trip → Option (Result (List L) × World F pages trip)
  parse_all fuel [] s = some (ok [], s)
  parse_all fuel (path ∷ paths) s = after_title (parsed fuel path s) (parse_all fuel paths)

  parse-Gets :
      (fuel path : ℕ) (title : L) (text : List L) (b : TokenBucket Carrier) (server : FlakyServer)
      (v : V)
      → MakesUp F clock sleep b.rate
      → Sleeps F clock sleep
      → Quiet F pages trip clock sleep r p
      → le one b.capacity ≡ true
      → 2 ≤ p.attempts
      → pages path ≡ some (title ∷ text)
      → Gets F pages trip clock sleep r p title
          (answered path server)
          b
          (parsed (suc (suc fuel)) path (b, (server, v)))
  unfolding parse
  parse-Gets fuel path title text b server v m s q room more there =
      let (u, e, still, shape) =
        fetch-Gets F pages trip clock sleep r p fuel path (title ∷ text) b server v m s q room more
          there in
      (u, rw (e, and_parse) refl, still, shape)

  pub parse_all-Gets :
      (fuel : ℕ) (title : ℕ → L) (paths : List ℕ) (b : TokenBucket Carrier) (server : FlakyServer)
      (v : V)
      → MakesUp F clock sleep b.rate
      → Sleeps F clock sleep
      → Quiet F pages trip clock sleep r p
      → le one b.capacity ≡ true
      → 2 ≤ p.attempts
      → AllNew paths server.seen
      → HasTitles pages title paths
      → Gets F pages trip clock sleep r p
          (map title paths)
          (visited paths server)
          b
          (parse_all (suc (suc fuel)) paths (b, (server, v)))
  parse_all-Gets fuel title [] b server v m s q room more new there =
      ((b, (server, v)), refl, refl, (refl, refl))
  parse_all-Gets fuel title (path ∷ paths) b server v m s q room more (new, news)
        ((text, there), theres) =
      let ((b', (server', v')), e, answer, (rate, capacity)) =
        parse-Gets fuel path (title path) text b server v m s q room more there in
      let next : server' ≡ record {
        seen = path ∷ server.seen;
        requests = suc (suc server.requests);
        failures = suc server.failures;
      } =
        answer ∙ rw new refl in
      let (u, rest, counts, (rates, capacities)) =
        parse_all-Gets fuel title paths b' server' v' (subst (MakesUp F clock sleep) (sym rate) m) s
          q (rw capacity room) more (rw next news) theres in
      (
        u,
        rw (e, after_title) (rw (rest, collected) refl),
        counts ∙ ap (visited paths) next,
        (rates ∙ rate, capacities ∙ capacity),
      )

  -- New and distinct pages that are parsed one after the other give their titles, in their order,
  -- with two requests for each page, of which one fails. A sleep must end, last as long as asked and
  -- leave the bucket and the server alone, and the arithmetic must not lose tokens; the bucket holds
  -- one token at least, and a request is tried twice at least. Fuel for two rounds of each `acquire`
  -- is enough.
  pub parse_all_lem :
      (fuel : ℕ) (title : ℕ → L) (paths : List ℕ) (b : TokenBucket Carrier) (server : FlakyServer)
      (v : V)
      → MakesUp F clock sleep b.rate
      → Sleeps F clock sleep
      → Quiet F pages trip clock sleep r p
      → le one b.capacity ≡ true
      → 2 ≤ p.attempts
      → AllNew paths server.seen
      → HasTitles pages title paths
      → (s : World F pages trip) × (parse_all (suc (suc fuel)) paths (b, (server, v))
          ≡ some (ok (map title paths), s))
        × (s.1.0.requests ≡ length paths + (length paths + server.requests))
        × (s.1.0.failures ≡ length paths + server.failures)
  parse_all_lem fuel title paths b server v m s q room more new there =
      let (u, e, counts, _) =
        parse_all-Gets fuel title paths b server v m s q room more new there in
      (u, e, rw counts (requests-visited paths server), rw counts (failures-visited paths server))
