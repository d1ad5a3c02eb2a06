-- ===== src/Pipeline.antt =====
-- examples/pipeline_demo.py, which the library is put together in: a flaky server, and requests to it
-- that are paced by a token bucket and retried. The world that requests run in is the server with all
-- else, which `clock` and `sleep` read and change; the round trip of a request takes time only.
pub mod Fetching
pub mod Titles
pub mod Batching
pub mod Traffic
pub mod Counting
pub mod Prefix
pub mod Writing
pub mod Written
pub mod Submitting
pub mod Report
pub mod Ending
pub mod InTurn
mod Tests
use asyncio_tests.Base.{
  ℕ, suc, Bool, true, leb, ◌&&◌, Option, none, some, List, [], ◌∷◌, if◌then◌else◌,
}
use asyncio_tests.Errors.{Exn, Result, ok, raised, Async, other, key_error}
use asyncio_tests.Float.{Float}
use asyncio_tests.Retry.Policy.{RetryPolicy, default_retryable}
use asyncio_tests.Retry.Loop.{Hooks, retry}
use asyncio_tests.Sync.Bucket.{TokenBucket, acquire}
use asyncio_tests.Tasks.Registry.{contains}

pub record FlakyServer : Type 0 where
  pub seen : List ℕ
  pub requests : ℕ
  pub failures : ℕ

-- `PAGES`, by the number in a path: a title and a text for each number from 1 to 20.
pub data Line : Type 0 where
  heading text_of : ℕ → Line

abbrev pub demo_pages : ℕ → Option (List Line)
demo_pages n = if leb 1 n && leb n 20 then some (heading n ∷ text_of n ∷ []) else none

-- `ConnectionError`, and the `IndexError` of a page without lines.
abbrev pub connection_error : Exn
connection_error = other 0

abbrev pub index_error : Exn
index_error = other 1

-- `PAGES[path]`, with a page as its lines.
abbrev pub page_of : {L : Type 0} → Option (List L) → Result (List L)
page_of none = raised key_error
page_of (some body) = ok body

-- `body.splitlines()[0]`
abbrev pub first_line : {L : Type 0} → List L → Result L
first_line [] = raised index_error
first_line (l ∷ ls) = ok l

module _ (F : Float) {L V : Type 0} (pages : ℕ → Option (List L)) (trip : V → V) where
  open F use {Carrier, one}

  abbrev pub World : Type 0
  World = TokenBucket Carrier × (FlakyServer × V)

  -- `FlakyServer.get`
  unfoldable pub get : ℕ → Async World (List L)
  get path (b, (server, v)) =
      let asked = record server { requests = suc server.requests } in
      if contains path server.seen then (page_of (pages path), (b, (asked, trip v))) else (
        raised connection_error,
        (b, (record asked { seen = path ∷ server.seen; failures = suc server.failures }, trip v)),
      )

  module _ (clock : FlakyServer × V → Carrier) (sleep : Carrier → Async World (Unit {0}))
      (rand : Async World Carrier) (p : RetryPolicy Carrier) where
    -- The arguments of `retry` in `fetch`.
    abbrev pub hooks : ℕ → Hooks Carrier World (List L)
    hooks path = record {
      factory = get path;
      retry_on = default_retryable;
      sleep = sleep;
      rand = rand;
      on_retry = λ n e d s. (ok tt, s);
    }

    abbrev pub after_grant :
        Option (Result Carrier × World)
        → (World → Result (List L) × World)
        → Option (Result (List L) × World)
    after_grant none rest = none
    after_grant (some (raised e, s)) rest = some (raised e, s)
    after_grant (some (ok waited, s)) rest = some (rest s)

    -- `fetch`, with fuel for the bucket's loop.
    unfoldable pub fetch : ℕ → ℕ → World → Option (Result (List L) × World)
    unfolding acquire retry get default_retryable
    fetch fuel path s = after_grant (acquire F clock sleep fuel one s) (retry F p (hooks path))

    abbrev pub and_parse : Option (Result (List L) × World) → Option (Result L × World)
    and_parse none = none
    and_parse (some (raised e, s)) = some (raised e, s)
    and_parse (some (ok body, s)) = some (first_line body, s)

    unfoldable pub parse : ℕ → ℕ → World → Option (Result L × World)
    unfolding fetch
    parse fuel path s = and_parse (fetch fuel path s)
