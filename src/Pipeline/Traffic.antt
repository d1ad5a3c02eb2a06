-- ===== src/Pipeline/Traffic.antt =====
-- Requests to `FlakyServer` of examples/pipeline_demo.py side by side: `get` is asleep between its two
-- stretches, and others run meanwhile.
use asyncio_tests.Base.{
  ℕ, suc, Option, none, some, List, [], ◌∷◌, ◌++◌, get_elem?, remove_at, if◌then◌else◌,
}
use mathlib.Core.List.{foldl}
use asyncio_tests.Tasks.Registry.{contains}
use asyncio_tests.Pipeline.{FlakyServer}

-- The server, the paths of the requests that are asleep, how many have returned a page (or found
-- none), and how many were cancelled in their sleep.
pub record Traffic : Type 0 where
  pub server : FlakyServer
  pub asleep : List ℕ
  pub answered : ℕ
  pub cut_off : ℕ

pub data Event : Type 0 where
  -- a request begins; the one at a place among those asleep goes on, or is cancelled
  asks : (path : ℕ) → Event
  wakes cancels : (place : ℕ) → Event

-- From the sleep to the end of `get`.
unfoldable pub arrive : Traffic → ℕ → Traffic
arrive t path =
    if contains path t.server.seen then record t { answered = suc t.answered } else record t {
      server = record t.server { seen = path ∷ t.server.seen; failures = suc t.server.failures };
    }

abbrev pub wake : Traffic → ℕ → Option ℕ → Traffic
wake t i none = t
wake t i (some path) = arrive (record t { asleep = remove_at t.asleep i }) path

-- `CancelledError` leaves `get` at its sleep.
abbrev pub cut_short : Traffic → ℕ → Option ℕ → Traffic
cut_short t i none = t
cut_short t i (some path) = record t { asleep = remove_at t.asleep i; cut_off = suc t.cut_off }

unfoldable pub step : Traffic → Event → Traffic
unfolding arrive
step t (asks path) = record t {
  server = record t.server { requests = suc t.server.requests };
  asleep = t.asleep ++ path ∷ [];
}
step t (wakes i) = wake t i (get_elem? t.asleep i)
step t (cancels i) = cut_short t i (get_elem? t.asleep i)

-- `FlakyServer.__init__`
unfoldable pub start : Traffic
start = record {
  server = record { seen = []; requests = 0; failures = 0 };
  asleep = [];
  answered = 0;
  cut_off = 0;
}

unfoldable pub run : Traffic → List Event → Traffic
unfolding step
run = foldl step
