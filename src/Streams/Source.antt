-- ===== src/Streams/Source.antt =====
-- Async iterators, and `collect` of aiolab/streams.py.
use asyncio_tests.Base.{
  ℕ, leb, Bool, true, false, Option, none, some, List, [], ◌∷◌, ◌++◌, length, if◌then◌else◌,
}
use asyncio_tests.Errors.{Result, ok, raised}

-- What an async iterator still has to give: its items, and then `StopAsyncIteration` (`ok tt`) or an
-- exception.
pub record Feed (A : Type 0) : Type 0 where
  pub items : List A
  pub end : Result (Unit {0})

-- A source with an `aclose` or without one, and whether that has been called.
pub record Source (A : Type 0) : Type 0 where
  pub feed : Feed A
  pub has_aclose : Bool
  pub closed : Bool

-- `limit is not None and len(out) >= limit`
abbrev pub is_reached : Option ℕ → ℕ → Bool
is_reached none n = false
is_reached (some limit) n = leb limit n

module _ {A : Type 0} where
  -- `out`, or what ended the source.
  abbrev pub ended_with : Result (Unit {0}) → List A → Result (List A)
  ended_with (ok _) out = ok out
  ended_with (raised e) out = raised e

  -- The `async for` loop, with the items that it leaves in the source.
  unfoldable pub collect_loop :
      Option ℕ → Result (Unit {0}) → List A → List A → Result (List A) × List A
  collect_loop limit end out [] = (ended_with end out, [])
  collect_loop limit end out (x ∷ xs) =
      let rest = collect_loop limit end (out ++ x ∷ []) xs in
      if is_reached limit (length (out ++ x ∷ [])) then (ok (out ++ x ∷ []), xs) else rest

  -- `finally: await aclose()`, if the source has one.
  abbrev pub close : Source A → List A → Source A
  close s left = record s {
    feed = record s.feed { items = left };
    closed = if s.has_aclose then true else s.closed;
  }

  unfoldable pub collect : Source A → Option ℕ → Result (List A) × Source A
  unfolding collect_loop
  collect s limit =
      let (out, left) = collect_loop limit s.feed.end [] s.feed.items in (out, close s left)
