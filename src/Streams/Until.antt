-- ===== src/Streams/Until.antt =====
-- `take_until` of aiolab/streams.py, consumed to its end, and what it yields.
use asyncio_tests.Base.{
  ℕ, zero, suc, ◌≡◌, refl, leb, Bool, true, false, List, [], ◌∷◌, length, take, if◌then◌else◌,
  arith,
}
use asyncio_tests.Errors.{Result, ok}
use asyncio_tests.Streams.Source.{Feed}

-- When the event is set: never, after that many items and before the next read begins, or after that
-- many items while the next read is pending, which then has not ended.
pub data Stop : Type 0 where
  never : Stop
  before_read during_read : ℕ → Stop

-- `event.is_set()` at the head of the loop.
abbrev pub is_set : Stop → Bool
is_set (before_read zero) = true
is_set _ = false

-- `nxt not in done`
abbrev pub beats : Stop → Bool
beats (during_read zero) = true
beats _ = false

-- The event as seen one item later.
abbrev pub later : Stop → Stop
later (before_read (suc n)) = before_read n
later (during_read (suc n)) = during_read n
later stop = stop

-- What has been yielded, how it ended, how many reads have begun, and whether one was cancelled.
pub record Taken (A : Type 0) : Type 0 where
  pub yielded : List A
  pub end : Result (Unit {0})
  pub reads : ℕ
  pub cancelled_read : Bool

module _ {A : Type 0} where
  abbrev pub and_item : A → Taken A → Taken A
  and_item x t = record t { yielded = x ∷ t.yielded; reads = suc t.reads }

  -- The loop, with the items of the source and how it ends.
  unfoldable pub until_loop : Stop → Result (Unit {0}) → List A → Taken A
  until_loop stop end [] =
      if is_set stop
      then record { yielded = []; end = ok tt; reads = 0; cancelled_read = false }
      else if beats stop
      then record { yielded = []; end = ok tt; reads = 1; cancelled_read = true }
      else record { yielded = []; end = end; reads = 1; cancelled_read = false }
  until_loop stop end (x ∷ xs) =
      let rest = until_loop (later stop) end xs in
      if is_set stop
      then record { yielded = []; end = ok tt; reads = 0; cancelled_read = false }
      else if beats stop
      then record { yielded = []; end = ok tt; reads = 1; cancelled_read = true }
      else and_item x rest

  unfoldable pub take_until : Feed A → Stop → Taken A
  unfolding until_loop
  take_until source stop = until_loop stop source.end source.items

  -- All of the source, as without an event.
  abbrev pub whole_of : Feed A → Taken A
  whole_of source = record {
    yielded = source.items;
    end = source.end;
    reads = suc (length source.items);
    cancelled_read = false;
  }

  until_never :
      (end : Result (Unit {0})) (xs : List A)
      → until_loop never end xs ≡ whole_of (record { items = xs; end = end })
  unfolding until_loop
  until_never end [] = refl
  until_never end (x ∷ xs) = rw (until_never end xs)

  until_before :
      (n : ℕ) (end : Result (Unit {0})) (xs : List A)
      → until_loop (before_read n) end xs ≡ (
          if leb n (length xs)
          then record { yielded = take n xs; end = ok tt; reads = n; cancelled_read = false }
          else whole_of (record { items = xs; end = end }))
  unfolding until_loop
  until_before zero end [] = ground arith
  until_before (suc n) end [] = ground arith
  until_before zero end (x ∷ xs) = ground arith
  until_before (suc n) end (x ∷ xs) = ground (arith, until_before n end xs)

  until_during :
      (n : ℕ) (end : Result (Unit {0})) (xs : List A)
      → until_loop (during_read n) end xs ≡ (
          if leb n (length xs)
          then record { yielded = take n xs; end = ok tt; reads = suc n; cancelled_read = true }
          else whole_of (record { items = xs; end = end }))
  unfolding until_loop
  until_during zero end [] = ground arith
  until_during (suc n) end [] = ground arith
  until_during zero end (x ∷ xs) = ground arith
  until_during (suc n) end (x ∷ xs) = ground (arith, until_during n end xs)

  -- If the event is set after `n` items, of a source that has as many, `take_until` yields just these
  -- and ends well: with no further read if that had not begun, and else with one more, which it
  -- cancels. With no event, or one that comes after the source's end, all items are yielded, and the
  -- end is the source's.
  take_until_lem :
      (source : Feed A) (n : ℕ)
      → let within = leb n (length source.items) in
        (take_until source never ≡ whole_of source)
        × (take_until source (before_read n) ≡ (
            if within
            then record {
              yielded = take n source.items;
              end = ok tt;
              reads = n;
              cancelled_read = false;
            }
            else whole_of source))
        × (take_until source (during_read n) ≡ (
            if within
            then record {
              yielded = take n source.items;
              end = ok tt;
              reads = suc n;
              cancelled_read = true;
            }
            else whole_of source))
  unfolding take_until
  take_until_lem source n = (
    until_never source.end source.items,
    until_before n source.end source.items,
    until_during n source.end source.items,
  )
