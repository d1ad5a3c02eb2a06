-- ===== src/Queues/Bounded.antt =====
-- `produce` and `drain_now` of aiolab/queues.py over an `asyncio.Queue`.
use asyncio_tests.Base.{
  ℕ, zero, suc, ltb, ◌==◌, ◌||◌, Bool, List, [], ◌∷◌, ◌++◌, length, if◌then◌else◌,
}

-- A `maxsize` of 0 is no bound.
pub record Queue (T : Type 0) : Type 0 where
  pub maxsize : ℕ
  pub items : List T
  pub unfinished : ℕ

module _ {T : Type 0} where
  abbrev pub is_open : Queue T → Bool
  is_open q = (q.maxsize == 0) || ltb (length q.items) q.maxsize

  abbrev pub put : Queue T → T → Queue T
  put q item = record q { items = q.items ++ item ∷ []; unfinished = suc q.unfinished }

  -- `produce`, until it returns or waits for room: with the items that it has not put. It returns
  -- once there are none, and is asked to go on with the rest once there may be room.
  -- The count that it returns is left out.
  unfoldable pub produce : Queue T → List T → Queue T × List T
  produce q [] = (q, [])
  produce q (item ∷ items) =
      let rest = produce (put q item) items in if is_open q then rest else (q, item ∷ items)

  -- The loop of `drain_now`: `get_nowait` until the queue is empty. Nothing is marked done.
  unfoldable pub drain_loop : Queue T → List T → List T → List T × Queue T
  drain_loop q out [] = (out, record q { items = [] })
  drain_loop q out (item ∷ items) = drain_loop q (out ++ item ∷ []) items

  unfoldable pub drain_now : Queue T → List T × Queue T
  unfolding drain_loop
  drain_now q = drain_loop q [] q.items

  -- A producer and a consumer that drains the queue whenever the producer waits or has returned: what
  -- the consumer has got in all, what the producer has not put, and the queue.
  unfoldable pub exchange : ℕ → Queue T → List T → List T × List T × Queue T
  unfolding produce drain_now
  exchange zero q items = ([], items, q)
  exchange (suc rounds) q items =
      let (q1, left) = produce q items in
      let (got, q2) = drain_now q1 in
      let (more, left', q3) = exchange rounds q2 left in (got ++ more, left', q3)
