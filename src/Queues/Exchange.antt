-- ===== src/Queues/Exchange.antt =====
-- What a producer puts in a queue by `produce` of aiolab/queues.py, and a consumer takes out by
-- `drain_now`.
use asyncio_tests.Base.{
  ℕ, zero, suc, ◌+◌, ◌≤◌, ◌≡◌, ◌⊎◌, inr, refl, ap, ◌∙◌, true, List, [], ◌∷◌, ◌++◌, length,
  length-append, if_intro, arith,
}
use mathlib.Core.List.{append-nil, append_assoc}
use asyncio_tests.Queues.Bounded.{Queue, is_open, put, produce, drain_loop, drain_now, exchange}

module _ {T : Type 0} where
  drain_loop_all :
      (q : Queue T) (out items : List T)
      → drain_loop q out items ≡ (out ++ items, record q { items = [] })
  unfolding drain_loop
  drain_loop_all q out [] = rw (append-nil out) refl
  drain_loop_all q out (item ∷ items) =
      drain_loop_all q (out ++ item ∷ []) items ∙ rw (append_assoc out (item ∷ []) items) refl

  abbrev Fits : Queue T → List T → Type 0
  Fits q items = (q.maxsize ≡ 0) ⊎ (length items ≤ q.maxsize)

  -- What `produce` puts is the front of its items, at the end of the queue, within the bound.
  record Produced (q : Queue T) (items : List T) (out : Queue T × List T) : Type 0 where
    in_order : out.0.items ++ out.1 ≡ q.items ++ items
    same_bound : out.0.maxsize ≡ q.maxsize
    counted : out.0.unfinished + length q.items ≡ q.unfinished + length out.0.items
    within : Fits q out.0.items

  Produced-put :
      (q : Queue T) (item : T) (items : List T) (out : Queue T × List T)
      → Produced (put q item) items out
      → Produced q (item ∷ items) out
  Produced-put q item items out v = record {
    in_order = v.in_order ∙ append_assoc q.items (item ∷ []) items;
    same_bound = v.same_bound;
    counted = omega (arith, v.counted, length-append q.items (item ∷ []));
    within = v.within;
  }

  produce-Produced :
      (q : Queue T) (items : List T) → Fits q q.items → Produced q items (produce q items)
  unfolding produce
  produce-Produced q [] f = record {
    in_order = refl;
    same_bound = refl;
    counted = refl;
    within = f;
  }
  produce-Produced q (item ∷ items) f =
      if_intro (Produced q (item ∷ items)) (is_open q)
        (λ room. Produced-put q item items _ (
          produce-Produced (put q item) items
            (ground (arith, room, f, length-append q.items (item ∷ [])))))
        (λ full. record { in_order = refl; same_bound = refl; counted = refl; within = f })

  length-produce : (q : Queue T) (items : List T) → length (produce q items).1 ≤ length items
  unfolding produce
  length-produce q [] = omega arith
  length-produce q (item ∷ items) = ground (arith, length-produce (put q item) items)

  -- With room for one item it is put.
  produce_moves :
      (q : Queue T) (items : List T) (n : ℕ)
      → is_open q ≡ true
      → length items ≤ suc n
      → length (produce q items).1 ≤ n
  unfolding produce
  produce_moves q [] n room h = omega arith
  produce_moves q (item ∷ items) n room h =
      rw room (omega (arith, length-produce (put q item) items))

  -- Everything arrives: the consumer has got the items in order, and the rest is as it says.
  pub record Arrives (q : Queue T) (items : List T) (out : List T × List T × Queue T) : Type 0 where
    pub all_got : out.0 ≡ items
    pub none_left : out.1 ≡ []
    pub drained : out.2.items ≡ []
    pub not_done : out.2.unfinished ≡ q.unfinished + length items

  -- If the consumer drains a queue, empty at first, whenever the producer waits or has returned, then
  -- after as many rounds as there are items it has got all of them in order, the producer has none
  -- left, the queue is empty, and all the items are still unfinished.
  pub exchange-Arrives :
      (rounds : ℕ) (q : Queue T) (items : List T)
      → length items ≤ rounds
      → q.items ≡ []
      → Arrives q items (exchange rounds q items)
  unfolding exchange drain_now
  exchange-Arrives zero q [] h e = record {
    all_got = refl;
    none_left = refl;
    drained = e;
    not_done = omega arith;
  }
  exchange-Arrives zero q (item ∷ items) h e = absurd (omega arith)
  exchange-Arrives (suc rounds) q items h e =
      let r = produce q items in
      let p = produce-Produced q items (inr (rw e (omega arith))) in
      let q2 : Queue T = record r.0 { items = [] } in
      let v =
        exchange-Arrives rounds q2 r.1 (produce_moves q items rounds (rw e (ground arith)) h)
          refl in
      rw (drain_loop_all r.0 [] r.0.items) (record {
        all_got = ap (λ more. r.0.items ++ more) v.all_got ∙ p.in_order ∙ ap (λ xs. xs ++ items) e;
        none_left = v.none_left;
        drained = v.drained;
        not_done = omega (
          arith,
          v.not_done,
          p.counted,
          ap length e,
          ap length p.in_order,
          length-append r.0.items r.1,
          length-append q.items items,
        );
      })
