-- ===== src/Sync/Updates.antt =====
-- Which increments of the counters of aiolab/sync.py are lost.
use asyncio_tests.Base.{
  ℕ, zero, suc, ◌≡◌, refl, ap, sym, if_intro, Option, none, some, List, [], ◌∷◌, get_elem?, set,
  replicate, total, total-set, total-replicate_zero, All, All-set, if◌then◌else◌, arith,
}
use asyncio_tests.Sync.Counters.{
  Call, begun, asleep, returned, turn, SafeCounter, safe_stretch, schedule, start,
}

turn-begun : (v n : ℕ) → turn v (replicate n begun) ≡ (v, replicate n (asleep v))
unfolding turn
turn-begun v zero = refl
turn-begun v (suc n) = rw (turn-begun v n)

turn-asleep :
    (v w n : ℕ) → turn w (replicate (suc n) (asleep v)) ≡ (suc v, replicate (suc n) returned)
unfolding turn
turn-asleep v w zero = refl
turn-asleep v w (suc n) =
    ap (λ (r : ℕ × List Call). (r.0, returned ∷ r.1)) (turn-asleep v (suc v) n)

-- If calls of `RaceyCounter.increment`, one or more, run side by side, all but one increment are
-- lost: after two turns of the event loop all have returned, and the value has grown by one.
pub racey_loses :
    (v n : ℕ)
    → let (value, calls) = turn v (replicate (suc n) begun) in
      turn value calls ≡ (suc v, replicate (suc n) returned)
racey_loses v n = rw (turn-begun v (suc n)) (turn-asleep v v n)

abbrev pub finished : Call → ℕ
finished returned = 1
finished _ = 0

abbrev pub holding : Call → ℕ
holding (asleep current) = 1
holding _ = 0

-- A call that sleeps holds the lock and has read the value that still stands.
abbrev Current : ℕ → Call → Type 0
Current v (asleep current) = current ≡ v
Current v _ = Unit

pub record IsExclusive (s : SafeCounter) : Type 0 where
  pub counted : s.value ≡ total finished s.calls
  pub held : total holding s.calls ≡ (if s.locked then 1 else 0)
  pub current : All (Current s.value) s.calls

-- With nobody at `sleep(0)` any value is current.
none_asleep : (v : ℕ) (cs : List Call) → total holding cs ≡ 0 → All (Current v) cs
none_asleep v [] h = tt
none_asleep v (begun ∷ cs) h = (tt, none_asleep v cs (omega arith))
none_asleep v (returned ∷ cs) h = (tt, none_asleep v cs (omega arith))
none_asleep v (asleep c ∷ cs) h = absurd (omega arith)

Current-at :
    (v : ℕ) (cs : List Call) (i c : ℕ)
    → get_elem? cs i ≡ some (asleep c)
    → All (Current v) cs
    → c ≡ v
Current-at v [] i c e h = cc
Current-at v (begun ∷ cs) zero c e h = cc
Current-at v (returned ∷ cs) zero c e h = cc
Current-at v (asleep d ∷ cs) zero c e h = ground arith
Current-at v (d ∷ cs) (suc i) c e h = Current-at v cs i c e h.1

released :
    (s : SafeCounter) (i c : ℕ)
    → get_elem? s.calls i ≡ some (asleep c)
    → IsExclusive s
    → total holding (set s.calls i returned) ≡ 0
released s i c e v = ground (arith, v.held, total-set holding s.calls i (asleep c) returned e)

safe_stretch-IsExclusive :
    (s : SafeCounter) (i : ℕ) (o : Option Call)
    → get_elem? s.calls i ≡ o
    → IsExclusive s
    → IsExclusive (safe_stretch s i o)
unfolding safe_stretch
safe_stretch-IsExclusive s i none e v = v
safe_stretch-IsExclusive s i (some returned) e v = v
safe_stretch-IsExclusive s i (some begun) e v =
    if_intro IsExclusive s.locked (λ busy. v)
      (λ free. record {
        counted = omega (arith, v.counted, total-set finished s.calls i begun (asleep s.value) e);
        held = ground (arith, v.held, total-set holding s.calls i begun (asleep s.value) e);
        current = All-set (Current s.value) s.calls i (asleep s.value) refl v.current;
      })
safe_stretch-IsExclusive s i (some (asleep c)) e v =
    let same = Current-at s.value s.calls i c e v.current in
    let freed = released s i c e v in
    record {
      counted = omega (arith, same, v.counted, total-set finished s.calls i (asleep c) returned e);
      held = freed;
      current = none_asleep (suc c) (set s.calls i returned) freed;
    }

schedule-IsExclusive : (s : SafeCounter) (is : List ℕ) → IsExclusive s → IsExclusive (schedule s is)
unfolding schedule
schedule-IsExclusive s [] v = v
schedule-IsExclusive s (i ∷ is) v =
    schedule-IsExclusive _ is (safe_stretch-IsExclusive s i (get_elem? s.calls i) refl v)

start-IsExclusive : (n : ℕ) → IsExclusive (start n)
unfolding start
start-IsExclusive n = record {
  counted = sym (total-replicate_zero finished n begun refl);
  held = total-replicate_zero holding n begun refl;
  current = none_asleep 0 (replicate n begun) (total-replicate_zero holding n begun refl);
}

-- No increment of `SafeCounter` is lost: in whatever order its calls run, the value is the number of
-- the calls that have returned.
pub safe_counts :
    (n : ℕ) (is : List ℕ) → let s = schedule (start n) is in s.value ≡ total finished s.calls
safe_counts n is = (schedule-IsExclusive (start n) is (start-IsExclusive n)).counted
