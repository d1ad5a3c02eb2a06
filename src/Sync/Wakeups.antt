-- ===== src/Sync/Wakeups.antt =====
-- Who is woken when the lock of aiolab/sync.py changes hands.
use asyncio_tests.Base.{
  ℕ, suc, ◌-◌, ◌≡◌, ◌⊎◌, refl, sym, subst, Bool, true, false, Option, none, some, List, [], ◌∷◌,
  map, get_elem?, remove_at, ◌==◌, arith, All, All-append, All-set, All-remove_at, All-mono,
  Bool-cases, if_intro, inl, inr,
}
use asyncio_tests.Sync.RwLock.{
  Waiter, ReadWriteLock, init, may_read, may_write, may_enter, asleep, wake, enter, notify_all,
  acquire_read, acquire_write, resume, release_read, release_write, Event, reads, writes, resumes,
  cancels, read_done, write_done, step, run,
}

-- A call that waits has been woken, or could not go on if it were.
abbrev pub Justified : ReadWriteLock → Waiter → Type 0
Justified l w = (w.woken ≡ true) ⊎ (may_enter l w.writes ≡ false)

-- Nobody sleeps who could go on.
abbrev pub IsSettled : ReadWriteLock → Type 0
IsSettled l = All (Justified l) l.waiters

map-wake-Justified : (l : ReadWriteLock) (ws : List Waiter) → All (Justified l) (map wake ws)
map-wake-Justified l [] = tt
map-wake-Justified l (w ∷ ws) = (inl refl, map-wake-Justified l ws)

-- The waiters of `l` stay justified in `l'` if whoever could not go on in `l` cannot in `l'`.
abbrev Tighter : ReadWriteLock → ReadWriteLock → Type 0
Tighter l l' = (b : Bool) → may_enter l b ≡ false → may_enter l' b ≡ false

tighten_one : (l l' : ReadWriteLock) (w : Waiter) → Tighter l l' → Justified l w → Justified l' w
tighten_one l l' w t (inl up) = inl up
tighten_one l l' w t (inr held) = inr (t w.writes held)

tighten :
    (l l' : ReadWriteLock) (ws : List Waiter)
    → Tighter l l'
    → All (Justified l) ws
    → All (Justified l') ws
tighten l l' ws t = All-mono (Justified l) (Justified l') (λ w. tighten_one l l' w t) ws

acquire_read-IsSettled : (l : ReadWriteLock) → IsSettled l → IsSettled (acquire_read l)
unfolding acquire_read
acquire_read-IsSettled l v = elim (Bool-cases (may_read l)) [
  | inl free ↦
      let l' = enter l false in
      rw (free, acquire_read) (tighten l l' l.waiters (λ b e. ground arith) v)
  | inr held ↦ rw (held, acquire_read) (All-append (Justified l) l.waiters _ v (inr held, tt))
]

acquire_write-IsSettled : (l : ReadWriteLock) → IsSettled l → IsSettled (acquire_write l)
unfolding acquire_write
acquire_write-IsSettled l v =
    let counted = record l { waiting_writers = suc l.waiting_writers } in
    elim (Bool-cases (may_write l)) [
      | inl free ↦
          rw (free, acquire_write)
            (tighten l (enter counted true) l.waiters (λ b e. ground arith) v)
      | inr held ↦
          rw (held, acquire_write)
            (All-append (Justified counted) l.waiters _
              (tighten l counted l.waiters (λ b e. ground arith) v) (inr held, tt))
    ]

enter-Tighter :
    (l : ReadWriteLock) (ws : List Waiter) (writes : Bool)
    → may_enter l writes ≡ true
    → Tighter l (enter (record l { waiters = ws }) writes)
enter-Tighter l ws true free b e = ground arith
enter-Tighter l ws false free b e = ground arith

enter-waiters : (l : ReadWriteLock) (writes : Bool) → (enter l writes).waiters ≡ l.waiters
enter-waiters l true = refl
enter-waiters l false = refl

resume-IsSettled :
    (l : ReadWriteLock) (i : ℕ) (o : Option Waiter) → IsSettled l → IsSettled (resume l i o)
unfolding resume
resume-IsSettled l i none v = v
resume-IsSettled l i (some w) v = elim (Bool-cases w.woken) [
  | inl up ↦ elim (Bool-cases (may_enter l w.writes)) [
    | inl free ↦
        let l' = record l { waiters = remove_at l.waiters i } in
        rw (up, free, resume)
          (subst (All (Justified (enter l' w.writes))) (sym (enter-waiters l' w.writes)) (
            tighten l (enter l' w.writes) l'.waiters (enter-Tighter l l'.waiters w.writes free)
              (All-remove_at (Justified l) l.waiters i v)))
    | inr held ↦ rw (up, held, resume) (All-set (Justified l) l.waiters i _ (inr held) v)
  ]
  | inr down ↦ rw (down, resume) v
]

release_read-IsSettled : (l : ReadWriteLock) → IsSettled l → IsSettled (release_read l)
unfolding release_read
release_read-IsSettled l v = elim (Bool-cases (l.readers - 1 == 0)) [
  | inl last ↦
      rw (last, release_read)
        (map-wake-Justified (notify_all (record l { readers = l.readers - 1 })) l.waiters)
  | inr others ↦
      let l' = record l { readers = l.readers - 1 } in
      rw (others, release_read) (tighten l l' l.waiters (λ b e. ground arith) v)
]

release_write-IsSettled : (l : ReadWriteLock) → IsSettled (release_write l)
unfolding release_write
release_write-IsSettled l = map-wake-Justified (notify_all (record l { writer = false })) l.waiters

-- No call that waits is cancelled.
abbrev pub IsPatient : Event → Type 0
IsPatient (cancels i) = ⊥
IsPatient _ = Unit

step-IsSettled : (l : ReadWriteLock) (e : Event) → IsPatient e → IsSettled l → IsSettled (step l e)
unfolding step
step-IsSettled l reads p v = acquire_read-IsSettled l v
step-IsSettled l writes p v = acquire_write-IsSettled l v
step-IsSettled l (resumes i) p v = resume-IsSettled l i _ v
step-IsSettled l (cancels i) p v = absurd p
step-IsSettled l read_done p v =
    if_intro IsSettled (l.readers == 0) (λ empty. v) (λ inside. release_read-IsSettled l v)
step-IsSettled l write_done p v =
    if_intro IsSettled l.writer (λ inside. release_write-IsSettled l) (λ outside. v)

run-IsSettled :
    (l : ReadWriteLock) (es : List Event) → All IsPatient es → IsSettled l → IsSettled (run l es)
unfolding run
run-IsSettled l [] p v = v
run-IsSettled l (e ∷ es) p v = run-IsSettled (step l e) es p.1 (step-IsSettled l e p.0 v)

-- No wake-up is lost while no waiting call is cancelled: whoever sleeps could not go on.
pub run-init-IsSettled : (es : List Event) → All IsPatient es → IsSettled (run init es)
unfolding init
run-init-IsSettled es p = run-IsSettled init es p tt

-- A cancelled writer wakes nobody: if it was the only one that waited, and no writer is inside, then each
-- reader that slept behind it may go on, and yet still sleeps, and nothing that it does by itself ends
-- that.
pub cancelled_writer_strands :
    (l : ReadWriteLock) (i j : ℕ)
    → l.writer ≡ false
    → l.waiting_writers ≡ 1
    → get_elem? l.waiters i ≡ some (asleep true)
    → get_elem? (remove_at l.waiters i) j ≡ some (asleep false)
    → let after = step l (cancels i) in
      (may_read after ≡ true)
      × (get_elem? after.waiters j ≡ some (asleep false))
      × (step after (resumes j) ≡ after)
unfolding step
cancelled_writer_strands l i j out one w r = rw (w, r) (ground arith)
