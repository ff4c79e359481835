-- ===== src/Pool/Calls.antt =====
-- `try_run` and `release` of thread_pool.cpp, on every branch.
use dumbo.Base.{
  ℕ, ◌≤◌, ◌<◌, ◌≡◌, ◌≢◌, refl, ap, [], ◌∷◌, ◌++◌, some, arith, true, false, lt→ltb, le→ltb, ==_refl,
  ne→==, dec_lt, length, length-append,
}
use dumbo.Base.Members.{is_in, erase, count, count-append, count-erase, count-is_in, length-erase}
use dumbo.Worker.Handoff.{IsIdle, handed, run_idle, stop_lem}
use dumbo.Pool.{Pool, update, acquire_worker, try_run, release}
use dumbo.Pool.Invariant.{IsValid, IsRunning, Acquired, acquire_worker-Acquired, assign-IsValid}

-- The pool with the task `t` at hand to the worker `r.0`.
abbrev assigned : ℕ × Pool → ℕ → Pool
assigned r t = record r.1 { worker = update r.1.worker r.0 (handed (r.1.worker r.0) t) }

try_run-assigned :
    (p : Pool) (t : ℕ)
    → length p.busy < p.max_size
    → ((acquire_worker p).1.worker (acquire_worker p).0).stopping ≡ false
    → t ≢ 0
    → try_run p t ≡ some (true, assigned (acquire_worker p) t)
unfolding try_run
try_run-assigned p t room s z = rw (
  lt→ltb (length p.busy) p.max_size room,
  run_idle ((acquire_worker p).1.worker (acquire_worker p).0) t s z,
)

-- In a valid pool of which no worker was told to stop, `try_run` accepts a task that is not null
-- exactly if fewer than `max_size` workers are busy. Then one worker that was not busy becomes so,
-- and has the task at hand, and the pool stays so.
pub try_run_lem :
    (p : Pool) (t : ℕ)
    → IsValid p
    → IsRunning p
    → t ≢ 0
    → (length p.busy < p.max_size
        → (a : ℕ) × (q : Pool) × (try_run p t ≡ some (true, q))
          × IsValid q
          × IsRunning q
          × (q.busy ≡ p.busy ++ a ∷ [])
          × (count a p.busy ≡ 0)
          × ((q.worker a).task ≡ some t)
          × ((q.worker a).ready ≡ true))
      × (p.max_size ≤ length p.busy → try_run p t ≡ some (false, p))
unfolding try_run
try_run_lem p t v g z = (accepts, λ full. rw (le→ltb (length p.busy) p.max_size full))
  where
    accepts :
        length p.busy < p.max_size
        → (a : ℕ) × (q : Pool) × (try_run p t ≡ some (true, q))
          × IsValid q
          × IsRunning q
          × (q.busy ≡ p.busy ++ a ∷ [])
          × (count a p.busy ≡ 0)
          × ((q.worker a).task ≡ some t)
          × ((q.worker a).ready ≡ true)
    accepts room =
        let r = acquire_worker p in
        let got : Acquired p r = acquire_worker-Acquired p v room in
        let g' = got.running g in
        let live : (r.1.worker r.0).stopping ≡ false = g'.running r.0 (
          ground
            (arith, ap (count r.0) got.busy, count-append r.0 p.busy (r.0 ∷ []), ==_refl r.0)) in
        (
          r.0,
          assigned r t,
          try_run-assigned p t room live z,
          assign-IsValid r.1 r.0 (handed (r.1.worker r.0) t) got.valid,
          record { running = λ a h. ground (arith, g'.running a h, live) },
          got.busy,
          got.idle,
          rw (==_refl r.0),
          rw (==_refl r.0),
        )

module _ (p : Pool) (a : ℕ) (v : IsValid p) (held : is_in a p.busy ≡ true) where
  non_null : a ≢ 0
  non_null = omega (arith, (v.known a (omega (arith, count-is_in a p.busy held))).0)

  -- The pool that keeps the released worker.
  abbrev kept : Pool
  kept = record p { busy = erase a p.busy; free = p.free ++ a ∷ [] }

  kept-IsValid : length p.free < p.min_size → IsValid kept
  kept-IsValid few = record {
    few_free = omega (arith, length-append p.free (a ∷ []));
    few_busy = omega (arith, length-erase a p.busy held, v.few_busy);
    once =
        λ b. omega (arith, count-append b p.free (a ∷ []), count-erase a b p.busy held, v.once b);
    known = λ b h.
        v.known b (omega (arith, count-append b p.free (a ∷ []), count-erase a b p.busy held));
    positive = v.positive;
  }

  dropped-IsValid : IsValid (record p { busy = erase a p.busy })
  dropped-IsValid = record {
    few_free = v.few_free;
    few_busy = omega (arith, length-erase a p.busy held, v.few_busy);
    once = λ b. omega (arith, count-erase a b p.busy held, v.once b);
    known = λ b h. v.known b (omega (arith, count-erase a b p.busy held));
    positive = v.positive;
  }

  -- In a valid pool `release` takes a busy worker that waits for its next task out of the busy
  -- ones. It keeps it as it is if fewer than `min_size` workers are free, and ends it otherwise.
  -- The pool stays valid.
  pub release_lem :
      IsIdle (p.worker a)
      → (q : Pool) × (release p a ≡ some q)
        × IsValid q
        × (count a q.busy ≡ 0)
        × (length p.free < p.min_size → (q.free ≡ p.free ++ a ∷ []) × (q.worker a ≡ p.worker a))
        × (p.min_size ≤ length p.free
            → (q.free ≡ p.free) × ((q.worker a).finished ≡ true) × ((q.worker a).joinable ≡ false))
  unfolding release
  release_lem idle = elim (dec_lt (length p.free) p.min_size) [
    | yes few ↦ (
      kept,
      rw (ne→== a 0 non_null, held, lt→ltb (length p.free) p.min_size few),
      kept-IsValid few,
      gone,
      λ h. (refl, refl),
      λ h. absurd (omega arith),
    )
    | no many ↦
        let (w, e, f, j) = (stop_lem (p.worker a)).0 idle in
        (
          record p { busy = erase a p.busy; worker = update p.worker a w },
          rw (ne→== a 0 non_null, held, le→ltb (length p.free) p.min_size (omega arith), e),
          assign-IsValid (record p { busy = erase a p.busy }) a w dropped-IsValid,
          gone,
          λ h. absurd (omega arith),
          λ h. (refl, rw (==_refl a) f, rw (==_refl a) j),
        )
  ]
    where
      gone : count a (erase a p.busy) ≡ 0
      gone = ground (arith, count-erase a a p.busy held, ==_refl a, v.once a)
