-- ===== src/Pool/Lend.antt =====
-- A worker of thread_pool.cpp that is taken from the free ones for one task, and released.
use dumbo.Base.{
  ℕ, ◌<◌, ◌≡◌, ◌≢◌, refl, ap, ◌∙◌, List, [], ◌∷◌, ◌++◌, some, arith, true, false, ==_refl, ne→==,
  lt→ltb, length, length-append,
}
use dumbo.Base.Members.{is_in, is_in-append, erase, count, count-append, count-is_in}
use dumbo.Base.Faults.{◌>>=◌}
use dumbo.Worker
use dumbo.Worker.{Worker, moved, thread_step}
use dumbo.Worker.Handoff.{IsIdle, handed, after_task, run_idle, step_handed}
use dumbo.Pool.{Pool, update, split_last, take_free, acquire_worker, try_run, release}
use dumbo.Pool.Invariant.{IsValid, split_last_cons}

split_last-snoc : (xs : List ℕ) (b : ℕ) → split_last (xs ++ b ∷ []) ≡ some (xs, b)
unfolding split_last
split_last-snoc [] b = refl
split_last-snoc (x ∷ xs) b = split_last_cons x (xs ++ b ∷ []) xs b (split_last-snoc xs b)

erase-snoc : (xs : List ℕ) (b : ℕ) → is_in b xs ≡ false → erase b (xs ++ b ∷ []) ≡ xs
erase-snoc [] b h = rw (==_refl b)
erase-snoc (x ∷ xs) b h = ground (arith, h, erase-snoc xs b)

module _ (p : Pool) (rest : List ℕ) (b t : ℕ) where
  -- The pool while `b`, the last of the free workers, has the task, and after the task.
  abbrev pub lending : Pool
  lending = record p {
    free = rest;
    busy = p.busy ++ b ∷ [];
    worker = update p.worker b (handed (p.worker b) t);
  }

  abbrev pub served : Pool
  served = record lending { worker = update lending.worker b (after_task (p.worker b) t) }

  -- The pool after the worker was released.
  abbrev pub returned : Pool
  returned = record served { free = p.free; busy = p.busy }

  module _ (v : IsValid p) (last : p.free ≡ rest ++ b ∷ []) (idle : IsIdle (p.worker b))
      (z : t ≢ 0) where
    not_busy : is_in b p.busy ≡ false
    not_busy = ground (
      arith,
      v.once b,
      ap (count b) last,
      count-append b rest (b ∷ []),
      ==_refl b,
      count-is_in b p.busy,
    )

    acquired : acquire_worker p ≡ (b, record p { free = rest; busy = p.busy ++ b ∷ [] })
    unfolding acquire_worker
    acquired = ap (take_free p) (ap split_last last ∙ split_last-snoc rest b)

    accepted : length p.busy < p.max_size → try_run p t ≡ some (true, lending)
    unfolding try_run
    accepted room = rw (lt→ltb (length p.busy) p.max_size room) (
        ap
          (λ r. Worker.run (r.1.worker r.0) t >>= λ w.
            some (true, record r.1 { worker = update r.1.worker r.0 w }))
          acquired
        ∙ rw (run_idle (p.worker b) t idle.running z))

    given_back : release served b ≡ some returned
    unfolding release
    given_back =
        let known : b ≢ 0 = omega (
          arith,
          (v.known b
              (ground (arith, ap (count b) last, count-append b rest (b ∷ []), ==_refl b))).0,
        ) in
        let room : length rest < p.min_size =
          omega (arith, v.few_free, ap length last, length-append rest (b ∷ [])) in
        let held : is_in b (p.busy ++ b ∷ []) ≡ true =
          ground (arith, is_in-append b p.busy (b ∷ []), ==_refl b) in
        rw (
          ne→== b 0 known,
          held,
          lt→ltb (length rest) p.min_size room,
          erase-snoc p.busy b not_busy,
          last,
        )

    -- In a valid pool with room, and whose last free worker `b` waits: `try_run` gives the task to `b`,
    -- the next step of its thread runs it, and once `b` waits again and is released, the pool has the
    -- free and the busy workers that it had.
    pub lend_lem :
        length p.busy < p.max_size
        → (try_run p t ≡ some (true, lending))
          × (thread_step (lending.worker b) ≡ moved (after_task (p.worker b) t))
          × IsIdle (served.worker b)
          × (release served b ≡ some returned)
    lend_lem room = (
      accepted room,
      rw (==_refl b) (step_handed (p.worker b) t idle.running idle.place),
      rw (==_refl b) (record {
        place = refl;
        not_ready = refl;
        running = idle.running;
        joinable = idle.joinable;
      }),
      given_back,
    )
