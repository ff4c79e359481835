-- ===== src/Pool/Stop.antt =====
-- The end of a pool of thread_pool.cpp: `stop_workers`, `wait_for_termination` and the destructor.
use dumbo.Base.{
  ℕ, ◌≡◌, refl, sym, ap, ◌∙◌, ◌⊎◌, inl, inr, List, [], ◌∷◌, some, arith, true, false, ==_refl,
  ne→==, ℕ_discrete,
}
use dumbo.Base.Members.{is_in}
use dumbo.Worker
use dumbo.Worker.{Worker}
use dumbo.Worker.Handoff.{IsIdle, stop_lem}
use dumbo.Pool.{
  Pool, update, stop_each, stop_workers, all_finished, wait_for_termination, none_joinable, destroy,
}

-- A thread that has ended and was joined.
abbrev pub Ended : Worker → Type 0
Ended w = (w.finished ≡ true) × (w.joinable ≡ false)

stop_any :
    (w : Worker) → (IsIdle w ⊎ Ended w) → (w' : Worker) × (Worker.stop w ≡ some w') × Ended w'
stop_any w (inl i) = let (w', e, f, j) = (stop_lem w).0 i in (w', e, (f, j))
stop_any w (inr e) = (w, (stop_lem w).1 e.1, e)

-- What a stop of the workers of a list leaves.
record Stopped (p q : Pool) (xs : List ℕ) : Type 0 where
  lists : (q.free ≡ p.free) × (q.busy ≡ p.busy)
  ended : (b : ℕ) → is_in b xs ≡ true → Ended (q.worker b)
  still : (b : ℕ) → Ended (p.worker b) → Ended (q.worker b)
  others : (b : ℕ) → is_in b xs ≡ false → q.worker b ≡ p.worker b

stop_each_lem :
    (xs : List ℕ) (p : Pool)
    → ((b : ℕ) → is_in b xs ≡ true → IsIdle (p.worker b) ⊎ Ended (p.worker b))
    → (q : Pool) × (stop_each xs p ≡ some q) × Stopped p q xs
unfolding stop_each
stop_each_lem [] p s = (
  p,
  refl,
  record { lists = (refl, refl); ended = λ b h. cc; still = λ b e. e; others = λ b h. refl },
)
stop_each_lem (x ∷ xs) p s =
    let (w, e, d) = stop_any (p.worker x) (s x (rw (==_refl x))) in
    let p₁ : Pool = record p { worker = update p.worker x w } in
    let (q, e', t) = stop_each_lem xs p₁ (stoppable w d) in
    (
      q,
      rw e e',
      record {
        lists = t.lists;
        ended = λ b h. elim (ℕ_discrete x b) [
          | yes same ↦ t.still b (rw (same, ==_refl b) d)
          | no other ↦ t.ended b (rw (ne→== x b other) at h)
        ];
        still = λ b o. t.still b (updated w d b o);
        others = λ b h. elim (ℕ_discrete x b) [
          | yes same ↦ absurd (ground (arith, same, ==_refl b))
          | no other ↦ t.others b (rw (ne→== x b other) at h) ∙ rw (ne→== x b other)
        ];
      },
    )
  where
    updated : (w : Worker) → Ended w → (b : ℕ) → Ended (p.worker b) → Ended (update p.worker x w b)
    updated w d b o = elim (ℕ_discrete x b) [
      | yes same ↦ rw (same, ==_refl b) d
      | no other ↦ rw (ne→== x b other) o
    ]

    stoppable :
        (w : Worker)
        → Ended w
        → (b : ℕ) → is_in b xs ≡ true
        → IsIdle (update p.worker x w b) ⊎ Ended (update p.worker x w b)
    stoppable w d b h = elim (ℕ_discrete x b) [
      | yes same ↦ inr (rw (same, ==_refl b) d)
      | no other ↦ rw (ne→== x b other) (s b (rw (ne→== x b other) h))
    ]

all_finished_lem :
    (f : ℕ → Worker) (xs : List ℕ)
    → ((b : ℕ) → is_in b xs ≡ true → Ended (f b))
    → (all_finished f xs ≡ true) × (none_joinable f xs ≡ true)
unfolding all_finished none_joinable Worker.is_finished
all_finished_lem f [] e = (refl, refl)
all_finished_lem f (x ∷ xs) e =
    let (fin, joined) = e x (rw (==_refl x)) in
    let (fs, js) = all_finished_lem f xs (λ b h. e b (ground (arith, h))) in
    (rw (fin, fs), rw (joined, js))

-- If each free worker is idle or has been stopped, `stop_workers` returns. Then
-- `wait_for_termination` waits no more, the destructor finds no joinable thread, and every worker
-- that was not free is as before: a busy one is not stopped.
pub stop_workers_lem :
    (p : Pool)
    → ((b : ℕ) → is_in b p.free ≡ true → IsIdle (p.worker b) ⊎ Ended (p.worker b))
    → (q : Pool) × (stop_workers p ≡ some q)
      × (q.free ≡ p.free)
      × (q.busy ≡ p.busy)
      × (wait_for_termination q ≡ true)
      × (destroy q ≡ some (record q { free = [] }))
      × ((b : ℕ) → is_in b p.free ≡ false → q.worker b ≡ p.worker b)
unfolding stop_workers wait_for_termination destroy
stop_workers_lem p s =
    let (q, e, t) = stop_each_lem p.free p s in
    let (same_free, same_busy) = t.lists in
    let (fs, js) =
      all_finished_lem q.worker q.free (λ b h. t.ended b (ap (is_in b) (sym same_free) ∙ h)) in
    (q, e, same_free, same_busy, fs, rw js, t.others)
