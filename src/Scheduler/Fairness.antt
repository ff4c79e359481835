-- ===== src/Scheduler/Fairness.antt =====
-- scheduler.hpp keeps its queues well formed and serves the ready fibers in order.
use mathlib.Core.List.{append-nil, append_assoc}
use dumbo.Base.{
  ℕ, ◌≡◌, ◌≢◌, refl, sym, ap, ◌∙◌, subst, inl, inr, List, [], ◌∷◌, ◌++◌, Option, none, some, arith,
  true, false, ◌==◌, ne→==, if◌then◌else◌, Bool-cases, ℕ_discrete,
}
use dumbo.Base.Members.{
  is_in, erase, is_in-append, Distinct, Distinct-snoc, is_in-erase, is_in-erase_le, Distinct-erase,
  erase_absent,
}
use dumbo.Scheduler.{Scheduler, awakened, pick_next, pick_from, suspend, resume}
use dumbo.Scheduler.Queues.{
  IsValid, SetsReady, Step, wakes, picks, idles, suspends, resumes, Run, start, next,
}

-- `c` is made ready behind the others.
abbrev pushed : Scheduler → ℕ → Scheduler
pushed s c = record s { ready_queue = s.ready_queue ++ c ∷ [] }

awakened-some :
    (s t : Scheduler) (c : ℕ)
    → awakened s c ≡ some t
    → (c ≢ 0) × (is_in c s.ready_queue ≡ false) × (t ≡ pushed s c)
unfolding awakened
awakened-some s t c e = ground arith

pushed-IsValid :
    (s : Scheduler) (c : ℕ)
    → IsValid s
    → c ≢ 0
    → is_in c s.ready_queue ≡ false
    → is_in c s.wait_queue ≡ false
    → IsValid (pushed s c)
pushed-IsValid s c v z r w = record {
  ready = Distinct-snoc s.ready_queue c v.ready r;
  wait = v.wait;
  non_null = ground (arith, is_in-append 0 s.ready_queue (c ∷ []), v.non_null);
  wait_non_null = v.wait_non_null;
  apart = λ e h. ground (arith, is_in-append e s.ready_queue (c ∷ []), v.apart e h);
}

picked_from :
    (s t : Scheduler) (q : List ℕ) (c : ℕ)
    → pick_from s q ≡ some (some c, t)
    → (rest : List ℕ) × (q ≡ c ∷ rest) × (t ≡ record s { ready_queue = rest })
unfolding pick_from
picked_from s t [] c e = cc
picked_from s t (x ∷ rest) c e = (rest, ground arith, ground arith)

idle_from : (s t : Scheduler) (q : List ℕ) → pick_from s q ≡ some (none, t) → (q ≡ []) × (t ≡ s)
unfolding pick_from
idle_from s t [] e = ground arith
idle_from s t (x ∷ rest) e = ground arith

-- With valid queues, and if `set_ready` calls `awakened`: a suspended fiber that is resumed leaves
-- the wait queue and goes behind the ready ones; for any other context the assertion of `resume`
-- fails.
pub resume_lem :
    (set_ready : Scheduler → ℕ → Option Scheduler) (s : Scheduler) (c : ℕ)
    → SetsReady set_ready
    → IsValid s
    → resume set_ready s c ≡ (
        if is_in c s.wait_queue
        then some
            (record { ready_queue = s.ready_queue ++ c ∷ []; wait_queue = erase c s.wait_queue })
        else none)
unfolding resume awakened
resume_lem set_ready s c law v = elim (Bool-cases (is_in c s.wait_queue)) [
  | inl waiting ↦
      let fresh = v.apart c waiting in
      let e : (c == 0) ≡ false = ground (arith, v.wait_non_null) in
      rw (
        waiting,
        is_in-erase c s.wait_queue v.wait,
        law,
        erase_absent c s.ready_queue fresh,
        fresh,
        e,
      )
  | inr not_waiting ↦ rw not_waiting
]

pub resumed-IsValid :
    (s : Scheduler) (c : ℕ)
    → IsValid s
    → is_in c s.wait_queue ≡ true
    → IsValid (record { ready_queue = s.ready_queue ++ c ∷ []; wait_queue = erase c s.wait_queue })
resumed-IsValid s c v h =
    pushed-IsValid (record s { wait_queue = erase c s.wait_queue }) c
      (record {
        ready = v.ready;
        wait = Distinct-erase c s.wait_queue v.wait;
        non_null = v.non_null;
        wait_non_null = is_in-erase_le c 0 s.wait_queue v.wait_non_null;
        apart = λ e p.
            ground (
              arith,
              v.apart e,
              is_in-erase_le c e s.wait_queue,
              Bool-cases (is_in e s.wait_queue),
            );
      })
      (λ z. ground (arith, v.wait_non_null, ap (λ x. is_in x s.wait_queue) z)) (v.apart c h)
      (is_in-erase c s.wait_queue v.wait)

picked-IsValid :
    (s : Scheduler) (c : ℕ) (rest : List ℕ)
    → IsValid s
    → s.ready_queue ≡ c ∷ rest
    → IsValid (record s { ready_queue = rest })
picked-IsValid s c rest v q = record {
  ready = (subst Distinct q v.ready).1;
  wait = v.wait;
  non_null = ground (arith, ap (is_in 0) q, v.non_null);
  wait_non_null = v.wait_non_null;
  apart = λ e h. ground (arith, ap (is_in e) q, v.apart e h);
}

suspended-IsValid :
    (s : Scheduler) (c : ℕ)
    → IsValid s
    → c ≢ 0
    → is_in c s.ready_queue ≡ false
    → is_in c s.wait_queue ≡ false
    → IsValid (record s { wait_queue = s.wait_queue ++ c ∷ [] })
suspended-IsValid s c v z r w = record {
  ready = v.ready;
  wait = Distinct-snoc s.wait_queue c v.wait w;
  non_null = v.non_null;
  wait_non_null = ground (arith, is_in-append 0 s.wait_queue (c ∷ []), v.wait_non_null);
  apart = λ e h. elim (ℕ_discrete c e) [
    | yes same ↦ rw (← same) r
    | no other ↦
        v.apart e (ground (arith, is_in-append e s.wait_queue (c ∷ []), ne→== c e other, h))
  ];
}

suspend-some :
    (s t : Scheduler) (c : ℕ)
    → suspend s c ≡ some t
    → (is_in c s.wait_queue ≡ false) × (t ≡ record s { wait_queue = s.wait_queue ++ c ∷ [] })
unfolding suspend
suspend-some s t c e = ground arith

module _ (set_ready : Scheduler → ℕ → Option Scheduler) (law : SetsReady set_ready) where
  resume-some :
      (s t : Scheduler) (c : ℕ)
      → IsValid s
      → resume set_ready s c ≡ some t
      → (is_in c s.wait_queue ≡ true)
        × (t ≡ record { ready_queue = s.ready_queue ++ c ∷ []; wait_queue = erase c s.wait_queue })
  resume-some s t c v e = ground (arith, resume_lem set_ready s c law v)

  -- One call keeps the queues valid, and moves fibers from the front and to the back only.
  step_lem :
      {s t : Scheduler} {picked woken : List ℕ}
      → IsValid s
      → Step set_ready s t picked woken
      → IsValid t × (picked ++ t.ready_queue ≡ s.ready_queue ++ woken)
  unfolding pick_next suspend
  step_lem {s} {t} v (wakes c w e) =
      let (z, r, p) = awakened-some s t c e in rw p (pushed-IsValid s c v z r w, refl)
  step_lem {s} {t} v (picks c e) =
      let (rest, q, p) = picked_from s t s.ready_queue c e in
      rw p (picked-IsValid s c rest v q, sym q ∙ sym (append-nil s.ready_queue))
  step_lem {s} {t} v (idles e) =
      let (q, p) = idle_from s t s.ready_queue e in rw p (v, sym (append-nil s.ready_queue))
  step_lem {s} {t} v (suspends c z r e) =
      let (w, p) = suspend-some s t c e in
      rw p (suspended-IsValid s c v z r w, sym (append-nil s.ready_queue))
  step_lem {s} {t} v (resumes c e) =
      let (w, p) = resume-some s t c v e in rw p (resumed-IsValid s c v w, refl)

  -- In any run of the scheduler's calls that starts with valid queues they stay valid, and the
  -- fibers handed out, followed by those still ready, are those that were ready at first followed
  -- by those made ready, in order: no fiber is lost, doubled or overtaken.
  pub run_lem :
      {s t : Scheduler} {picked woken : List ℕ}
      → IsValid s
      → Run set_ready s t picked woken
      → IsValid t × (picked ++ t.ready_queue ≡ s.ready_queue ++ woken)
  run_lem {s} v start = (v, sym (append-nil s.ready_queue))
  run_lem {s} v (next {t} {u} {picked} {woken} {p} {w} r st) =
      let (v₁, e₁) = run_lem v r in
      let (v₂, e₂) = step_lem v₁ st in
      (
        v₂,
        append_assoc picked p u.ready_queue
            ∙ ap (◌++◌ picked) e₂
            ∙ sym (append_assoc picked t.ready_queue w)
            ∙ ap (λ xs. xs ++ w) e₁
            ∙ append_assoc s.ready_queue woken w,
      )
