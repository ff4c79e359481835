-- ===== src/EventLoop/Wake.antt =====
-- From the messages that reach a turn of the event loop of reactor.cpp to the fibers that
-- scheduler.hpp has ready after it.
mod Tests
use mathlib.Core.List.{append-nil, append_assoc}
use dumbo.Base.{
  ℕ, ◌<◌, ◌≡◌, ap, ◌∙◌, sym, subst, List, [], ◌∷◌, ◌++◌, Option, none, some, take-nil, take, drop,
  false, Bool, not, ◌&&◌, take-append-drop,
}
use dumbo.Base.Members.{is_in, is_in-prefix, Distinct, Distinct-prefix}
use dumbo.Base.Results.{ok, ◌>>=◌, checked}
use dumbo.Ring.Refine.{Holds}
use dumbo.Mpsc.{Disruptor}
use dumbo.Mpsc.Fifo.{Fifo}
use dumbo.Smp.Routing.{queued}
use dumbo.Smp.Routing
use dumbo.Poller.{Kernel, IoEvent, Poller, poll}
use dumbo.Reactor.{World, Act}
use dumbo.Reactor.Wakes.{
  resumed_by, wakes_all, wakes_all-append, throws_all, throws_all-prefix, process_all-Woken,
}
use dumbo.Scheduler.{Scheduler}
use dumbo.Scheduler.Queues
use dumbo.Scheduler.Queues.{SetsReady}
use dumbo.Scheduler.Resumed.{
  AllIn, AllIn-prefix, AllIn-non_null, resume_each, resume_each_lem, resume_each_fails,
}
use dumbo.EventLoop.{EventLoop, turn}
use dumbo.EventLoop.Turn.{after_turn, turn_lem}

module _ {R : Type 0} (k : Kernel) (complete : IoEvent → World R → World R) (d : Disruptor ℕ)
    (f : Fifo d) where
  -- The fibers that the messages `ms` resume, as the poller has left them.
  abbrev pub woken : Poller k complete → List ℕ → List ℕ
  woken p ms = wakes_all p.store.store ms

  taken : (c : ℕ) (xs q : List ℕ) → (xs ++ take c q) ++ drop c q ≡ xs ++ q
  taken c xs q = append_assoc xs (take c q) (drop c q) ∙ ap (λ ys. xs ++ ys) (take-append-drop c q)

  woken_split :
      (p : Poller k complete) (c : ℕ) (xs q : List ℕ)
      → woken p (xs ++ q) ≡ woken p (xs ++ take c q) ++ woken p (drop c q)
  woken_split p c xs q =
      ap (wakes_all p.store.store) (sym (taken c xs q))
      ∙ wakes_all-append p.store.store (xs ++ take c q) (drop c q)

  -- A turn whose messages wake no null pointer and throw nothing, and of which none stands twice: it succeeds, and resumes
  -- the fibers of its messages in order.
  turn-resumes :
      (l : EventLoop k complete d) (p : Poller k complete) (n cpus : ℕ) (xs : List ℕ)
      → poll k complete l.poller ≡ ok p
      → Holds n p.ring xs
      → Routing.IsValid d l.smp cpus
      → l.cpu < cpus
      → Distinct (xs ++ queued d f l.smp l.cpu)
      → is_in 0 (woken p (xs ++ queued d f l.smp l.cpu)) ≡ false
      → throws_all p.store.store (xs ++ queued d f l.smp l.cpu) ≡ false
      → (c : ℕ) × (l' : EventLoop k complete d) × (as' : List Act) × (turn k complete d l ≡ ok l')
        × (c ≡ 0 → queued d f l.smp l.cpu ≡ [])
        × (l'.poller.store.acts ≡ p.store.acts ++ as')
        × (resumed_by as' ≡ woken p (xs ++ take c (queued d f l.smp l.cpu)))
  turn-resumes l p n cpus xs e h v inside distinct fibers quiet =
      let q = queued d f l.smp l.cpu in
      let (c, r, smp, turned, emptied, rest', others, none_left) =
        turn_lem k complete d f l p n cpus xs e h v inside in
      let (w, processed, (as', acts, resumed, same)) =
        process_all-Woken (xs ++ take c q) p.store
          (Distinct-prefix (xs ++ take c q) (drop c q)
            (subst Distinct (sym (taken c xs q)) distinct))
          (is_in-prefix 0 (woken p (xs ++ take c q)) (woken p (drop c q))
            (ap (is_in 0) (sym (woken_split p c xs q)) ∙ fibers))
          (throws_all-prefix p.store.store (xs ++ take c q) (drop c q)
            (ap (throws_all p.store.store) (taken c xs q) ∙ quiet)) in
      (
        c,
        after_turn k complete d f l p r smp w,
        as',
        turned
            ∙ ap (λ a. checked a >>= λ w'. ok (after_turn k complete d f l p r smp w')) processed,
        none_left,
        acts,
        resumed,
      )

  -- A `poll` leaves the messages `xs` in the ring. No message stands twice in the ring and the inbox
  -- together, and the fibers that these messages wake are waiting in the scheduler, none twice; they
  -- are those of answered calls, and of IO messages whose last event has come. None of the messages
  -- has an exception that leaves its `finish`. Then the turn succeeds,
  -- and so does every `resume` that it makes: the fibers of the messages in the ring, and then of those
  -- that the inbox shows, go in this order behind the ready ones, and no other fiber stops waiting. The
  -- scheduler's queues stay valid, and the inbox shows none only if it is empty.
  pub wake_lem :
      (set_ready : Scheduler → ℕ → Option Scheduler) (l : EventLoop k complete d)
      → (p : Poller k complete) (n cpus : ℕ) (xs : List ℕ) (s : Scheduler) → SetsReady set_ready
      → poll k complete l.poller ≡ ok p
      → Holds n p.ring xs
      → Routing.IsValid d l.smp cpus
      → l.cpu < cpus
      → Queues.IsValid s
      → Distinct (xs ++ queued d f l.smp l.cpu)
      → Distinct (woken p (xs ++ queued d f l.smp l.cpu))
      → AllIn (woken p (xs ++ queued d f l.smp l.cpu)) s.wait_queue
      → throws_all p.store.store (xs ++ queued d f l.smp l.cpu) ≡ false
      → (c : ℕ) × (l' : EventLoop k complete d) × (t : Scheduler) × (as' : List Act) × (turn k
            complete d l
          ≡ ok l')
        × (c ≡ 0 → queued d f l.smp l.cpu ≡ [])
        × (l'.poller.store.acts ≡ p.store.acts ++ as')
        × (resume_each set_ready s (resumed_by as') ≡ some t)
        × Queues.IsValid t
        × (t.ready_queue ≡ s.ready_queue ++ woken p (xs ++ take c (queued d f l.smp l.cpu)))
        × ((e : ℕ)
            → is_in e t.wait_queue ≡ (
                is_in e s.wait_queue
                && not (is_in e (woken p (xs ++ take c (queued d f l.smp l.cpu))))))
  wake_lem set_ready l p n cpus xs s law e h v inside vs distinct apart waiting quiet =
      let q = queued d f l.smp l.cpu in
      let (c, l', as', turned, none_left, acts, resumed) =
        turn-resumes l p n cpus xs e h v inside distinct
          (AllIn-non_null (woken p (xs ++ q)) s.wait_queue waiting vs.wait_non_null) quiet in
      let (t, woke, vt, ready, left) =
        resume_each_lem set_ready law (woken p (xs ++ take c q)) s vs
          (Distinct-prefix (woken p (xs ++ take c q)) (woken p (drop c q))
            (subst Distinct (woken_split p c xs q) apart))
          (AllIn-prefix (woken p (xs ++ take c q)) (woken p (drop c q)) s.wait_queue
            (subst (λ cs. AllIn cs s.wait_queue) (woken_split p c xs q) waiting)) in
      (
        c,
        l',
        t,
        as',
        turned,
        none_left,
        acts,
        ap (resume_each set_ready s) resumed ∙ woke,
        vt,
        ready,
        left,
      )

  -- A `poll` leaves the messages `xs`, none twice, in the ring, and the inbox is empty. Of the fibers
  -- that they wake, `us` are waiting, none twice, and the next one, `c`, is not, and no exception
  -- leaves the `finish` of one of the messages: a descriptor was ready before the fiber waited for its message. Then the turn calls `resume` for `c`, which fails
  -- its assertion.
  pub early_lem :
      (set_ready : Scheduler → ℕ → Option Scheduler) (l : EventLoop k complete d)
      → (p : Poller k complete) (n cpus : ℕ) (xs us vs : List ℕ) (c : ℕ) (s : Scheduler)
      → SetsReady set_ready
      → poll k complete l.poller ≡ ok p
      → Holds n p.ring xs
      → Routing.IsValid d l.smp cpus
      → l.cpu < cpus
      → queued d f l.smp l.cpu ≡ []
      → Distinct xs
      → Queues.IsValid s
      → woken p xs ≡ us ++ c ∷ vs
      → is_in 0 (us ++ c ∷ vs) ≡ false
      → Distinct us
      → AllIn us s.wait_queue
      → is_in c s.wait_queue ≡ false
      → throws_all p.store.store xs ≡ false
      → (l' : EventLoop k complete d) × (as' : List Act) × (turn k complete d l ≡ ok l')
        × (l'.poller.store.acts ≡ p.store.acts ++ as')
        × (resumed_by as' ≡ us ++ c ∷ vs)
        × (resume_each set_ready s (resumed_by as') ≡ none)
  early_lem set_ready l p n cpus xs us vs c s law e h v inside empty distinct vs' wakes fibers apart
        waiting early quiet =
      let all : xs ++ queued d f l.smp l.cpu ≡ xs = ap (◌++◌ xs) empty ∙ append-nil xs in
      let (m, l', as', turned, none_left, acts, resumed) =
        turn-resumes l p n cpus xs e h v inside (subst Distinct (sym all) distinct)
          (ap (λ ys. is_in 0 (woken p ys)) all ∙ ap (is_in 0) wakes ∙ fibers)
          (ap (throws_all p.store.store) all ∙ quiet) in
      let same : resumed_by as' ≡ us ++ c ∷ vs =
        resumed
        ∙ ap (λ ys. woken p (xs ++ take m ys)) empty
        ∙ ap (λ ys. woken p (xs ++ ys)) (take-nil m)
        ∙ ap (woken p) (append-nil xs)
        ∙ wakes in
      (
        l',
        as',
        turned,
        acts,
        same,
        ap (resume_each set_ready s) same
            ∙ resume_each_fails set_ready law us vs c s vs' apart waiting (rw early),
      )
