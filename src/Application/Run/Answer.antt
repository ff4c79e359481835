-- ===== src/Application/Run/Answer.antt =====
-- That `run` of application.hpp starts the main function, and answers what it answered.
use dumbo.Base.{
  ℕ, zero, suc, ◌+◌, ◌<◌, ◌≡◌, refl, sym, ap, ◌∙◌, [], ◌∷◌, ◌++◌, some, true, arith, take, drop,
}
use dumbo.Base.Faults.{◌>>=◌ as ◌>>=ᵒ◌}
use dumbo.Base.Results.{Result, ok, ◌>>=◌, checked}
use dumbo.Message.{Outcome, process, make_special_one_way_lambda_message}
use dumbo.Message.Laws.{fresh_app, app_result}
use dumbo.Ring.Refine.{Holds}
use dumbo.Mpsc.{Disruptor}
use dumbo.Mpsc.Fifo.{Fifo}
use dumbo.Smp.Routing.{IsValid, queued, submit_to_lem}
use dumbo.Poller.{Kernel, IoEvent, Poller, poll}
use dumbo.Pool.{Pool, stop_workers}
use dumbo.Reactor.{World, spawns, put, add_acts}
use dumbo.Reactor.Dispatch.{process_fn-spawns}
use dumbo.Reactor.Drain.{process_all}
use dumbo.EventLoop.{EventLoop, turn}
use dumbo.EventLoop.Turn.{after_turn, turn_lem}
use dumbo.EventLoop.Run.{Turns, Over, event_loop_ends}
use dumbo.Application.{Application, make_reactors, start_run}
use dumbo.Application.Run.Joins.{cpus_from, joined_lem}
use dumbo.Application.Run.{after_loop, started_loop, run}

-- The one value of a queue is taken if any is.
take_one : (c a : ℕ) → ¬ (c ≡ 0) → take c (a ∷ []) ≡ a ∷ []
take_one zero a h = absurd (h refl)
take_one (suc zero) a h = refl
take_one (suc (suc c)) a h = refl

one_is_not_none : (a : ℕ) → ¬ (a ∷ [] ≡ [])
one_is_not_none a e = cc

drop_one : (c a : ℕ) → ¬ (c ≡ 0) → drop c (a ∷ []) ≡ []
drop_one zero a h = absurd (h refl)
drop_one (suc zero) a h = refl
drop_one (suc (suc c)) a h = refl

module _ {R : Type 0} (k : Kernel) (complete : IoEvent → World R → World R) (d : Disruptor ℕ) where
  -- In an application whose first inbox is empty `run` submits the message of the main function,
  -- and if the first `poll` finds nothing and keeps that message, then the first turn of the event
  -- loop starts exactly one fiber, that of the main function, and leaves the inbox empty.
  pub first_turn :
      (f : Fifo d) (yield : EventLoop k complete d → Result (EventLoop k complete d))
      → (n m next : ℕ) (app : Application d) (l : EventLoop k complete d) (p : Poller k complete)
      → IsValid d app.smp n
      → 0 < n
      → l.cpu ≡ 0
      → queued d f app.smp 0 ≡ []
      → poll k complete (record l.poller {
        store = put l.poller.store next (make_special_one_way_lambda_message 0);
      })
        ≡ ok p
      → Holds m p.ring []
      → p.store.store next ≡ make_special_one_way_lambda_message 0
      → (s : World R × Application d) × (l' : EventLoop k complete d) × (start_run d app next
            l.poller.store
          ≡ some s)
        × (turn k complete d (started_loop k complete d yield l s) ≡ ok l')
        × (l'.poller.store.acts ≡ p.store.acts ++ spawns next ∷ [])
        × (queued d f l'.smp 0 ≡ [])
  unfolding start_run started_loop
  first_turn f yield n m next app l p v pos_n cpu empty polled h kept =
      let (smp₁, sent, v₁, q₁) = submit_to_lem d f app.smp n 0 next v pos_n in
      let s : World R × Application d = (
        put l.poller.store next (make_special_one_way_lambda_message 0),
        record app { smp = smp₁ },
      ) in
      let queue : queued d f smp₁ l.cpu ≡ next ∷ [] =
        ap (queued d f smp₁) cpu ∙ q₁ 0 ∙ ap (λ xs. xs ++ next ∷ []) empty in
      let (c, r, smp₂, e, h', rest, others, none_left) =
        turn_lem k complete d f (started_loop k complete d yield l s) p m n [] polled h v₁
          (omega (arith, cpu)) in
      let some_taken : ¬ (c ≡ 0) = λ z. one_is_not_none next (sym queue ∙ none_left z) in
      (
        s,
        after_turn k complete d f (started_loop k complete d yield l s) p r smp₂
            (add_acts p.store (spawns next ∷ [])),
        ap
            (λ a. a >>=ᵒ λ x. some (
              put l.poller.store next (make_special_one_way_lambda_message 0),
              record app { smp = x.1 },
            ))
            sent,
        e
            ∙ ap
                (λ a. checked a >>= λ w.
                  ok (after_turn k complete d f (started_loop k complete d yield l s) p r smp₂ w))
                (ap (λ ms. process_all ms p.store) (ap (take c) queue ∙ take_one c next some_taken)
                  ∙ process_fn-spawns p.store next (ap (λ x. x.returned) kept ∙ (fresh_app R 0).0)),
        refl,
        ap (queued d f smp₂) (sym cpu) ∙ rest ∙ ap (drop c) queue ∙ drop_one c next some_taken,
      )

  -- In an application with the reactors that its constructor makes for `m + 1` cpus: if the event
  -- loop takes `n` turns from where `run` starts it, and then the reactor was told to stop and no
  -- fiber is left, its free workers can be stopped, and the message of the main function was
  -- processed with the outcome `o`, then `run` joins the threads of the reactors of the cpus 1 to
  -- `m`, each once and in order, and no other, and returns what the function returned, or throws
  -- what it threw.
  pub run_answers :
      (yield : EventLoop k complete d → Result (EventLoop k complete d)) (n more next m : ℕ)
      → (app : Application d) (l l' : EventLoop k complete d) (s : World R × Application d)
      → (pool : Pool) (o : Outcome R) → app.reactors ≡ make_reactors 0 (suc m)
      → start_run d app next l.poller.store ≡ some s
      → Turns k complete d yield n
          (record (started_loop k complete d yield l s) { running = true })
          l'
      → Over k complete d yield l'
      → stop_workers l'.pool ≡ some pool
      → l'.poller.store.store next ≡ process (make_special_one_way_lambda_message 0) o
      → run k complete d yield (n + more) app l next ≡ ok (some (cpus_from 1 m, o))
  unfolding run after_loop
  run_answers yield n more next m app l l' s pool o made e t over stopped processed = rw (
    e,
    event_loop_ends k complete d yield n more (started_loop k complete d yield l s) l' pool t over
        stopped,
    processed,
    app_result 0 o,
    made,
    joined_lem m,
  )
