-- ===== src/Offload.antt =====
-- A call whose function runs in the thread pool: include/dumbo/v1/reactor/thread_pool.hpp with the
-- messages, the inboxes and the reactor that it works for. `deliver` is what a worker's thread does
-- to a task and to the inboxes; Worker has what it does to itself. `none` is a failed assertion.
mod Tests
use dumbo.Base.{ℕ, ◌+◌, ◌<◌, ◌≡◌, ◌≢◌, refl, ap, ◌∙◌, List, [], ◌∷◌, ◌++◌, Option, some, pos, true}
use dumbo.Base.Faults.{◌>>=◌}
use dumbo.Message.{
  Outcome, Message, resume, process, set_data, result_of, make_fiber_lambda_message,
}
use dumbo.Message.Offloaded.{offloaded, offloaded_lem}
use dumbo.Mpsc.{Disruptor}
use dumbo.Mpsc.Fifo.{Fifo}
use dumbo.Smp.{Smp, submit_to}
use dumbo.Smp.Routing.{submit_to_lem}
use dumbo.Smp.Routing
use dumbo.Worker.{moved, thread_step}
use dumbo.Worker.Handoff.{IsIdle, after_task}
use dumbo.Pool.{Pool, try_run, release}
use dumbo.Pool.Invariant
use dumbo.Pool.Lend.{lending, served, returned, lend_lem}
use dumbo.Reactor.{Act, does, World, put, finished_with, process_fn}
use dumbo.Reactor.Dispatch.{Behind, store-put, process_fn-resumes}
use dumbo.Base.{length}

module _ {R : Type 0} (d : Disruptor ℕ) where
  -- The worker at the address `worker` processes the task, marks it as its own, and submits it.
  pub deliver : ℕ → ℕ → Outcome R → World R → Smp d → Option (World R × Smp d)
  deliver worker task o w smp = do
    let m = set_data (process (w.store task) o) worker
    (sent, smp') ← submit_to d smp (pos m.cpu) task
    some (put w task m, smp')

  module _ (f : Fifo d) where
    -- The message of a call from a fiber on a valid cpu is at the address `a`, not null. In a valid pool
    -- with room, whose last free worker `b` waits, `try_run` gives the message to `b`; the next step
    -- of its thread runs it, and puts it, processed, behind what waits for the calling cpu. That reactor
    -- resumes the calling fiber, once; the message's result is the outcome of its function, value or
    -- exception, and the message names `b`. Released, `b` is free again, and the pool has the free and the
    -- busy workers that it had. The reactors' worlds when the worker runs the message and when the
    -- reactor takes it are `w₂` and `w₃`, where only the message at `a` has to be the one left there.
    pub offload_lem :
        (p : Pool) (rest : List ℕ) (b a cpu context n : ℕ) (o : Outcome R) (w₂ w₃ : World R)
        → (smp : Smp d) → Invariant.IsValid p
        → p.free ≡ rest ++ b ∷ []
        → IsIdle (p.worker b)
        → length p.busy < p.max_size
        → a ≢ 0
        → context ≢ 0
        → Routing.IsValid d smp n
        → cpu < n
        → w₂.store a ≡ make_fiber_lambda_message cpu context
        → w₃.store a ≡ offloaded cpu context b o
        → (try_run p a ≡ some (true, lending p rest b a))
          × (thread_step ((lending p rest b a).worker b) ≡ moved (after_task (p.worker b) a))
          × ((smp' : Smp d) × (deliver b a o w₂ smp
                ≡ some (put w₂ a (offloaded cpu context b o), smp'))
              × Behind d f smp smp' cpu a)
          × ((w₄ : World R) × (process_fn a w₃ ≡ some w₄)
              × (w₄.acts ≡ w₃.acts ++ does a (resume context) ∷ [])
              × (result_of (w₄.store a) ≡ some o)
              × ((w₄.store a).worker ≡ some b))
          × IsIdle ((served p rest b a).worker b)
          × (release (served p rest b a) b ≡ some (returned p rest b a))
    unfolding deliver
    offload_lem p rest b a cpu context n o w₂ w₃ smp v last idle room z zc vs inside e₂ e₃ =
        let m = offloaded cpu context b o in
        let (fin, r, c, res, owner) = offloaded_lem cpu context b o zc in
        let (accepted, stepped, idle', freed) = lend_lem p rest b a v last idle z room in
        let (smp', sent, v', behind) = submit_to_lem d f smp n cpu a vs inside in
        (
          accepted,
          stepped,
          (
            smp',
            ap
                  (λ k. submit_to d smp (pos (set_data (process k o) b).cpu) a >>= λ s.
                    some (put w₂ a (set_data (process k o) b), s.1))
                  e₂
                ∙ ap (λ t. submit_to d smp (pos t) a >>= λ s. some (put w₂ a m, s.1)) c
                ∙ ap (λ s. s >>= λ x. some (put w₂ a m, x.1)) sent,
            behind,
          ),
          (
            finished_with w₃ a m (does a (resume context) ∷ []),
            process_fn-resumes w₃ a context m e₃ r fin,
            refl,
            ap result_of (store-put w₃ a m) ∙ res,
            ap (λ k. k.worker) (store-put w₃ a m) ∙ owner,
          ),
          idle',
          freed,
        )
