-- ===== src/Reactor.antt =====
-- include/dumbo/v1/reactor/reactor.hpp and src/reactor/reactor.cpp: what a reactor does with the
-- messages that reach it. A message is its address in `store`; the fibers that the reactor starts
-- run when it yields, and what their functions return is outside the program. `none` is a failed
-- assertion, or an exception that leaves `process_fn` and with it the event loop; `ended` says that
-- std::terminate was called.
pub mod Dispatch
pub mod Drain
pub mod System
pub mod Started
pub mod Conservation
pub mod Kept
pub mod Rest
pub mod Wakes
mod Tests
use dumbo.Base.{
  ℕ, zero, suc, ◌+◌, List, [], ◌∷◌, ◌++◌, Option, none, some, Bool, true, false, not, ltb, ◌==◌,
  ◌||◌, if◌then◌else◌, pos,
}
use dumbo.Base.Faults.{◌>>=◌, ◌>>◌, assert}
use dumbo.Message.{
  Outcome, Message, Effect, resume, delete, rethrow, process, finish, make_fiber_lambda_message,
  make_one_way_lambda_message,
}
use dumbo.Ring.{Ring, available, pop_back}
use dumbo.Mpsc.{Disruptor}
use dumbo.Smp.{Smp, submit_to}

-- What reactors do to their surroundings, in order.
pub data Act : Type 0 where
  does : ℕ → Effect → Act
  spawns : ℕ → Act

-- `finished` lists the messages that `finish` was called for.
pub record World (R : Type 0) : Type 0 where
  pub store : ℕ → Message R
  pub acts : List Act
  pub ended : Bool
  pub finished : List ℕ

pub effects_of : ℕ → List Effect → List Act
effects_of a [] = []
effects_of a (e ∷ es) = does a e ∷ effects_of a es

throws_out : List Effect → Bool
throws_out [] = false
throws_out (rethrow e ∷ es) = true
throws_out (resume c ∷ es) = throws_out es
throws_out (delete ∷ es) = throws_out es

module _ {R : Type 0} where
  abbrev pub put : World R → ℕ → Message R → World R
  put w a m = record w { store = λ b. if a == b then m else w.store b }

  abbrev pub add_acts : World R → List Act → World R
  add_acts w as' = record w { acts = w.acts ++ as' }

  abbrev pub finished_with : World R → ℕ → Message R → List Act → World R
  finished_with w a m as' = record (add_acts (put w a m) as') { finished = w.finished ++ a ∷ [] }

  pub finish_at : World R → ℕ → Option (World R × List Effect)
  unfolding effects_of
  finish_at w a = do (m, es) ← finish (w.store a); some (finished_with w a m (effects_of a es), es)

  -- An exception that `finish` throws is not caught.
  leave : World R × List Effect → Option (World R)
  unfolding throws_out
  leave (w, es) = if throws_out es then none else some w

  process_branch : Bool → ℕ → World R → Option (World R)
  unfolding finish_at leave
  process_branch true a w = finish_at w a >>= leave
  process_branch false a w = some (add_acts w (spawns a ∷ []))

  -- `process_fn`: an answered message is finished here, any other starts a fiber.
  pub process_fn : ℕ → World R → Option (World R)
  unfolding process_branch
  process_fn a w = process_branch (w.store a).returned a w

  -- The loop over the ring. A round takes a value, and none puts one in, so `fuel` is the number of
  -- values at the start.
  pub drain_ring : ℕ → Ring ℕ → World R → Option (Ring ℕ × World R)
  unfolding process_fn
  drain_ring zero r w = some (r, w)
  drain_ring (suc fuel) r w =
      if available r == 0
      then some (r, w)
      else (do (a, r') ← pop_back r; w' ← process_fn a w; drain_ring fuel r' w')

  -- `process_fn` as the consumer of the inbox.
  abbrev pub consume : ℕ → Option (World R) → Option (World R)
  consume a w = w >>= process_fn a

  module _ (d : Disruptor ℕ) where
    -- An exception that leaves `finish` ends the program.
    pub settle : Bool → ℕ → ℕ → World R → Smp d → Option (World R × Smp d)
    unfolding finish_at throws_out
    settle false cpu a w smp = do (sent, smp') ← submit_to d smp (pos cpu) a; some (w, smp')
    settle true cpu a w smp = do
      (w', es) ← finish_at w a
      some (record w' { ended = w'.ended || throws_out es }, smp)

    -- The fiber that `process_fn` starts, once it runs.
    pub fiber_body : ℕ → Outcome R → World R → Smp d → Option (World R × Smp d)
    unfolding settle
    fiber_body a o w smp = let m = process (w.store a) o in settle m.one_way m.cpu a (put w a m) smp

    -- `run_at` up to the suspension of the fiber `context`: the message at the new address `a` goes
    -- to the target.
    pub run_at : ℕ → ℕ → ℕ → ℕ → World R → Smp d → Option (World R × Smp d)
    run_at cpu target_cpu context a w smp = do
      assert (not (context == 0))
      (sent, smp') ← submit_to d smp (pos target_cpu) a
      some (put w a (make_fiber_lambda_message cpu context), smp')

    pub run_at_async : ℕ → ℕ → ℕ → ℕ → World R → Smp d → Option (World R × Smp d)
    run_at_async cpu target_cpu context a w smp = do
      assert (not (context == 0))
      (sent, smp') ← submit_to d smp (pos target_cpu) a
      some (put w a (make_one_way_lambda_message cpu), smp')
