-- ===== src/Application.antt =====
-- include/dumbo/v1/reactor/application.hpp and src/reactor/application.cpp: the reactors of a
-- program, and their shutdown. A reactor is its cpu and whether it has a thread of its own; `next`
-- is the address that `new` returns next. `none` is a failed assertion.
pub mod Shutdown
pub mod Run
mod Tests
use dumbo.Base.{ℕ, zero, suc, ◌+◌, List, [], ◌∷◌, Option, none, some, Bool, ltb, ℤ, pos}
use dumbo.Base.Faults.{◌>>=◌}
use dumbo.Message.{Message, make_one_way_function_message, make_special_one_way_lambda_message}
use dumbo.Mpsc.{Disruptor}
use dumbo.Smp.{Smp, make_smp, submit_to}
use dumbo.Reactor.{World, put}

pub record ReactorInfo : Type 0 where
  pub cpu : ℕ
  pub own_thread : Bool

-- The loop of the constructor over the cpus from `c` on.
pub make_reactors : ℕ → ℕ → List ReactorInfo
make_reactors c zero = []
make_reactors c (suc left) = record { cpu = c; own_thread = ltb 0 c } ∷ make_reactors (c + 1) left

module _ (d : Disruptor ℕ) where
  pub record Application : Type 0 where
    pub smp : Smp d
    pub reactors : List ReactorInfo

  -- The constructor, for any number of cpus: the source has 1.
  pub make_application : d.State → ℕ → Application
  unfolding make_reactors
  make_application fresh cpu_num = record {
    smp = make_smp d fresh (pos cpu_num);
    reactors = make_reactors 0 cpu_num;
  }

  module _ {R : Type 0} where
    pub shutdown_each : List ReactorInfo → ℕ → World R → Smp d → Option (World R × Smp d)
    shutdown_each [] next w smp = some (w, smp)
    shutdown_each (r ∷ rs) next w smp = do
      (sent, smp') ← submit_to d smp (pos r.cpu) next
      shutdown_each rs (next + 1) (put w next (make_one_way_function_message r.cpu)) smp'

    pub shutdown : Application → ℕ → World R → Option (World R × Application)
    unfolding shutdown_each
    shutdown app next w = do
      (w', smp') ← shutdown_each app.reactors next w app.smp
      some (w', record app { smp = smp' })

    -- `run` up to the event loop of the first reactor.
    pub start_run : Application → ℕ → World R → Option (World R × Application)
    start_run app next w = do
      (sent, smp') ← submit_to d app.smp (pos 0) next
      some (put w next (make_special_one_way_lambda_message 0), record app { smp = smp' })
