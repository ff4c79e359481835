-- ===== src/Offload/Tests.antt =====
-- A call that the last free worker of a pool runs.
use dumbo.Base.{ℕ, ◌≡◌, refl, [], ◌∷◌, ◌++◌, some, none, arith, true, false, pos}
use dumbo.Message.{Message, returns, resume, result_of, make_fiber_lambda_message}
use dumbo.Message.Offloaded.{offloaded}
use dumbo.Mpsc.Listed.{listed, listed-Fifo}
use dumbo.Smp.{Smp}
use dumbo.Worker.{Worker, waiting, moved, thread_step}
use dumbo.Worker.Handoff.{IsIdle, after_task}
use dumbo.Pool.{Pool, try_run, release}
use dumbo.Pool.Invariant.{IsValid}
use dumbo.Pool.Lend.{lending, served, returned}
use dumbo.Reactor.{World, put, does, process_fn}
use dumbo.Reactor.Dispatch.{Behind}
use dumbo.Offload.{deliver, offload_lem}

abbrev idle : Worker
idle = record {
  place = waiting;
  joinable = true;
  task = none;
  stopping = false;
  finished = false;
  ready = false;
  processed = [];
}

abbrev pool : Pool
pool = record {
  min_size = 1;
  max_size = 3;
  free = 1 ∷ [];
  busy = 2 ∷ [];
  worker = λ a. idle;
  next = 3;
}

pool-IsValid : IsValid pool
pool-IsValid = record {
  few_free = omega arith;
  few_busy = omega arith;
  once = λ a. ground arith;
  known = λ a h. ground arith;
  positive = omega arith;
}

abbrev cpus : Smp listed
cpus = record { cpu_num = pos 2; inboxes = (0, 4 ∷ []) ∷ (0, []) ∷ [] }

abbrev at_all : Message ℕ → World ℕ
at_all m = record { store = λ a. m; acts = []; ended = false; finished = [] }

abbrev before : World ℕ
before = at_all (make_fiber_lambda_message 0 40)

abbrev after : World ℕ
after = at_all (offloaded 0 40 1 (returns 9))

offload_lem_example :
    (try_run pool 7 ≡ some (true, lending pool [] 1 7))
    × (thread_step ((lending pool [] 1 7).worker 1) ≡ moved (after_task idle 7))
    × ((smp' : Smp listed) × (deliver listed 1 7 (returns 9) before cpus
          ≡ some (put before 7 (offloaded 0 40 1 (returns 9)), smp'))
        × Behind listed listed-Fifo cpus smp' 0 7)
    × ((w₄ : World ℕ) × (process_fn 7 after ≡ some w₄)
        × (w₄.acts ≡ [] ++ does 7 (resume 40) ∷ [])
        × (result_of (w₄.store 7) ≡ some (returns 9))
        × ((w₄.store 7).worker ≡ some 1))
    × IsIdle ((served pool [] 1 7).worker 1)
    × (release (served pool [] 1 7) 1 ≡ some (returned pool [] 1 7))
offload_lem_example =
    offload_lem listed listed-Fifo pool [] 1 7 0 40 2 (returns 9) before after cpus pool-IsValid
      refl (record { place = refl; not_ready = refl; running = refl; joinable = refl })
      (omega arith) (omega arith) (omega arith) (record { cpus = refl; boxes = refl }) (omega arith)
      refl refl
