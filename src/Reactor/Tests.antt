-- ===== src/Reactor/Tests.antt =====
-- A call between two reactors, and the theorems of reactor.cpp at it.
use dumbo.Base.{ℕ, ◌≡◌, refl, [], ◌∷◌, some, arith, true, false, pos}
use dumbo.Message.{
  Message, returns, throws, resume, delete, rethrow, process, result_of, make_fiber_lambda_message,
  make_one_way_lambda_message,
}
use dumbo.Mpsc.Listed.{listed, listed-Fifo}
use dumbo.Smp.{Smp}
use dumbo.Smp.Routing.{IsValid}
use dumbo.Reactor.{World, put, add_acts, does, spawns, process_fn, fiber_body, run_at, run_at_async}
use dumbo.Reactor.Dispatch.{Behind, remote_call, one_way_call}

abbrev cpus : Smp listed
cpus = record { cpu_num = pos 2; inboxes = (0, 4 ∷ []) ∷ (0, []) ∷ [] }

cpus-IsValid : IsValid listed cpus 2
cpus-IsValid = record { cpus = refl; boxes = refl }

abbrev at_all : Message ℕ → World ℕ
at_all m = record { store = λ a. m; acts = []; ended = false; finished = [] }

remote_call_example :
    ((smp₁ : Smp listed) × (run_at listed 0 1 40 7 (at_all (make_one_way_lambda_message 0)) cpus
        ≡ some
            (put (at_all (make_one_way_lambda_message 0)) 7 (make_fiber_lambda_message 0 40), smp₁))
      × Behind listed listed-Fifo cpus smp₁ 1 7)
    × (process_fn 7 (at_all (make_fiber_lambda_message 0 40))
        ≡ some (add_acts (at_all (make_fiber_lambda_message 0 40)) (spawns 7 ∷ [])))
    × ((smp₃ : Smp listed) × (fiber_body listed 7
            (returns 9)
            (at_all (make_fiber_lambda_message 0 40))
            cpus
          ≡ some (
            put
                (at_all (make_fiber_lambda_message 0 40))
                7
                (process (make_fiber_lambda_message 0 40) (returns 9)),
            smp₃,
          ))
        × Behind listed listed-Fifo cpus smp₃ 0 7)
    × ((w₄ : World ℕ) × (process_fn 7
            (at_all (process (make_fiber_lambda_message 0 40) (returns 9)))
          ≡ some w₄)
        × (w₄.acts ≡ does 7 (resume 40) ∷ [])
        × (result_of (w₄.store 7) ≡ some (returns 9)))
remote_call_example =
    remote_call listed listed-Fifo (at_all (make_one_way_lambda_message 0))
      (at_all (make_fiber_lambda_message 0 40))
      (at_all (process (make_fiber_lambda_message 0 40) (returns 9))) cpus cpus 7 0 1 40 2
      (returns 9) (omega arith) (omega arith) (omega arith) cpus-IsValid cpus-IsValid refl refl

one_way_call_example :
    ((smp₁ : Smp listed) × (run_at_async listed 0 1 40 7
          (at_all (make_fiber_lambda_message 0 40))
          cpus
        ≡ some
            (put (at_all (make_fiber_lambda_message 0 40)) 7 (make_one_way_lambda_message 0), smp₁))
      × Behind listed listed-Fifo cpus smp₁ 1 7)
    × (process_fn 7 (at_all (make_one_way_lambda_message 0))
        ≡ some (add_acts (at_all (make_one_way_lambda_message 0)) (spawns 7 ∷ [])))
    × ((w₃ : World ℕ) × (fiber_body listed 7
            (throws 5)
            (at_all (make_one_way_lambda_message 0))
            cpus
          ≡ some (w₃, cpus))
        × (w₃.acts ≡ does 7 delete ∷ does 7 (rethrow 5) ∷ [])
        × (w₃.ended ≡ true))
unfolding dumbo.Reactor.effects_of
one_way_call_example =
    one_way_call listed listed-Fifo (at_all (make_fiber_lambda_message 0 40))
      (at_all (make_one_way_lambda_message 0)) cpus cpus 7 0 1 40 2 (throws 5) (omega arith)
      (omega arith) cpus-IsValid refl
